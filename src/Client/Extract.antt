-- ===== src/Client/Extract.antt =====
-- client/extract.go.
pub mod Fields
use skopos.Base.{
  String, List, [], ◌∷◌, Option, none, some, pos, lookup, insert, ◌==◌, if◌then◌else◌, Result, ok,
  err, msg, context, ◌>>=◌,
}
use skopos.Any.{Any, nil}
use skopos.Schema.Path.{RefPath, is_empty}
use skopos.Schema.Doc.{ExtractVar}
use skopos.Client.Platform.{Platform}
use skopos.Client.Scope.{Scope, Header, header_lookup}
use skopos.Client.BodyPath.{lookup_body_path}
use skopos.Client.Eval.{apply_regex}
use skopos.Client.Coerce.{to_string, apply_format}
use skopos.Client.Exec.{Exec}
use skopos.Client.Progress.{with_regex, with_coerce}

-- stepResult of client/http.go: what one exchange yields.
pub record StepResult : Type 0 where
  pub headers : Option Header
  pub body : Any

pub data Dest : Type 0 where
  to_state to_extract : Dest

-- extractDest
unfoldable pub extract_dest : RefPath → Result (Dest × String)
extract_dest p = elim p.parts [
  | [] ↦ err (msg "to must be state.<name> or extract.<name>")
  | root ∷ ps ↦ elim ps [
    | [] ↦ err (msg "to must be state.<name> or extract.<name>")
    | name ∷ more ↦ elim more [
      | [] ↦
          if root == "state"
          then ok (to_state, name)
          else if root == "extract"
          then ok (to_extract, name)
          else err (msg "to root must be state or extract")
      | x ∷ xs ↦ err (msg "to must be state.<name> or extract.<name>")
    ]
  ]
]

abbrev nil_if_none : Option Any → Any
nil_if_none none = nil
nil_if_none (some v) = v

abbrev bad_step : Result Any
bad_step = err (msg "steps ref must be steps.<id>.body.<path> or steps.<id>.header.<name>")

abbrev pub put : Dest → String → Any → Scope → Scope
put to_state name v s = record s { state = insert name v s.state }
put to_extract name v s = record s { extract = insert name v s.extract }

module _ (platform : Platform) where
  from_response : StepResult → List String → Result Any
  unfolding lookup_body_path header_lookup
  from_response res [] = err (msg "response ref requires a kind segment")
  from_response res (kind ∷ rest) =
      if kind == "body"
      then ok (nil_if_none (lookup_body_path res.body rest))
      else if kind == "header"
      then elim rest [
        | [] ↦ err (msg "response.header ref requires a header name")
        | name ∷ more ↦ ok (nil_if_none (header_lookup platform.canonical_header res.headers name))
      ]
      else err (msg "response ref must be response.body.<path> or response.header.<name>")

  abbrev body_of : Option Any → List String → Any
  body_of none path = nil
  body_of (some v) path = nil_if_none (lookup_body_path v path)

  abbrev header_of : Option (Option Header) → String → Any
  header_of none name = nil
  header_of (some h) name = nil_if_none (header_lookup platform.canonical_header h name)

  from_step : Scope → List String → Result Any
  unfolding lookup lookup_body_path header_lookup
  from_step s [] = bad_step
  from_step s (id ∷ []) = bad_step
  from_step s (id ∷ kind ∷ rest) =
      if kind == "body"
      then ok (body_of (lookup id s.steps) rest)
      else if kind == "header"
      then elim rest [
        | [] ↦ err (msg "steps.<id>.header ref requires a header name")
        | name ∷ more ↦ ok (header_of (lookup id s.step_headers) name)
      ]
      else bad_step

  -- resolveExtractFrom
  pub resolve_extract_from : StepResult → RefPath → Scope → Result Any
  unfolding is_empty from_response from_step
  resolve_extract_from res p s = if is_empty p then err (msg "from is required") else elim p.parts [
    | [] ↦ err (msg "from is required")
    | root ∷ rest ↦
        if root == "response"
        then from_response res rest
        else if root == "steps"
        then from_step s rest
        else err (msg "extract.from must be namespace-rooted")
  ]

  -- One entry: where its value goes, and the value.
  unfoldable pub extract_one : StepResult → ExtractVar → Scope → Result (Dest × String × Any)
  unfolding extract_dest resolve_extract_from apply_regex apply_format to_string
  extract_one res ev s = do
    at ← context "extract" (extract_dest ev.to)
    raw ← context "extract" (resolve_extract_from res ev.from s)
    cut ← context "regex" (with_regex platform ev.regex (pos 0) raw)
    v ← context "coerce" (with_coerce platform ev.coerce cut)
    ok (at.0, at.1, v)

  -- runExtracts: each entry is written before the next is resolved.
  unfoldable pub run_extracts : StepResult → List ExtractVar → Exec (Unit {0})
  unfolding extract_one insert
  run_extracts res [] s = (ok tt, s)
  run_extracts res (ev ∷ evs) s = elim (extract_one res ev s) [
    | err e ↦ (err e, s)
    | ok t ↦ run_extracts res evs (put t.0 t.1 t.2 s)
  ]

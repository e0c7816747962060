-- ===== src/Client/Lifetime.antt =====
-- The lifetimes of state fields in client/state.go: which fields a drain resets, which it saves, and
-- the scope that a drain starts with.
pub mod Targets
pub mod Valid
pub mod Declared
pub mod Laws
mod Tests
use skopos.Base.{
  ℕ, String, Bool, true, false, List, [], ◌∷◌, ◌++◌, Option, none, some, ℤ, Dict, lookup, insert,
  remove, copy_into, contains, ◌==◌, if◌then◌else◌, Result, ok, err, context, ◌>>=◌,
}
use skopos.Any.{Any, nil}
use skopos.Schema.Path.{RefPath}
use skopos.Schema.Value.{Value}
use skopos.Schema.Doc.{Doc, FieldDecl, Request, ExtractVar, Write, Pagination}
use skopos.Client.Platform.{Platform}
use skopos.Client.Scope.{Scope}
use skopos.Client.Eval.{eval_value}

abbrev pub name_behind : String → List String → Option String
name_behind root (r ∷ name ∷ []) = if r == root then some name else none
name_behind root ps = none

-- stateFieldName
unfoldable pub state_field_name : RefPath → Option String
state_field_name p = name_behind "state" p.parts

-- out[name] = struct{}{} for a path that names a state field
abbrev add_name : Option String → List String → List String
add_name none names = names
add_name (some n) names = if contains n names then names else n ∷ names

add_targets : List RefPath → List String → List String
unfolding state_field_name
add_targets [] names = names
add_targets (p ∷ ps) names = add_targets ps (add_name (state_field_name p) names)

abbrev pub write_targets : List Write → List RefPath
write_targets [] = []
write_targets (w ∷ ws) = w.to ∷ write_targets ws

-- The `to` of the pagination variant that the switch picks.
abbrev pub pagination_targets : Pagination → List RefPath
pagination_targets p = elim p.cursor_token [
  | some c ↦ c.to ∷ []
  | none ↦ elim p.next_url [
    | some u ↦ u.to ∷ []
    | none ↦ elim p.counter [
      | some c ↦ c.to ∷ []
      | none ↦ elim p.custom [ some c ↦ write_targets c.advance | none ↦ [] ]
    ]
  ]
]

unfoldable pub per_drain_scratch_fields : Doc → List String
unfolding add_targets
per_drain_scratch_fields doc = add_targets (pagination_targets doc.pagination) []

abbrev pub extract_targets : List ExtractVar → List RefPath
extract_targets [] = []
extract_targets (ex ∷ exs) = ex.to ∷ extract_targets exs

abbrev pub request_targets : List Request → List RefPath
request_targets [] = []
request_targets (r ∷ rs) = extract_targets r.extract ++ request_targets rs

unfoldable pub persistent_state_fields : Doc → List String
unfolding add_targets
persistent_state_fields doc =
    add_targets (request_targets doc.requests) (add_targets (write_targets doc.progress) [])

pub data FieldLifetime : Type 0 where
  operator_config per_drain_scratch persistent : FieldLifetime

-- classifyStateField: `none` where the field is not declared.
unfoldable pub classify_state_field : Doc → String → Option FieldLifetime
unfolding per_drain_scratch_fields persistent_state_fields lookup
classify_state_field doc name = elim (lookup name doc.state) [
  | none ↦ none
  | some fd ↦
      if contains name (per_drain_scratch_fields doc)
      then some per_drain_scratch
      else if contains name (persistent_state_fields doc)
      then some persistent
      else some operator_config
]

abbrev keep_found : String → Bool → Option Any → Dict Any → Dict Any
keep_found name scratch found out =
    if scratch then out else elim found [ none ↦ out | some v ↦ (name, v) ∷ out ]

-- The loop of snapshot over the declared fields.
pub saved_fields : List String → Dict FieldDecl → Dict Any → Dict Any
unfolding lookup
saved_fields scratch [] state = []
saved_fields scratch ((name, fd) ∷ decls) state =
    keep_found name (contains name scratch) (lookup name state) (saved_fields scratch decls state)

unfoldable pub snapshot : Doc → Scope → Dict Any
unfolding per_drain_scratch_fields saved_fields
snapshot doc s = saved_fields (per_drain_scratch_fields doc) doc.state s.state

abbrev pub default_of : Option FieldDecl → Option Value
default_of none = none
default_of (some fd) = fd.initial

module _ (platform : Platform) where
  -- The loop of seedDefaults.
  seed_defaults : Dict FieldDecl → Scope → Result Scope
  unfolding eval_value insert
  seed_defaults [] s = ok s
  seed_defaults ((name, fd) ∷ decls) s = elim fd.initial [
    | none ↦ seed_defaults decls s
    | some d ↦ do
      v ← context "state default" (eval_value platform s d)
      seed_defaults decls (record s { state = insert name v s.state })
  ]

  -- newScope, with the clock's reading; `exchanges` and `checks` count from 0.
  unfoldable pub new_scope : Doc → Dict Any → ℤ → Result Scope
  unfolding seed_defaults copy_into
  new_scope doc snap now = do
    s ← seed_defaults doc.state (record {
      state = [];
      cache = [];
      extract = [];
      steps = [];
      events = nil;
      body = nil;
      response_headers = none;
      step_headers = [];
      item = nil;
      item_binding = "";
      now = now;
      exchanges = 0;
      checks = 0;
    })
    ok (record s { state = copy_into s.state snap })

  -- One scratch field: its default, or no value.
  reset_field : Dict FieldDecl → String → Scope → Result Scope
  unfolding eval_value insert remove lookup
  reset_field decls name s = elim (default_of (lookup name decls)) [
    | none ↦ ok (record s { state = remove name s.state })
    | some d ↦ do
      v ← context "state default" (eval_value platform s d)
      ok (record s { state = insert name v s.state })
  ]

  reset_fields : Dict FieldDecl → List String → Scope → Result (Unit {0}) × Scope
  unfolding reset_field
  reset_fields decls [] s = (ok tt, s)
  reset_fields decls (name ∷ names) s = elim (reset_field decls name s) [
    | ok s' ↦ reset_fields decls names s'
    | err e ↦ (err e, s)
  ]

  unfoldable pub reset_per_drain_scratch : Doc → Scope → Result (Unit {0}) × Scope
  unfolding reset_fields per_drain_scratch_fields
  reset_per_drain_scratch doc s = reset_fields doc.state (per_drain_scratch_fields doc) s

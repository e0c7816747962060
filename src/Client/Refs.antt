-- ===== src/Client/Refs.antt =====
-- References: resolveNamespaceRef, resolveEvents and projectEvents of client/state.go.
pub mod Laws
pub mod Agree
pub mod Valid
mod Tests
use skopos.Base.{
  ℕ, String, Bool, true, false, ◌&&◌, not, List, [], ◌∷◌, map, Option, none, some, ℤ, pos, length,
  get_last?, lookup, ◌==◌, if◌then◌else◌, Result, ok, err, msg,
}
use skopos.Any.{Any, nil, int, list, elems, of_list, as_list, is_nil}
use skopos.Schema.Path.{RefPath, is_empty}
use skopos.Client.Numerals.{parse_int}
use skopos.Client.Platform.{Platform}
use skopos.Client.Scope.{Scope, Header, header_lookup}
use skopos.Client.BodyPath.{walk, at_index, lookup_body_path}

abbrev pub or_nil : Option Any → Any
or_nil none = nil
or_nil (some v) = v

-- v, ok := m[k]; if !ok { return nil, false, nil }; return walk(v, rest)
abbrev pub walk_found : Option Any → List String → Option Any
walk_found none rest = none
walk_found (some v) rest = walk v rest

-- projectEvents: the list itself, or each element's value at the path, nil where it has none.
unfoldable pub project_events : List Any → List String → Any
unfolding walk
project_events vs [] = list (of_list vs)
project_events vs (seg ∷ rest) = list (of_list (map (λ el. or_nil (walk el (seg ∷ rest))) vs))

abbrev head? : List Any → Option Any
head? [] = none
head? (v ∷ vs) = some v

-- The arms of resolveEvents where a page is bound.
pub page_events : List Any → String → List String → Result (Option Any)
unfolding project_events walk parse_int
page_events vs seg rest =
    if seg == "count"
    then elim rest [
      | [] ↦ ok (some (int (pos (length vs))))
      | s ∷ ss ↦ err (msg "events.count takes no sub-path")
    ]
    else if seg == "first"
    then ok (walk_found (head? vs) rest)
    else if seg == "last"
    then ok (walk_found (get_last? vs) rest)
    else if seg == "*"
    then ok (some (project_events vs rest))
    else ok (walk_found (at_index vs (parse_int seg)) rest)

-- The arms where none is: only events.count is there.
no_page : String → List String → Option Any
no_page seg [] = if seg == "count" then some (int (pos 0)) else none
no_page seg (s ∷ ss) = none

unfoldable pub resolve_events : Any → List String → Result (Option Any)
unfolding page_events no_page
resolve_events events [] = ok (if is_nil events then none else some events)
resolve_events events (seg ∷ rest) = elim (as_list events) [
  | none ↦ ok (no_page seg rest)
  | some vs ↦ page_events vs seg rest
]

-- state.<name>, cache.<name> and extract.<name>, which have one shape.
unfoldable pub resolve_slot : String → List (String × Any) → List String → Result (Option Any)
unfolding walk lookup
resolve_slot missing m [] = err (msg missing)
resolve_slot missing m (name ∷ rest) = ok (walk_found (lookup name m) rest)

module _ (platform : Platform) where
  abbrev flat_header : Option (Option Header) → Option Header
  flat_header none = none
  flat_header (some h) = h

  -- steps.<id>.body[.<path>] and steps.<id>.header.<name>
  resolve_step : Scope → List String → Result (Option Any)
  unfolding walk lookup header_lookup
  resolve_step s [] = err (msg "steps ref must be steps.<id>.body or steps.<id>.header.<name>")
  resolve_step s (id ∷ []) =
      err (msg "steps ref must be steps.<id>.body or steps.<id>.header.<name>")
  resolve_step s (id ∷ kind ∷ rest) =
      if kind == "body"
      then ok (walk_found (lookup id s.steps) rest)
      else if kind == "header"
      then elim rest [
        | [] ↦ err (msg "steps.<id>.header ref requires a header name")
        | name ∷ more ↦
            ok (
              header_lookup platform.canonical_header (flat_header (lookup id s.step_headers)) name)
      ]
      else err (msg "steps ref must be steps.<id>.body or steps.<id>.header.<name>")

  abbrev body_at : Any → List String → Option Any
  body_at nil parts = none
  body_at body parts = lookup_body_path body parts

  -- response.body[.<path>] and response.header.<name>
  resolve_response : Scope → List String → Result (Option Any)
  unfolding lookup_body_path header_lookup
  resolve_response s [] = err (msg "response ref requires a kind segment")
  resolve_response s (kind ∷ rest) =
      if kind == "body"
      then ok (body_at s.body rest)
      else if kind == "header"
      then elim rest [
        | [] ↦ err (msg "response.header ref requires a header name")
        | name ∷ more ↦ ok (header_lookup platform.canonical_header s.response_headers name)
      ]
      else err (msg "response ref must be response.body or response.header.<name>")

  abbrev item_at : Any → List String → Option Any
  item_at nil rest = none
  item_at item rest = walk item rest

  -- The switch on the root, behind the fan_out.as binding that precedes it.
  resolve_root : Scope → String → List String → Result (Option Any)
  unfolding walk resolve_slot resolve_events resolve_step resolve_response
  resolve_root s root rest =
      if not (s.item_binding == "") && root == s.item_binding
      then ok (item_at s.item rest)
      else if root == "state"
      then resolve_slot "state ref requires a field name" s.state rest
      else if root == "cache"
      then resolve_slot "cache ref requires a slot name" s.cache rest
      else if root == "events"
      then resolve_events s.events rest
      else if root == "extract"
      then resolve_slot "extract ref requires a name" s.extract rest
      else if root == "steps"
      then resolve_step s rest
      else if root == "response"
      then resolve_response s rest
      else err (msg "unknown namespace root")

  abbrev resolve_parts : Scope → List String → Result (Option Any)
  resolve_parts s [] = err (msg "empty path")
  resolve_parts s (root ∷ rest) = resolve_root s root rest

  -- resolveNamespaceRef: `none` is (nil, false, nil), an unresolved leaf.
  unfoldable pub resolve_namespace_ref : Scope → RefPath → Result (Option Any)
  unfolding is_empty resolve_root
  resolve_namespace_ref s p = if is_empty p then err (msg "empty path") else resolve_parts s p.parts

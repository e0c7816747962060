-- ===== src/Client/Lifetime/Tests.antt =====
-- Lifetimes of the state fields of a small document.
use skopos.Base.{
  ◌≡◌, refl, true, false, not, ◌&&◌, [], ◌∷◌, none, some, pos, ok, lookup, contains, if◌then◌else◌,
}
use skopos.Any.{int, nil}
use skopos.Client.Lifetime.Valid.{validate-disjoint}
use skopos.Client.Scope.{Scope}
use skopos.Client.Lifetime.{
  persistent_state_fields, default_of, snapshot, new_scope, per_drain_scratch_fields,
  reset_per_drain_scratch, classify_state_field, per_drain_scratch, persistent,
}
use skopos.Client.Lifetime.Laws.{is_some, lookup-snapshot, new_scope-snapshot}
use skopos.Client.Samples.{platform, doc, scope, valid_doc, valid_doc-no_errors, wire}

classified :
    (classify_state_field doc "page" ≡ some per_drain_scratch)
    × (classify_state_field doc "since" ≡ some persistent)
    × (classify_state_field doc "other" ≡ none)
unfolding classify_state_field
classified = (refl, refl, refl)

page_is_scratch : contains "page" (per_drain_scratch_fields doc) ≡ true
unfolding per_drain_scratch_fields
page_is_scratch = refl

since_is_kept : contains "since" (per_drain_scratch_fields doc) ≡ false
unfolding per_drain_scratch_fields
since_is_kept = refl

lookup-snapshot_example : lookup "since" (snapshot doc scope) ≡ (
    if is_some (lookup "since" doc.state) && not (contains "since" (per_drain_scratch_fields doc))
    then lookup "since" scope.state
    else none)
lookup-snapshot_example = lookup-snapshot doc scope "since"

abbrev next_scope : Scope
next_scope = record scope { state = ("since", int (pos 5)) ∷ []; cache = []; events = nil }

resumed : new_scope platform doc (snapshot doc scope) (pos 1000) ≡ ok next_scope
unfolding new_scope snapshot
resumed = refl

since_declared : is_some (lookup "since" doc.state) ≡ true
unfolding lookup
since_declared = refl

since_found : lookup "since" scope.state ≡ some (int (pos 5))
unfolding lookup
since_found = refl

new_scope-snapshot_example : lookup "since" next_scope.state ≡ some (int (pos 5))
new_scope-snapshot_example =
    new_scope-snapshot platform doc scope next_scope (pos 1000) "since" (int (pos 5)) since_declared
      since_is_kept since_found resumed

abbrev wiped : Scope
wiped = record scope { state = ("since", int (pos 5)) ∷ [] }

wipes : reset_per_drain_scratch platform doc scope ≡ (ok tt, wiped)
unfolding reset_per_drain_scratch
wipes = refl

page_has_no_default : default_of (lookup "page" doc.state) ≡ none
unfolding lookup
page_has_no_default = refl

page_not_kept_by : contains "page" (per_drain_scratch_fields valid_doc) ≡ true
unfolding per_drain_scratch_fields
page_not_kept_by = refl

validate-disjoint_example : contains "page" (persistent_state_fields valid_doc) ≡ false
validate-disjoint_example =
    validate-disjoint platform.parse_duration wire.match_glob valid_doc "page" valid_doc-no_errors
      page_not_kept_by

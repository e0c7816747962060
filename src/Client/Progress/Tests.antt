-- ===== src/Client/Progress/Tests.antt =====
-- Progress writes of a small document.
use skopos.Base.{◌≡◌, refl, List, [], ◌∷◌, some, ok, err, msg, wrap, Error, pos, lookup}
use skopos.Any.{int}
use skopos.Schema.Value.{literal_int, unset}
use skopos.Schema.Doc.{Write}
use skopos.Client.Coerce.{is_zero_runtime}
use skopos.Client.Scope.{Scope}
use skopos.Client.Lifetime.{state_field_name}
use skopos.Client.Progress.{apply_progress}
use skopos.Client.Progress.Laws.{written, apply_progress-lookup, apply_progress_atomic}
use skopos.Client.Samples.{platform, scope, progress, since, page}

abbrev moved : Scope
moved = record scope { state = ("page", int (pos 4)) ∷ ("since", int (pos 9)) ∷ [] }

applied : apply_progress platform progress scope ≡ (ok tt, moved)
unfolding apply_progress is_zero_runtime
applied = refl

apply_progress-lookup_example :
    (lookup "since" moved.state
      ≡ written platform scope progress "since" (lookup "since" scope.state))
    × (moved ≡ record scope { state = moved.state })
apply_progress-lookup_example = apply_progress-lookup platform progress scope moved "since" applied

abbrev failing : List Write
failing =
    record { to = page; from = literal_int (pos 1); coerce = ""; regex = "" }
    ∷ record { to = since; from = unset; coerce = ""; regex = "" }
    ∷ []

abbrev failure : Error
failure = wrap "from" (msg "schema.Value: no variant set")

page_named : state_field_name page ≡ some "page"
unfolding state_field_name
page_named = refl

since_named : state_field_name since ≡ some "since"
unfolding state_field_name
since_named = refl

fails : apply_progress platform failing scope ≡ (err failure, scope)
unfolding apply_progress is_zero_runtime
fails = refl

apply_progress_atomic_example : scope ≡ scope
apply_progress_atomic_example =
    apply_progress_atomic platform failing scope scope failure
      ((λ h. cc page_named), ((λ h. cc since_named), tt)) fails

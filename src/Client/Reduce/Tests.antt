-- ===== src/Client/Reduce/Tests.antt =====
-- Reductions of short lists.
use skopos.Base.{
  ◌≡◌, refl, ◌+◌, true, Option, List, [], ◌∷◌, map, none, some, ℤ, pos, negsuc, ltb, length,
  get_elem?, if◌then◌else◌,
}
use skopos.Any.{duration}
use skopos.Client.Reduce.{slice_list, bound, reduce_extreme}
use skopos.Client.Reduce.Laws.{cell, Extreme, slice_list-get_elem?, reduce_extreme-Extreme}
use skopos.Client.Samples.{platform, events}

slice_list-get_elem?_example : get_elem? (slice_list events (some (negsuc 3)) (some (pos 1))) 0 ≡ (
    if ltb (bound 0 (some (negsuc 3)) + 0) (bound (length events) (some (pos 1)))
    then get_elem? events (bound 0 (some (negsuc 3)) + 0)
    else none)
slice_list-get_elem?_example = slice_list-get_elem? events (some (negsuc 3)) (some (pos 1)) 0

abbrev cells : List (Option ℤ)
cells = some (pos 3) ∷ none ∷ some (negsuc 4) ∷ some (pos 8) ∷ []

reduce_extreme-Extreme_example :
    (m : Option ℤ) × (reduce_extreme platform (map cell cells) true ≡ cell m) × Extreme true m cells
reduce_extreme-Extreme_example = reduce_extreme-Extreme platform true cells

-- The greatest of two durations is the first of them: durations have no order.
durations_not_ordered :
    reduce_extreme platform (duration (pos 1) ∷ duration (pos 2) ∷ []) true ≡ duration (pos 1)
unfolding reduce_extreme
durations_not_ordered = refl

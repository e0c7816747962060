-- ===== src/Client/Reduce.antt =====
-- Arithmetic and reducers of client/value.go: arithAdd, arithSubtract, reduceExtreme, firstNonNil,
-- lastNonNil and sliceList.
pub mod Laws
mod Tests
use Prim.Native.Nat.{min}
use skopos.Base.{
  ℕ, ◌-◌, ◌^◌, Bool, true, false, ◌&&◌, List, [], ◌∷◌, Option, none, some, ℤ, pos, negsuc, pos_part,
  ◌+ℤ◌, ◌-ℤ◌, wrap64, ltb, ltb_ℤ, length, take, drop, if◌then◌else◌, Result, ok, err, msg, context,
  ◌>>=◌,
}
use skopos.Any.{Any, nil, int, time, duration, is_nil}
use skopos.Client.Platform.{Platform}
use skopos.Client.Coerce.{to_duration, as_time, as_int64}
use skopos.Client.Compare.{ordered_compare}

abbrev both {ℓ} : {A B : Type ℓ} → Option A → Option B → Option (A × B)
both none b = none
both (some a) none = none
both (some a) (some b) = some (a, b)

-- time.Time.Sub: the difference, held within the range of a Duration.
unfoldable pub time_sub : ℤ → ℤ → ℤ
unfolding ◌-ℤ◌
time_sub a b =
    let d = a -ℤ b in
    if ltb_ℤ d (negsuc (2 ^ 63 - 1))
    then negsuc (2 ^ 63 - 1)
    else if ltb_ℤ (pos (2 ^ 63 - 1)) d
    then pos (2 ^ 63 - 1)
    else d

abbrev durations : (ℤ → ℤ → ℤ) → Result ℤ → Result ℤ → Result Any
durations op (ok a) (ok b) = ok (duration (op a b))
durations op (ok a) (err e) = err (msg "cannot interpret as time/duration/int")
durations op (err e) b = err (msg "cannot interpret as time/duration/int")

-- Two int64, or else two durations.
abbrev numbers : (ℤ → ℤ → ℤ) → Option (ℤ × ℤ) → Result ℤ → Result ℤ → Result Any
numbers op (some (a, b)) da db = ok (int (op a b))
numbers op none da db = durations op da db

-- firstNonNil
unfoldable pub first_non_nil : List Any → Any
first_non_nil [] = nil
first_non_nil (v ∷ vs) = let rest = first_non_nil vs in if is_nil v then rest else v

-- lastNonNil: the same walk from the end.
unfoldable pub last_non_nil : List Any → Any
last_non_nil [] = nil
last_non_nil (v ∷ vs) = let rest = last_non_nil vs in if is_nil rest then v else rest

-- *from, or 0; a negative bound is raised to 0.
abbrev pub bound : ℕ → Option ℤ → ℕ
bound d none = d
bound d (some z) = pos_part z

unfoldable pub slice_list : List Any → Option ℤ → Option ℤ → List Any
slice_list vs from to =
    let n = length vs in
    let lo = min (bound 0 from) n in
    let raised = if ltb (bound n to) lo then lo else bound n to in
    let hi = min raised n in take (hi - lo) (drop lo vs)

module _ (platform : Platform) where
  unfoldable pub arith_add : Any → Any → Result Any
  unfolding as_time as_int64 to_duration ◌+ℤ◌ wrap64
  arith_add a b = elim (as_time platform a) [
    | some ta ↦ do
      d ← context "add: time + non-duration" (to_duration platform b)
      ok (time (ta +ℤ d))
    | none ↦ elim (as_time platform b) [
      | some tb ↦ do
        d ← context "add: non-duration + time" (to_duration platform a)
        ok (time (tb +ℤ d))
      | none ↦
          numbers (λ x y. wrap64 (x +ℤ y)) (both (as_int64 platform a) (as_int64 platform b))
            (to_duration platform a) (to_duration platform b)
    ]
  ]

  unfoldable pub arith_subtract : Any → Any → Result Any
  unfolding as_time as_int64 to_duration ◌+ℤ◌ ◌-ℤ◌ wrap64 time_sub
  arith_subtract a b = elim (as_time platform a) [
    | some ta ↦ elim (as_time platform b) [
      | some tb ↦ ok (duration (time_sub ta tb))
      | none ↦ do
        d ← context "subtract: time - non-duration" (to_duration platform b)
        ok (time (ta +ℤ wrap64 (pos 0 -ℤ d)))
    ]
    | none ↦ elim (as_time platform b) [
      | some tb ↦ err (msg "subtract: cannot subtract time")
      | none ↦
          numbers (λ x y. wrap64 (x -ℤ y)) (both (as_int64 platform a) (as_int64 platform b))
            (to_duration platform a) (to_duration platform b)
    ]
  ]

  -- c > 0 under greatest, c < 0 otherwise; an error keeps the pick.
  abbrev replaces : Bool → Result ℤ → Bool
  replaces greatest (err e) = false
  replaces true (ok c) = ltb_ℤ (pos 0) c
  replaces false (ok c) = ltb_ℤ c (pos 0)

  -- The loop of reduceExtreme, which carries `pick`.
  pub extreme_from : Bool → Any → List Any → Any
  unfolding ordered_compare
  extreme_from greatest pick [] = pick
  extreme_from greatest pick (el ∷ els) =
      extreme_from greatest
        (if is_nil el
          then pick
          else if is_nil pick
          then el
          else if replaces greatest (ordered_compare platform el pick)
          then el
          else pick)
        els

  unfoldable pub reduce_extreme : List Any → Bool → Any
  unfolding extreme_from
  reduce_extreme vs greatest = extreme_from greatest nil vs

-- ===== src/Client/Reduce/Laws.antt =====
-- What the reducers over lists give.
use Prim.Native.Nat.{min}
use native.Mathlib.Decide.{dec_lt}
use skopos.Base.{
  ℕ, zero, suc, ◌+◌, ◌-◌, ◌≤◌, ◌≡◌, refl, sym, ap, ◌∙◌, ◌⊎◌, inl, inr, All, Bool, true, false, List,
  [], ◌∷◌, map, Option, none, some, ℤ, ltb, length, get_elem?, take, drop, ltb_ℤ, ◌≤ℤ◌,
  if◌then◌else◌, arith,
}
use skopos.Any.{Any, nil, int}
use skopos.Client.Platform.{Platform}
use skopos.Client.Coerce.{as_time, as_int64}
use skopos.Client.Compare.{ordered_compare, compare_int}
use skopos.Client.Reduce.{slice_list, bound, extreme_from, reduce_extreme}

module _ {ℓ} {A : Type ℓ} where
  get_elem?-drop : (n : ℕ) (xs : List A) (i : ℕ) → get_elem? (drop n xs) i ≡ get_elem? xs (n + i)
  get_elem?-drop zero xs i = ap (get_elem? xs) {x = i} (omega arith)
  get_elem?-drop (suc n) [] i = refl
  get_elem?-drop (suc n) (x ∷ xs) i =
      get_elem?-drop n xs i ∙ ap (get_elem? (x ∷ xs)) {x = suc (n + i)} (omega arith)

  get_elem?-take :
      (n : ℕ) (xs : List A) (i : ℕ)
      → get_elem? (take n xs) i ≡ (if ltb i n then get_elem? xs i else none)
  get_elem?-take zero xs i = ground arith
  get_elem?-take (suc n) [] i = ground arith
  get_elem?-take (suc n) (x ∷ xs) zero = ground arith
  get_elem?-take (suc n) (x ∷ xs) (suc i) = ground (arith, get_elem?-take n xs i)

  get_elem?-beyond : (xs : List A) (i : ℕ) → length xs ≤ i → get_elem? xs i ≡ none
  get_elem?-beyond [] i h = refl
  get_elem?-beyond (x ∷ xs) zero h = absurd (omega arith)
  get_elem?-beyond (x ∷ xs) (suc i) h = get_elem?-beyond xs i (omega arith)

clamped :
    (vs : List Any) (lo hi i : ℕ)
    → let from = min lo (length vs) in
      let to = min (if ltb hi from then from else hi) (length vs) in
      get_elem? (take (to - from) (drop from vs)) i
      ≡ (if ltb (lo + i) hi then get_elem? vs (lo + i) else none)
clamped vs lo hi i =
    let from = min lo (length vs) in
    let to = min (if ltb hi from then from else hi) (length vs) in
    let found = get_elem?-take (to - from) (drop from vs) i in
    elim (dec_lt (lo + i) (length vs)) [
      | no past ↦
          found
          ∙ ground (
            arith,
            get_elem?-drop from vs i,
            get_elem?-beyond vs (from + i),
            get_elem?-beyond vs (lo + i),
          )
      | yes inside ↦ found ∙ ground (arith, get_elem?-drop from vs i)
    ]

-- A slice reads like a half-open range of the list: its i-th element is the list's at from + i as
-- long as that is below to, and there is none from there on. A bound that is left out is 0 or the
-- length, a negative one is 0, and one past the end reads as the end.
pub slice_list-get_elem? :
    (vs : List Any) (from to : Option ℤ) (i : ℕ)
    → get_elem? (slice_list vs from to) i ≡ (
        if ltb (bound 0 from + i) (bound (length vs) to)
        then get_elem? vs (bound 0 from + i)
        else none)
unfolding slice_list
slice_list-get_elem? vs from to i = clamped vs (bound 0 from) (bound (length vs) to) i

-- A list of ints with gaps.
abbrev pub cell : Option ℤ → Any
cell none = nil
cell (some z) = int z

-- No element is further out than `m`.
abbrev Within : Bool → ℤ → Option ℤ → Type 0
Within greatest m none = Unit
Within true m (some z) = z ≤ℤ m
Within false m (some z) = m ≤ℤ z

abbrev pub Extreme : Bool → Option ℤ → List (Option ℤ) → Type 0
Extreme greatest none cs = All (λ c. c ≡ none) cs
Extreme greatest (some m) cs =
    ((i : ℕ) × (get_elem? cs i ≡ some (some m))) × All (Within greatest m) cs

abbrev further : Bool → ℤ → ℤ → ℤ
further true p z = if ltb_ℤ p z then z else p
further false p z = if ltb_ℤ z p then z else p

abbrev pick : Bool → Option ℤ → Option ℤ → Option ℤ
pick greatest p none = p
pick greatest none (some z) = some z
pick greatest (some p) (some z) = some (further greatest p z)

pick-side : (greatest : Bool) (p c : Option ℤ) → (pick greatest p c ≡ p) ⊎ (pick greatest p c ≡ c)
pick-side greatest p none = inl refl
pick-side greatest none (some z) = inr refl
pick-side true (some p) (some z) = ground arith
pick-side false (some p) (some z) = ground arith

pick-Within :
    (greatest : Bool) (m : ℤ) (p c : Option ℤ)
    → Within greatest m (pick greatest p c)
    → Within greatest m p × Within greatest m c
pick-Within greatest m p none h = (h, tt)
pick-Within greatest m none (some z) h = (tt, h)
pick-Within true m (some p) (some z) h = ground arith
pick-Within false m (some p) (some z) h = ground arith

position :
    (x p c : Option ℤ) (cs : List (Option ℤ)) (m : ℤ) (i : ℕ)
    → (x ≡ p) ⊎ (x ≡ c)
    → get_elem? (x ∷ cs) i ≡ some (some m)
    → (j : ℕ) × (get_elem? (p ∷ c ∷ cs) j ≡ some (some m))
position x p c cs m zero (inl side) h = (0, ap some (sym side) ∙ h)
position x p c cs m zero (inr side) h = (1, ap some (sym side) ∙ h)
position x p c cs m (suc i) side h = (suc (suc i), h)

Extreme-of_pick :
    (greatest : Bool) (p c : Option ℤ) (m : Option ℤ) (cs : List (Option ℤ))
    → Extreme greatest m (pick greatest p c ∷ cs)
    → Extreme greatest m (p ∷ c ∷ cs)
Extreme-of_pick greatest p none none cs (h, hs) = (h, (refl, hs))
Extreme-of_pick greatest none (some z) none cs (h, hs) = cc
Extreme-of_pick greatest (some p) (some z) none cs (h, hs) = cc
Extreme-of_pick greatest p c (some m) cs ((i, at), (h, hs)) =
    let (below_p, below_c) = pick-Within greatest m p c h in
    (position (pick greatest p c) p c cs m i (pick-side greatest p c) at, (below_p, (below_c, hs)))

Extreme-tail :
    (greatest : Bool) (m : Option ℤ) (cs : List (Option ℤ))
    → Extreme greatest m (none ∷ cs)
    → Extreme greatest m cs
Extreme-tail greatest none cs (h, hs) = hs
Extreme-tail greatest (some m) cs ((zero, at), (h, hs)) = cc
Extreme-tail greatest (some m) cs ((suc i, at), (h, hs)) = ((i, at), hs)

module _ (platform : Platform) where
  extreme_from-cons :
      (greatest : Bool) (p c : Option ℤ) (els : List Any)
      → extreme_from platform greatest (cell p) (cell c ∷ els)
        ≡ extreme_from platform greatest (cell (pick greatest p c)) els
  unfolding extreme_from ordered_compare as_time as_int64 compare_int
  extreme_from-cons greatest p none els = refl
  extreme_from-cons greatest none (some z) els = refl
  extreme_from-cons true (some p) (some z) els =
      ap (λ v. extreme_from platform true v els) (ground arith)
  extreme_from-cons false (some p) (some z) els =
      ap (λ v. extreme_from platform false v els) (ground arith)

  self_Within : (greatest : Bool) (z : ℤ) → Within greatest z (some z)
  self_Within true z = omega arith
  self_Within false z = omega arith

  extreme_from-Extreme :
      (greatest : Bool) (p : Option ℤ) (cs : List (Option ℤ))
      → (m : Option ℤ) × (extreme_from platform greatest (cell p) (map cell cs) ≡ cell m)
        × Extreme greatest m (p ∷ cs)
  unfolding extreme_from
  extreme_from-Extreme greatest none [] = (none, refl, (refl, tt))
  extreme_from-Extreme greatest (some p) [] =
      (some p, refl, ((0, refl), (self_Within greatest p, tt)))
  extreme_from-Extreme greatest p (c ∷ cs) =
      let (m, result, outer) = extreme_from-Extreme greatest (pick greatest p c) cs in
      (
        m,
        extreme_from-cons greatest p c (map cell cs) ∙ result,
        Extreme-of_pick greatest p c m cs outer,
      )

  -- Over ints with nils among them, max is nil if every element is, and else an element that no other
  -- exceeds; min is the same from below.
  pub reduce_extreme-Extreme :
      (greatest : Bool) (cs : List (Option ℤ))
      → (m : Option ℤ) × (reduce_extreme platform (map cell cs) greatest ≡ cell m)
        × Extreme greatest m cs
  unfolding reduce_extreme
  reduce_extreme-Extreme greatest cs =
      let (m, result, outer) = extreme_from-Extreme greatest none cs in
      (m, result, Extreme-tail greatest m cs outer)

-- ===== src/Client/Trace/Alike.antt =====
-- Header sets that a trace shows alike.
use skopos.Base.{
  String, ◌≡◌, refl, sym, ◌⊎◌, inl, inr, true, List, [], ◌∷◌, insert, contains, ◌==◌, Bool-cases,
}
use skopos.Client.Scope.{Header}
use skopos.Client.Trace.{shown_headers}

module _ (to_lower : String → String) (hidden : List String) where
  -- Two header sets of the same names, with the same values where a name is not hidden.
  abbrev pub Alike : Header → Header → Type 0
  Alike [] [] = Unit
  Alike [] (e ∷ h') = ⊥
  Alike (e ∷ h) [] = ⊥
  Alike ((k, v) ∷ h) ((k', v') ∷ h') =
      (k ≡ k') × ((contains (to_lower k) hidden ≡ true) ⊎ (v ≡ v')) × Alike h h'

  pub Alike-refl : (h : Header) → Alike h h
  Alike-refl [] = tt
  Alike-refl ((k, v) ∷ h) = (refl, inr refl, Alike-refl h)

  pub shown_headers-Alike :
      (h h' : Header)
      → Alike h h'
      → shown_headers to_lower hidden h ≡ shown_headers to_lower hidden h'
  unfolding shown_headers
  shown_headers-Alike [] [] a = refl
  shown_headers-Alike [] (e ∷ h') a = absurd a
  shown_headers-Alike (e ∷ h) [] a = absurd a
  shown_headers-Alike ((k, v) ∷ h) ((k', v') ∷ h') (e, inl covered, rest) =
      rw (sym e, covered, shown_headers-Alike h h' rest)
  shown_headers-Alike ((k, v) ∷ h) ((k', v') ∷ h') (e, inr same, rest) =
      rw (e, same, shown_headers-Alike h h' rest)

  pub Alike-insert :
      (n : String) (v v' : List String) (h h' : Header)
      → (contains (to_lower n) hidden ≡ true) ⊎ (v ≡ v')
      → Alike h h'
      → Alike (insert n v h) (insert n v' h')
  unfolding insert
  Alike-insert n v v' [] [] same a = (refl, same, tt)
  Alike-insert n v v' [] (e ∷ h') same a = absurd a
  Alike-insert n v v' (e ∷ h) [] same a = absurd a
  Alike-insert n v v' ((k, w) ∷ h) ((k', w') ∷ h') same (e, old, rest) =
      elim (Bool-cases (k' == n)) [
        | inl here ↦ rw (e, here) (refl, same, rest)
        | inr other ↦ rw (e, other) (refl, rw e at old, Alike-insert n v v' h h' same rest)
      ]

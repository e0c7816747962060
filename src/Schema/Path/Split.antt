-- ===== src/Schema/Path/Split.antt =====
-- strings.Split(s, "."), strings.Join(parts, ".") and strings.Contains(s, "."), and their laws.
use Prim.Native.Char.{Char}
use Prim.Native.String
use text.Mathlib.TextLemmas.{nil-append, cons-append}
use skopos.Base.{
  String, ◌≡◌, refl, ap, ◌∙◌, inl, inr, Bool, true, false, ◌||◌, List, [], ◌∷◌, All, arith, ◌==◌,
  eq_iff, Bool-cases, if◌then◌else◌,
}

pub push_head : Char → List String → List String
push_head c [] = String.◌∷◌ c "" ∷ []
push_head c (p ∷ ps) = String.◌∷◌ c p ∷ ps

abbrev is_dot : Char → Bool
is_dot c = String.◌∷◌ c "" == "."

unfoldable pub split_dot : String → List String
unfolding push_head
split_dot String.[] = "" ∷ []
split_dot (String.◌∷◌ c s) =
    let rest = split_dot s in if is_dot c then "" ∷ rest else push_head c rest

unfoldable pub join_dot : List String → String
join_dot [] = ""
join_dot (p ∷ []) = p
join_dot (p ∷ q ∷ ps) = String.◌++◌ p (String.◌++◌ "." (join_dot (q ∷ ps)))

unfoldable pub contains_dot : String → Bool
contains_dot String.[] = false
contains_dot (String.◌∷◌ c s) = is_dot c || contains_dot s

pub split_dot_of_plain : (p : String) → contains_dot p ≡ false → split_dot p ≡ p ∷ []
unfolding split_dot contains_dot
split_dot_of_plain String.[] h = refl
split_dot_of_plain (String.◌∷◌ c s) h = ground (arith, split_dot_of_plain s)

split_dot-append :
    (p s : String)
    → contains_dot p ≡ false
    → split_dot (String.◌++◌ p (String.◌++◌ "." s)) ≡ p ∷ split_dot s
unfolding split_dot contains_dot
split_dot-append String.[] s h = rw (nil-append, cons-append, nil-append) refl
split_dot-append (String.◌∷◌ c p) s h =
    rw (cons-append c p (String.◌++◌ "." s)) (ground (arith, split_dot-append p s))

-- Splitting a joined list gives the list back when no part holds a dot.
pub split_dot-join_dot :
    (p : String) (ps : List String)
    → All (λ q. contains_dot q ≡ false) (p ∷ ps)
    → split_dot (join_dot (p ∷ ps)) ≡ p ∷ ps
unfolding join_dot
split_dot-join_dot p [] (h, _) = split_dot_of_plain p h
split_dot-join_dot p (q ∷ ps) (h, hs) =
    rw (split_dot-append p (join_dot (q ∷ ps)) h) (ap (λ l. p ∷ l) (split_dot-join_dot q ps hs))

join_dot-push_head :
    (c : Char) (p : String) (ps : List String)
    → join_dot (push_head c (p ∷ ps)) ≡ String.◌∷◌ c (join_dot (p ∷ ps))
unfolding join_dot push_head
join_dot-push_head c p [] = refl
join_dot-push_head c p (q ∷ ps) = rw (cons-append c p (String.◌++◌ "." (join_dot (q ∷ ps))))

join_dot-dot :
    (p : String) (ps : List String) → join_dot ("" ∷ p ∷ ps) ≡ String.◌++◌ "." (join_dot (p ∷ ps))
unfolding join_dot
join_dot-dot p ps = rw nil-append

split_dot-ne-nil : (s : String) → (p : String) × (ps : List String) × (split_dot s ≡ p ∷ ps)
unfolding split_dot push_head
split_dot-ne-nil String.[] = ("", [], refl)
split_dot-ne-nil (String.◌∷◌ c s) = elim (Bool-cases (is_dot c)) [
  | inl dot ↦ ("", split_dot s, rw dot)
  | inr other ↦ let (p, ps, e) = split_dot-ne-nil s in (String.◌∷◌ c p, ps, rw (other, e))
]

cons-eq-dot-append : (c : Char) (s : String) → is_dot c ≡ true → String.◌++◌ "." s ≡ String.◌∷◌ c s
cons-eq-dot-append c s h =
    rw (← (eq_iff (String.◌∷◌ c "") ".").0 h) (rw (cons-append c "" s) (rw (nil-append s)))

-- Joining the parts of a split text gives the text back.
pub join_dot-split_dot : (s : String) → join_dot (split_dot s) ≡ s
unfolding split_dot
join_dot-split_dot String.[] = unfold join_dot in refl
join_dot-split_dot (String.◌∷◌ c s) =
    let (p, ps, e) = split_dot-ne-nil s in
    let ih = join_dot-split_dot s in
    elim (Bool-cases (is_dot c)) [
      | inl dot ↦ rw (dot, e) (join_dot-dot p ps ∙ rw (← e) (rw ih (cons-eq-dot-append c s dot)))
      | inr other ↦ rw (other, e) (join_dot-push_head c p ps ∙ rw (← e) (rw ih))
    ]

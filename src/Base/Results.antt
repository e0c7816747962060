-- ===== src/Base/Results.antt =====
-- What a Go function with an error result returns. An error is a label of the place that made it,
-- behind the labels of the places that wrapped it; formatted operands are left out.
use Prim.Native.Nat.{ℕ}
use Prim.Native.String.{String}
use mathlib.Core.Path.{◌≡◌, refl}
use mathlib.Core.Logic.{◌⊎◌, inl, inr}

pub data Error : Type 0 where
  -- errors.New, and fmt.Errorf without %w
  msg : String → Error
  -- fmt.Errorf with %w
  wrap : String → Error → Error
  -- client.unexpectedStatusError
  unexpected_status : ℕ → Error
  -- client.errMaxPagesExceeded
  max_pages_exceeded : ℕ → Error

pub data Result {ℓ} (T : Type ℓ) : Type ℓ where
  err : Error → Result T
  ok : T → Result T

module _ {ℓ κ} {A : Type ℓ} {B : Type κ} where
  infixl 5 ◌>>=◌ ◌>>◌
  abbrev pub ◌>>=◌ : Result A → (A → Result B) → Result B
  err e >>= next = err e
  ok a >>= next = next a

  abbrev pub ◌>>◌ : Result A → Result B → Result B
  m >> more = m >>= λ _. more

  -- A bind that succeeds went through a value.
  pub >>=-eq-ok :
      (m : Result A) (next : A → Result B) {b : B}
      → (m >>= next) ≡ ok b
      → (a : A) × (m ≡ ok a) × (next a ≡ ok b)
  >>=-eq-ok (err e) next h = cc
  >>=-eq-ok (ok a) next h = (a, refl, h)

-- if err != nil { return fmt.Errorf("label: %w", err) }
abbrev pub context {ℓ} : {A : Type ℓ} → String → Result A → Result A
context label (ok a) = ok a
context label (err e) = err (wrap label e)

pub context-eq-ok {ℓ} :
    {A : Type ℓ} (label : String) (m : Result A) {a : A} → context label m ≡ ok a → m ≡ ok a
context-eq-ok label (ok a) h = h
context-eq-ok label (err e) h = cc

pub Result-cases {ℓ} :
    {A : Type ℓ} (r : Result A) → ((a : A) × (r ≡ ok a)) ⊎ ((e : Error) × (r ≡ err e))
Result-cases (ok a) = inl (a, refl)
Result-cases (err e) = inr (e, refl)

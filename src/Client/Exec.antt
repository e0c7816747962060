-- ===== src/Client/Exec.antt =====
-- Methods of the scope that write to it and may return an error. What was written before an error
-- stays written: the scope comes back beside the error too, and the teardown of a drain saves it.
pub mod Twin
use skopos.Base.{
  ◌≡◌, refl, Bool, true, false, Option, none, some, if◌then◌else◌, Result, ok, err, Error, wrap,
  String, inl, inr, Result-cases,
}
use skopos.Base as Base
use skopos.Client.Scope.{Scope}

abbrev pub Exec : Type 0 → Type 0
Exec A = Scope → Result A × Scope

module _ {A : Type 0} where
  abbrev pub pure : A → Exec A
  pure a s = (ok a, s)

  abbrev pub raise : Error → Exec A
  raise e s = (err e, s)

  -- A method that reads the scope and writes nothing.
  abbrev pub reads : (Scope → Result A) → Exec A
  reads f s = (f s, s)

  -- if err != nil { return fmt.Errorf("label: %w", err) }
  abbrev pub labelled : String → Exec A → Exec A
  labelled label m s = let (r, s') = m s in (Base.context label r, s')

abbrev pub modify : (Scope → Scope) → Exec (Unit {0})
modify f s = (ok tt, f s)

module _ {A B : Type 0} where
  abbrev pub continue : Result A → (A → Exec B) → Exec B
  continue (ok a) f s = f a s
  continue (err e) f s = (err e, s)

  infixl 5 ◌>>=◌ ◌>>◌
  abbrev pub ◌>>=◌ : Exec A → (A → Exec B) → Exec B
  ◌>>=◌ m f s = let (r, s') = m s in continue r f s'

  abbrev pub ◌>>◌ : Exec A → Exec B → Exec B
  m >> k = m >>= λ _. k

-- A bind that succeeds went through a value and a scope.
pub bind-eq-ok :
    {A B : Type 0} (m : Exec A) (f : A → Exec B) (s s' : Scope) (b : B)
    → (m >>= f) s ≡ (ok b, s')
    → (a : A) × (t : Scope) × (m s ≡ (ok a, t)) × (f a t ≡ (ok b, s'))
bind-eq-ok m f s s' b h = elim (Result-cases (m s).0) [
  | inl (a, got) ↦ (a, (m s).1, cc, rw got at h)
  | inr (e, failed) ↦ cc (rw failed at h)
]

-- The scope after `m` holds what `P` says of the scope before it, whether `m` returns or fails.
pub record Keeps {A : Type 0} (P : Scope → Type 0) (m : Exec A) : Type 0 where
  pub at : (s : Scope) → P s → P (m s).1

module _ {A : Type 0} {P : Scope → Type 0} where
  pub Keeps-pure : (a : A) → Keeps P (pure a)
  Keeps-pure a = record { at = λ s h. h }

  pub Keeps-raise : (e : Error) → Keeps P (raise {A = A} e)
  Keeps-raise e = record { at = λ s h. h }

  pub Keeps-reads : (f : Scope → Result A) → Keeps P (reads f)
  Keeps-reads f = record { at = λ s h. h }

  pub Keeps-labelled : (label : String) (m : Exec A) → Keeps P m → Keeps P (labelled label m)
  Keeps-labelled label m k = record { at = k.at }

  pub Keeps-if : (b : Bool) (m n : Exec A) → Keeps P m → Keeps P n → Keeps P (if b then m else n)
  Keeps-if true m n km kn = km
  Keeps-if false m n km kn = kn

module _ {A B : Type 0} {P : Scope → Type 0} where
  pub Keeps-continue :
      (r : Result A) (f : A → Exec B) → ((a : A) → Keeps P (f a)) → Keeps P (continue r f)
  Keeps-continue (ok a) f k = record { at = (k a).at }
  Keeps-continue (err e) f k = record { at = λ s h. h }

  pub Keeps-bind :
      (m : Exec A) (f : A → Exec B) → Keeps P m → ((a : A) → Keeps P (f a)) → Keeps P (m >>= f)
  Keeps-bind m f km kf = record {
    at = λ s h. let (r, s') = m s in (Keeps-continue r f kf).at s' (km.at s h);
  }

  -- The rest of the block may use what the value says of how it was made.
  pub Keeps-bind_value :
      (r : Result A) (f : A → Exec B)
      → ((a : A) → r ≡ ok a → Keeps P (f a))
      → Keeps P (reads (λ s. r) >>= f)
  Keeps-bind_value (ok a) f k = record { at = (k a refl).at }
  Keeps-bind_value (err e) f k = record { at = λ s h. h }

pub ruleset keeps_rules =
    (Keeps-pure, Keeps-raise, Keeps-reads, Keeps-labelled, Keeps-if, Keeps-bind)

-- ===== src/Client/Pagination/Counts.antt =====
-- The numbers that counter pagination asks for, page by page.
use skopos.Base.{
  ℕ, zero, suc, String, ◌≡◌, ◌⊎◌, refl, sym, ap, subst, ◌∙◌, inl, inr, false, Option, none, some, ℤ,
  pos, ◌+ℤ◌, wrap64, lookup, insert, lookup-insert, eq_refl, ok, Result-cases,
}
use skopos.Any.{Any, nil, int}
use skopos.Schema.Value.{Value, literal_int}
use skopos.Schema.Doc.{CounterPagination}
use skopos.Client.Platform.{Platform}
use skopos.Client.Scope.{Scope}
use skopos.Client.Coerce.{to_int}
use skopos.Client.Eval.{eval_value}
use skopos.Client.Lifetime.{state_field_name}
use skopos.Client.Pagination.{resolve_int, current, advance_counter}
use skopos.Client.Pagination.Ends.{counter_before, advance_counter-counts}

-- An optional integer of the block that is the literal `n`, or is left out where the default is 1.
abbrev pub Fixed : Option Value → ℤ → Type 0
Fixed v n = (v ≡ some (literal_int n)) ⊎ ((v ≡ none) × (n ≡ pos 1))

-- The number behind `k` pages, from `start` on in steps of `step`, in the arithmetic of int64.
abbrev pub number : ℤ → ℤ → ℕ → ℤ
number start step zero = start
number start step (suc k) = wrap64 (number start step k +ℤ step)

module _ (platform : Platform) (c : CounterPagination) (name : String) where
  -- As many advances that go on, with anything between them that leaves the counter's field alone.
  pub data Advances : ℕ → Scope → Scope → Type 0 where
    begins : {s : Scope} → Advances 0 s s
    counts_on :
        {k : ℕ} {s u : Scope} (t t' : Scope)
        → Advances k s t
        → lookup name t'.state ≡ lookup name t.state
        → advance_counter platform c t' ≡ (ok false, u)
        → Advances (suc k) s u

  Fixed-resolve_int :
      (v : Option Value) (n m : ℤ) (s : Scope)
      → Fixed v n
      → resolve_int platform v (pos 1) s ≡ ok m
      → m ≡ n
  unfolding resolve_int eval_value to_int
  Fixed-resolve_int v n m s (inl given) h = cc (rw given at h)
  Fixed-resolve_int v n m s (inr (left_out, default)) h = cc (rw left_out at h)

  abbrev Holds : ℤ → ℤ → ℕ → Option Any → Type 0
  Holds start step zero o = (o ≡ none) ⊎ (o ≡ some nil)
  Holds start step (suc k) o = o ≡ some (int (number start step (suc k)))

  current-number :
      (start step n : ℤ) (k : ℕ) (o : Option Any)
      → Holds start step k o
      → current platform o start ≡ ok n
      → n ≡ number start step k
  unfolding current to_int
  current-number start step n zero o (inl absent) h = cc (rw absent at h)
  current-number start step n zero o (inr unset) h = cc (rw unset at h)
  current-number start step n (suc k) o held h = cc (rw held at h)

  module _ (start step : ℤ) (target : state_field_name c.to ≡ some name)
      (starts : Fixed c.start start) (steps : Fixed c.step step) where
    before-number :
        (n : ℤ) (k : ℕ) (t : Scope)
        → Holds start step k (lookup name t.state)
        → counter_before platform c name t ≡ ok n
        → n ≡ number start step k
    before-number n k t held before = elim (Result-cases (resolve_int platform c.start (pos 1) t)) [
      | inr (e, failed) ↦ cc (rw failed at before)
      | inl (m, started) ↦
          let same = Fixed-resolve_int c.start start m t starts started in
          current-number start step n k (lookup name t.state) held (rw (started, same) at before)
    ]

    written :
        (k : ℕ) (t u : Scope) (name' : String) (by n : ℤ)
        → Holds start step k (lookup name t.state)
        → state_field_name c.to ≡ some name'
        → resolve_int platform c.step (pos 1) t ≡ ok by
        → counter_before platform c name' t ≡ ok n
        → u ≡ record t { state = insert name' (int (wrap64 (n +ℤ by))) t.state }
        → lookup name u.state ≡ some (int (number start step (suc k)))
    written k t u name' by n held target' stepped before left =
        let named : name' ≡ name = cc in
        let step_is = Fixed-resolve_int c.step step by t steps stepped in
        let before' : counter_before platform c name t ≡ ok n =
          ap (λ x. counter_before platform c x t) (sym named) ∙ before in
        let n_is = before-number n k t held before' in
        ap (λ (x : Scope). lookup name x.state) left
        ∙ rw (named, n_is, step_is, lookup-insert, eq_refl) refl

    Advances-Holds :
        (k : ℕ) (s u : Scope)
        → Holds start step 0 (lookup name s.state)
        → Advances k s u
        → Holds start step k (lookup name u.state)
    Advances-Holds zero s u unset begins = unset
    Advances-Holds (suc k) s u unset (counts_on t t' ran same went) =
        let held = subst (Holds start step k) (sym same) (Advances-Holds k s t unset ran) in
        let (name', by, n, target', stepped, before, left) =
          advance_counter-counts platform c t' u went in
        written k t' u name' by n held target' stepped before left

    -- A counter whose field is unset before the first page holds start + k * step behind the k-th, in
    -- the arithmetic of int64, where start and step are literals or left out, each for a default of 1;
    -- between the pages anything may happen but a write to the field.
    pub advance_counter-number :
        (k : ℕ) (s u : Scope)
        → (lookup name s.state ≡ none) ⊎ (lookup name s.state ≡ some nil)
        → Advances (suc k) s u
        → lookup name u.state ≡ some (int (number start step (suc k)))
    advance_counter-number k s u unset ran = Advances-Holds (suc k) s u unset ran

-- ===== src/Client/Exec/Twin.antt =====
-- Two runs of methods of the scope, from two scopes, that both return.
use skopos.Base.{◌≡◌, refl, sym, ap, subst, ◌∙◌, Result, ok, context-eq-ok, String}
use skopos.Client.Scope.{Scope}
use skopos.Client.Exec.{Exec, pure, reads, labelled, ◌>>=◌, Keeps, bind-eq-ok}

-- Where both return, the results are related by R.
pub record Twin {A : Type 0} (s s' : Scope) (R : A → A → Type 0) (m m' : Exec A) : Type 0 where
  pub at : (a a' : A) (t t' : Scope) → m s ≡ (ok a, t) → m' s' ≡ (ok a', t') → R a a'

-- The method leaves the scope as it was.
abbrev pub Still : {A : Type 0} → Scope → Exec A → Type 0
Still s m = Keeps (λ t. t ≡ s) m

abbrev pub Anything : {A : Type 0} → A → A → Type 0
Anything a a' = Unit

module _ {A : Type 0} (s s' : Scope) where
  pub Twin-reads :
      (R : A → A → Type 0) (f f' : Scope → Result A)
      → ((a a' : A) → f s ≡ ok a → f' s' ≡ ok a' → R a a')
      → Twin s s' R (reads f) (reads f')
  Twin-reads R f f' k = record {
    at = λ a a' t t' h h'.
        k a a' (ap (λ (p : Result A × Scope). p.0) h) (ap (λ (p : Result A × Scope). p.0) h');
  }

  pub Twin-pure : (R : A → A → Type 0) (a a' : A) → R a a' → Twin s s' R (pure a) (pure a')
  Twin-pure R a a' r =
      Twin-reads R (λ t. ok a) (λ t. ok a')
        λ b b' h h'.
          let e : a ≡ b = cc in
          let e' : a' ≡ b' = cc in subst (λ x. R b x) e' (subst (λ x. R x a') e r)

  pub Twin-labelled :
      (R : A → A → Type 0) (label : String) (m m' : Exec A)
      → Twin s s' R m m'
      → Twin s s' R (labelled label m) (labelled label m')
  Twin-labelled R label m m' k = record {
    at = λ a a' t t' h h'. k.at a a' t t' (unlabelled m s a t h) (unlabelled m' s' a' t' h');
  }
    where
      unlabelled :
          (n : Exec A) (u : Scope) (a : A) (t : Scope)
          → labelled label n u ≡ (ok a, t)
          → n u ≡ (ok a, t)
      unlabelled n u a t h =
          let returned : (n u).0 ≡ ok a =
            context-eq-ok label (n u).0 (ap (λ (p : Result A × Scope). p.0) h) in
          let left : (n u).1 ≡ t = ap (λ (p : Result A × Scope). p.1) h in cc

module _ {A B : Type 0} (s s' : Scope) where
  ran :
      (m : Exec A) (f : A → Exec B) (u v : Scope) (b : B)
      → Still u m
      → (m >>= f) u ≡ (ok b, v)
      → (a : A) × (m u ≡ (ok a, u)) × (f a u ≡ (ok b, v))
  ran m f u v b still h =
      let (a, t, got, rest) = bind-eq-ok m f u v b h in
      let e : t ≡ u = sym (ap (λ (p : Result A × Scope). p.1) got) ∙ still.at u refl in
      (a, subst (λ x. m u ≡ (ok a, x)) e got, subst (λ x. f a x ≡ (ok b, v)) e rest)

  pub Twin-bind :
      (R : A → A → Type 0) (Q : B → B → Type 0) (m m' : Exec A) (f f' : A → Exec B)
      → Still s m
      → Still s' m'
      → Twin s s' R m m'
      → ((a a' : A) → R a a' → Twin s s' Q (f a) (f' a'))
      → Twin s s' Q (m >>= f) (m' >>= f')
  Twin-bind R Q m m' f f' still still' twin k = record {
    at = λ b b' v v' h h'.
        let (a, got, rest) = ran m f s v b still h in
        let (a', got', rest') = ran m' f' s' v' b' still' h' in
        (k a a' (twin.at a a' s s' got got')).at b b' v v' rest rest';
  }

  -- Whatever the first method gives.
  pub Twin-after :
      (Q : B → B → Type 0) (m m' : Exec A) (f f' : A → Exec B)
      → Still s m
      → Still s' m'
      → ((a a' : A) → Twin s s' Q (f a) (f' a'))
      → Twin s s' Q (m >>= f) (m' >>= f')
  Twin-after Q m m' f f' still still' k =
      Twin-bind Anything Q m m' f f' still still' (record { at = λ a a' t t' h h'. tt })
        (λ a a' any. k a a')

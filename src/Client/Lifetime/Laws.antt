-- ===== src/Client/Lifetime/Laws.antt =====
-- What a drain saves, what it resets, and what the next drain finds.
use skopos.Base.{
  String, ◌≡◌, ◌≢◌, refl, ap, subst, All, ◌∙◌, inl, inr, ◌⊎◌, Bool, true, false, not, ◌&&◌, List,
  [], ◌∷◌, Option, none, some, ℤ, Dict, lookup, insert, remove, copy_into, contains, ◌==◌,
  if◌then◌else◌, Result, ok, >>=-eq-ok, arith, eq_iff, eq_refl, lookup-insert, lookup-remove,
  Bool-cases, Option-cases, Result-cases,
}
use skopos.Any.{Any}
use skopos.Schema.Doc.{Doc, FieldDecl}
use skopos.Client.Platform.{Platform}
use skopos.Client.Scope.{Scope}
use skopos.Client.Lifetime.{
  per_drain_scratch_fields, keep_found, saved_fields, snapshot, default_of, new_scope, reset_field,
  reset_fields, reset_per_drain_scratch,
}

abbrev pub is_some {ℓ} : {A : Type ℓ} → Option A → Bool
is_some none = false
is_some (some a) = true

-- The saved value of a field, as a function of its declaration.
abbrev pub saved_value : Bool → Option FieldDecl → Option Any → Option Any
saved_value scratch decl v = if is_some decl && not scratch then v else none

lookup-saved_fields :
    (scratch : List String) (decls : Dict FieldDecl) (state : Dict Any) (name : String)
    → lookup name (saved_fields scratch decls state)
      ≡ saved_value (contains name scratch) (lookup name decls) (lookup name state)
unfolding lookup saved_fields
lookup-saved_fields scratch [] state name = refl
lookup-saved_fields scratch ((n, fd) ∷ decls) state name =
    ground (arith, lookup-saved_fields scratch decls state name, eq_iff n name)

-- A snapshot holds the value of a field exactly if the document declares the field and no pagination
-- write targets it; of every other name it holds nothing.
pub lookup-snapshot :
    (doc : Doc) (s : Scope) (name : String)
    → lookup name (snapshot doc s) ≡ (
        if is_some (lookup name doc.state) && not (contains name (per_drain_scratch_fields doc))
        then lookup name s.state
        else none)
unfolding snapshot
lookup-snapshot doc s name =
    lookup-saved_fields (per_drain_scratch_fields doc) doc.state s.state name

-- Entries that all hold what `state` holds at their keys.
abbrev Within : Dict Any → Dict Any → Type 0
Within state = All (λ p. lookup p.0 state ≡ some p.1)

keep_found-Within :
    (n : String) (b : Bool) (found : Option Any) (state : Dict Any)
    → lookup n state ≡ found
    → (out : Dict Any) → Within state out
    → Within state (keep_found n b found out)
keep_found-Within n true found state e out h = h
keep_found-Within n false none state e out h = h
keep_found-Within n false (some v) state e out h = (e, h)

saved_fields-Within :
    (scratch : List String) (decls : Dict FieldDecl) (state : Dict Any)
    → Within state (saved_fields scratch decls state)
unfolding saved_fields
saved_fields-Within scratch [] state = tt
saved_fields-Within scratch ((n, fd) ∷ decls) state =
    keep_found-Within n (contains n scratch) (lookup n state) state refl
      (saved_fields scratch decls state) (saved_fields-Within scratch decls state)

lookup-copy_into :
    (src dst state : Dict Any) (name : String)
    → Within state src
    → lookup name (copy_into dst src)
      ≡ (if is_some (lookup name src) then lookup name state else lookup name dst)
unfolding lookup copy_into
lookup-copy_into [] dst state name h = refl
lookup-copy_into ((k, v) ∷ src) dst state name (h, hs) = ground (
  arith,
  lookup-copy_into src (insert k v dst) state name hs,
  lookup-insert k name v dst,
  eq_iff k name,
)

snapshot-Within : (doc : Doc) (s : Scope) → Within s.state (snapshot doc s)
unfolding snapshot
snapshot-Within doc s = saved_fields-Within (per_drain_scratch_fields doc) doc.state s.state

-- A value in a declared field that is no pagination target is the value that a scope made from the
-- snapshot has there, whatever the field's default is, where that scope can be made.
pub new_scope-snapshot :
    (platform : Platform) (doc : Doc) (s s' : Scope) (now : ℤ) (name : String) (v : Any)
    → is_some (lookup name doc.state) ≡ true
    → contains name (per_drain_scratch_fields doc) ≡ false
    → lookup name s.state ≡ some v
    → new_scope platform doc (snapshot doc s) now ≡ ok s'
    → lookup name s'.state ≡ some v
unfolding new_scope
new_scope-snapshot platform doc s s' now name v declared kept found made =
    let (s₀, seeded, same) =
      >>=-eq-ok {A = Scope} _
        (λ (t : Scope). ok (record t { state = copy_into t.state (snapshot doc s) })) made in
    let state : copy_into s₀.state (snapshot doc s) ≡ s'.state = cc in
    rw (← state) (
      rw (lookup-copy_into (snapshot doc s) s₀.state s.state name (snapshot-Within doc s))
        (rw (lookup-snapshot doc s name) (rw (declared, kept, found) refl)))

-- What a scratch field reads after its reset: nothing where it has no default.
abbrev Cleared : Dict FieldDecl → String → Scope → Type 0
Cleared decls name s = default_of (lookup name decls) ≡ none → lookup name s.state ≡ none

module _ (platform : Platform) (decls : Dict FieldDecl) where
  -- A reset is a write or a removal of its own field.
  reset_field-state :
      (n : String) (s s' : Scope)
      → reset_field platform decls n s ≡ ok s'
      → ((default_of (lookup n decls) ≡ none) × (s' ≡ record s { state = remove n s.state }))
        ⊎ ((v : Any) × (default_of (lookup n decls) ≢ none)
            × (s' ≡ record s { state = insert n v s.state }))
  unfolding reset_field
  reset_field-state n s s' h = elim (Option-cases (default_of (lookup n decls))) [
    | inl e ↦ inl (e, cc (rw (e, reset_field) at h))
    | inr (d, e) ↦
        let (v, evaluated, same) =
          >>=-eq-ok {A = Any} _ (λ (v : Any). ok (record s { state = insert n v s.state }))
            (rw (e, reset_field) at h) in
        inr (v, cc, cc)
  ]

  reset_field-other :
      (n : String) (s s' : Scope) (name : String)
      → reset_field platform decls n s ≡ ok s'
      → (n == name) ≡ false
      → lookup name s'.state ≡ lookup name s.state
  reset_field-other n s s' name h other = elim (reset_field-state n s s' h) [
    | inl (e, same) ↦ rw same (rw (lookup-remove n name s.state) (rw other))
    | inr (v, e, same) ↦ rw same (rw (lookup-insert n name v s.state) (rw other))
  ]

  reset_field-Cleared :
      (n : String) (s s' : Scope) → reset_field platform decls n s ≡ ok s' → Cleared decls n s'
  reset_field-Cleared n s s' h none_left = elim (reset_field-state n s s' h) [
    | inl (e, same) ↦ rw same (rw (lookup-remove n n s.state) (rw (eq_refl n)))
    | inr (v, e, same) ↦ absurd (e none_left)
  ]

  reset_fields-cons :
      (n : String) (ns : List String) (s s' : Scope)
      → reset_fields platform decls (n ∷ ns) s ≡ (ok tt, s')
      → (s₁ : Scope) × (reset_field platform decls n s ≡ ok s₁)
        × (reset_fields platform decls ns s₁ ≡ (ok tt, s'))
  unfolding reset_fields
  reset_fields-cons n ns s s' h = elim (Result-cases (reset_field platform decls n s)) [
    | inl (s₁, e) ↦ (s₁, e, rw (e, reset_fields) at h)
    | inr (x, e) ↦ cc (rw (e, reset_fields) at h)
  ]

  reset_field-Cleared_kept :
      (n : String) (s s' : Scope) (name : String)
      → reset_field platform decls n s ≡ ok s'
      → Cleared decls name s
      → Cleared decls name s'
  reset_field-Cleared_kept n s s' name h c = elim (Bool-cases (n == name)) [
    | inl same ↦
        subst (λ k. Cleared decls k s') ((eq_iff n name).0 same) (reset_field-Cleared n s s' h)
    | inr other ↦ λ d. reset_field-other n s s' name h other ∙ c d
  ]

  -- A cleared field stays cleared under the resets that follow.
  reset_fields-Cleared_kept :
      (names : List String) (s s' : Scope) (name : String)
      → reset_fields platform decls names s ≡ (ok tt, s')
      → Cleared decls name s
      → Cleared decls name s'
  unfolding reset_fields
  reset_fields-Cleared_kept [] s s' name h c =
      let same : s ≡ s' = ap (λ (r : Result (Unit {0}) × Scope). r.1) h in
      subst (λ t. Cleared decls name t) same c
  reset_fields-Cleared_kept (n ∷ ns) s s' name h c =
      let (s₁, one, rest) = reset_fields-cons n ns s s' h in
      reset_fields-Cleared_kept ns s₁ s' name rest (reset_field-Cleared_kept n s s₁ name one c)

  reset_fields-lookup :
      (names : List String) (s s' : Scope) (name : String)
      → reset_fields platform decls names s ≡ (ok tt, s')
      → (contains name names ≡ false → lookup name s'.state ≡ lookup name s.state)
        × (contains name names ≡ true → Cleared decls name s')
  unfolding reset_fields
  reset_fields-lookup [] s s' name h = (λ out. cc h, λ found. cc)
  reset_fields-lookup (n ∷ ns) s s' name h =
      let (s₁, one, rest) = reset_fields-cons n ns s s' h in
      let (untouched, cleared) = reset_fields-lookup ns s₁ s' name rest in
      elim (Bool-cases (n == name)) [
        | inl same ↦
            let here : Cleared decls name s₁ =
              subst (λ k. Cleared decls k s₁) ((eq_iff n name).0 same)
                (reset_field-Cleared n s s₁ one) in
            rw same ((λ out. cc), λ found. reset_fields-Cleared_kept ns s₁ s' name rest here)
        | inr other ↦
            rw other (λ out. untouched out ∙ reset_field-other n s s₁ name one other, cleared)
      ]

-- The wipe at the start of a drain, where it succeeds, leaves the value of every field alone that is no
-- pagination target.
pub reset_per_drain_scratch-kept :
    (platform : Platform) (doc : Doc) (s s' : Scope) (name : String)
    → reset_per_drain_scratch platform doc s ≡ (ok tt, s')
    → contains name (per_drain_scratch_fields doc) ≡ false
    → lookup name s'.state ≡ lookup name s.state
unfolding reset_per_drain_scratch
reset_per_drain_scratch-kept platform doc s s' name h kept =
    (reset_fields-lookup platform doc.state (per_drain_scratch_fields doc) s s' name h).0 kept

-- The wipe at the start of a drain, where it succeeds, leaves no value in a pagination target that has
-- no default.
pub reset_per_drain_scratch-cleared :
    (platform : Platform) (doc : Doc) (s s' : Scope) (name : String)
    → reset_per_drain_scratch platform doc s ≡ (ok tt, s')
    → contains name (per_drain_scratch_fields doc) ≡ true
    → default_of (lookup name doc.state) ≡ none
    → lookup name s'.state ≡ none
unfolding reset_per_drain_scratch
reset_per_drain_scratch-cleared platform doc s s' name h scratch bare =
    (reset_fields-lookup platform doc.state (per_drain_scratch_fields doc) s s' name h).1 scratch
      bare

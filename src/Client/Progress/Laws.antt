-- ===== src/Client/Progress/Laws.antt =====
-- Progress writes are simultaneous: every entry is evaluated against the scope before any of them.
use skopos.Base.{
  String, ◌≡◌, ◌≢◌, refl, sym, ap, subst, ◌∙◌, inl, inr, All, Bool, false, List, [], ◌∷◌, Option,
  none, some, lookup, insert, ◌==◌, if◌then◌else◌, Result, ok, err, Error, ◌>>=◌, >>=-eq-ok,
  Result-cases, arith, lookup-insert, Option-cases,
}
use skopos.Any.{Any}
use skopos.Schema.Doc.{Write}
use skopos.Client.Platform.{Platform}
use skopos.Client.Scope.{Scope}
use skopos.Client.Lifetime.{state_field_name}
use skopos.Client.Progress.{stage_write, stage_writes, commit_writes, apply_progress}

abbrev targets : Write → String → Bool
targets w name = elim (state_field_name w.to) [ none ↦ false | some n ↦ n == name ]

abbrev value_or : Option Any → Result Any → Option Any
value_or old (ok v) = some v
value_or old (err e) = old

-- What `name` holds after the writes: the value of the last entry that targets it, read in `s`.
abbrev pub written : Platform → Scope → List Write → String → Option Any → Option Any
written platform s [] name old = old
written platform s (w ∷ ws) name old =
    written platform s ws name
      (if targets w name then value_or old (stage_write platform s w) else old)

-- A write can be committed if its destination is a state field.
abbrev pub HasTarget : Write → Type 0
HasTarget w = state_field_name w.to ≢ none

module _ (platform : Platform) where
  stage_writes-cons :
      (w : Write) (ws : List Write) (s : Scope) (vs : List Any)
      → stage_writes platform s (w ∷ ws) ≡ ok vs
      → (v : Any) × (rest : List Any) × (stage_write platform s w ≡ ok v)
        × (stage_writes platform s ws ≡ ok rest)
        × (v ∷ rest ≡ vs)
  unfolding stage_writes
  stage_writes-cons w ws s vs h =
      let (v, one, more) =
        >>=-eq-ok {A = Any} _
          (λ (v : Any). stage_writes platform s ws >>= λ (r : List Any). ok (v ∷ r)) h in
      let (rest, others, same) = >>=-eq-ok {A = List Any} _ (λ (r : List Any). ok (v ∷ r)) more in
      (v, rest, one, others, cc)

  lookup-insert_target :
      (w : Write) (s t : Scope) (n : String) (v : Any) (name : String)
      → state_field_name w.to ≡ some n
      → stage_write platform s w ≡ ok v
      → lookup name (insert n v t.state) ≡ (
          if targets w name
          then value_or (lookup name t.state) (stage_write platform s w)
          else lookup name t.state)
  lookup-insert_target w s t n v name good one = ground (arith, lookup-insert n name v t.state)

  -- The commit of values that were staged in `s`, from a later scope `t`.
  commit_writes-lookup :
      (ws : List Write) (vs : List Any) (s t t' : Scope) (name : String)
      → stage_writes platform s ws ≡ ok vs
      → commit_writes ws vs t ≡ (ok tt, t')
      → (lookup name t'.state ≡ written platform s ws name (lookup name t.state))
        × (t' ≡ record t { state = t'.state })
  unfolding commit_writes stage_writes
  commit_writes-lookup [] [] s t t' name staged done = (cc, cc)
  commit_writes-lookup [] (v ∷ vs) s t t' name staged done = cc
  commit_writes-lookup (w ∷ ws) vs s t t' name staged done =
      let (v, rest, one, others, split) = stage_writes-cons w ws s vs staged in
      let done' = subst (λ l. commit_writes (w ∷ ws) l t ≡ (ok tt, t')) (sym split) done in
      elim (Option-cases (state_field_name w.to)) [
        | inl bad ↦ cc (rw (bad, commit_writes) at done')
        | inr (n, good) ↦
            let (found, frame) =
              commit_writes-lookup ws rest s (record t { state = insert n v t.state }) t' name
                others (rw (good, commit_writes) at done') in
            (
              found
                  ∙ ap (written platform s ws name) (lookup-insert_target w s t n v name good one),
              frame,
            )
      ]

  commit_writes_total :
      (ws : List Write) (vs : List Any) (t : Scope)
      → All HasTarget ws
      → (commit_writes ws vs t).0 ≡ ok tt
  unfolding commit_writes
  commit_writes_total [] [] t h = refl
  commit_writes_total [] (v ∷ vs) t h = refl
  commit_writes_total (w ∷ ws) [] t h = refl
  commit_writes_total (w ∷ ws) (v ∷ vs) t (h, hs) = elim (Option-cases (state_field_name w.to)) [
    | inl bad ↦ absurd (h bad)
    | inr (n, good) ↦
        rw (good, commit_writes)
          (commit_writes_total ws vs (record t { state = insert n v t.state }) hs)
  ]

  -- After a block of writes that succeeds, a field holds what the last entry for it evaluates to in
  -- the scope from before all the writes, or what it held where no entry targets it, and nothing
  -- beside the state has changed.
  pub apply_progress-lookup :
      (ws : List Write) (s s' : Scope) (name : String)
      → apply_progress platform ws s ≡ (ok tt, s')
      → (lookup name s'.state ≡ written platform s ws name (lookup name s.state))
        × (s' ≡ record s { state = s'.state })
  unfolding apply_progress
  apply_progress-lookup ws s s' name h = elim (Result-cases (stage_writes platform s ws)) [
    | inl (vs, staged) ↦
        let done = rw (staged, apply_progress) at h in
        commit_writes-lookup ws vs s s s' name staged done
    | inr (e, failed) ↦ cc (rw (failed, apply_progress) at h)
  ]

  -- Where every destination is a state field, a failing block of writes has written nothing.
  pub apply_progress_atomic :
      (ws : List Write) (s s' : Scope) (e : Error)
      → All HasTarget ws
      → apply_progress platform ws s ≡ (err e, s')
      → s' ≡ s
  unfolding apply_progress
  apply_progress_atomic ws s s' e h fails = elim (Result-cases (stage_writes platform s ws)) [
    | inl (vs, staged) ↦
        let done = rw (staged, apply_progress) at fails in cc (done, commit_writes_total ws vs s h)
    | inr (x, failed) ↦ cc (rw (failed, apply_progress) at fails)
  ]

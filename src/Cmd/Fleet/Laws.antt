-- ===== src/Cmd/Fleet/Laws.antt =====
-- No two entries of a fleet share a state file or an input; and how often a driver drains.
use skopos.Base.{
  ℕ, zero, suc, ◌+◌, ◌≢◌, ◌⊎◌, false, ◌≤◌, ◌<◌, String, ◌≡◌, refl, subst, eq_refl, ap, inl, inr,
  true, false, ◌&&◌, ◌||◌, List, [], ◌∷◌, length, some, contains, if◌then◌else◌, ok, >>=-eq-ok,
  arith, Bool-cases, eq_iff,
}
use skopos.Cmd.Fleet.{
  RunEntry, Config, resolve_entries, resolve_fleet_entries, nonempty_list, has_failed,
  require_input, state_of, unseen, inherit, Counters, Outlook, one_shot, drive_fleet_run,
}

abbrev pub states_of : List RunEntry → List String
states_of [] = []
states_of (e ∷ es) = e.state ∷ states_of es

abbrev pub inputs_of : List RunEntry → List String
inputs_of [] = []
inputs_of (e ∷ es) = e.input ∷ inputs_of es

-- No string occurs twice.
abbrev pub Distinct : List String → Type 0
Distinct [] = Unit
Distinct (x ∷ xs) = (contains x xs ≡ false) × Distinct xs

-- No string of `seen` occurs.
abbrev Avoids : List String → List String → Type 0
Avoids seen xs = (k : String) → contains k seen ≡ true → contains k xs ≡ false

Avoids-cons :
    (x : String) (seen xs : List String)
    → contains x seen ≡ false
    → Avoids (x ∷ seen) xs
    → Avoids seen (x ∷ xs)
Avoids-cons x seen xs new a k h = ground (arith, a k, eq_iff x k)

head_seen : (x : String) (seen : List String) → contains x (x ∷ seen) ≡ true
head_seen x seen = rw (eq_refl x) refl

seen_before :
    (label name : String) (seen : List String) (u : Unit {0})
    → unseen label name seen ≡ ok u
    → contains name seen ≡ false
seen_before label name seen u h = elim (Bool-cases (contains name seen)) [
  | inl twice ↦ cc (rw twice at h)
  | inr new ↦ new
]

module _ (base ext : String → String) (trim_suffix join : String → String → String)
    (cfg : Config) where
  -- What the entries behind some seen ones are.
  abbrev Apart : List String → List String → List RunEntry → List RunEntry → Type 0
  Apart states inputs rs es =
      (Avoids states (states_of es) × Distinct (states_of es))
      × (Avoids inputs (inputs_of es) × Distinct (inputs_of es))
      × (length es ≡ length rs)

  entries-Apart :
      (states inputs : List String) (rs es : List RunEntry)
      → resolve_entries base ext trim_suffix join cfg states inputs rs ≡ ok es
      → Apart states inputs rs es
  unfolding resolve_entries
  entries-Apart states inputs [] [] h = ((λ k m. refl, tt), (λ k m. refl, tt), refl)
  entries-Apart states inputs [] (e ∷ es) h = cc
  entries-Apart states inputs (r ∷ rs) es h =
      let (u₁, checked, h₁) = >>=-eq-ok (require_input r) _ h in
      let (state, st, h₂) = >>=-eq-ok (state_of base ext trim_suffix join cfg r) _ h₁ in
      let (u₂, new_state, h₃) = >>=-eq-ok (unseen "state files must be unique" state states) _ h₂ in
      let (u₃, new_input, h₄) = >>=-eq-ok (unseen "both reference one input" r.input inputs) _ h₃ in
      let (more, rest, h₅) =
        >>=-eq-ok
          (resolve_entries base ext trim_suffix join cfg (state ∷ states) (r.input ∷ inputs) rs) _
          h₄ in
      let e : (inherit cfg r state ∷ more) ≡ es = cc in
      let ((avoid_s, apart_s), (avoid_i, apart_i), long) =
        entries-Apart (state ∷ states) (r.input ∷ inputs) rs more rest in
      let new_s = seen_before _ state states u₂ new_state in
      let new_i = seen_before _ r.input inputs u₃ new_input in
      subst (Apart states inputs (r ∷ rs)) e (
        (
          Avoids-cons state states (states_of more) new_s avoid_s,
          (avoid_s state (head_seen state states), apart_s),
        ),
        (
          Avoids-cons r.input inputs (inputs_of more) new_i avoid_i,
          (avoid_i r.input (head_seen r.input inputs), apart_i),
        ),
        ap suc long,
      )

  -- The entries that a fleet runs are one for each in the configuration, at least one, and no two of
  -- them have the same state file or the same input.
  pub resolve_fleet_entries-Distinct :
      (es : List RunEntry)
      → resolve_fleet_entries base ext trim_suffix join cfg ≡ ok es
      → Distinct (states_of es)
        × Distinct (inputs_of es)
        × (length es ≡ length cfg.runs)
        × (0 < length es)
  unfolding resolve_fleet_entries
  resolve_fleet_entries-Distinct es h =
      let (out, got, kept) =
        >>=-eq-ok (resolve_entries base ext trim_suffix join cfg [] [] cfg.runs) nonempty_list h in
      let (same, some_entry) = not_empty out es kept in
      let ((a, states), (b, inputs), long) = entries-Apart [] [] cfg.runs out got in
      subst
        (λ x.
          Distinct (states_of x)
          × Distinct (inputs_of x)
          × (length x ≡ length cfg.runs)
          × (0 < length x))
        same (states, inputs, long, some_entry)
    where
      not_empty :
          (out es : List RunEntry) → nonempty_list out ≡ ok es → (out ≡ es) × (0 < length out)
      not_empty [] es k = cc
      not_empty (e ∷ out) es k = (cc, omega arith)

module _ (o : Outlook) (entry : RunEntry) where
  -- The counters behind one drain.
  abbrev counted : Counters → Counters
  counted c =
      let begun : Counters = record c { drains = suc c.drains } in
      if has_failed (o.drain c.drains) then record begun { errors = suc c.errors } else begun

  counted_fewer : (c : Counters) → c.errors ≤ c.drains → (counted c).errors ≤ (counted c).drains
  counted_fewer c few = elim (Bool-cases (has_failed (o.drain c.drains))) [
    | inl failed ↦ rw failed (omega (arith, few))
    | inr passed ↦ rw passed (omega (arith, few))
  ]

  counted-drains : (c : Counters) → (counted c).drains ≡ suc c.drains
  counted-drains c = elim (Bool-cases (has_failed (o.drain c.drains))) [
    | inl failed ↦ rw failed refl
    | inr passed ↦ rw passed refl
  ]

  -- A driver whose context is done at the look behind its `last`-th drain, counted from 0, returns
  -- where the fuel allows for the drains up to that one: it has drained at least once and at most
  -- that often, counts no more errors than drains, and with `once`, or without an interval, it has
  -- drained exactly once.
  pub drive_fleet_run_total :
      (fuel last : ℕ) (c : Counters)
      → c.errors ≤ c.drains
      → c.drains ≤ last
      → last < fuel + c.drains
      → o.done_after last ≡ true
      → (c' : Counters) × (drive_fleet_run o entry fuel c ≡ some c')
        × (c.drains < c'.drains)
        × (c'.drains ≤ suc last)
        × (c'.errors ≤ c'.drains)
        × ((one_shot o entry ≡ false) ⊎ (c'.drains ≡ suc c.drains))
  unfolding drive_fleet_run
  drive_fleet_run_total zero last c few below enough over = absurd (omega arith)
  drive_fleet_run_total (suc fuel) last c few below enough over =
      elim (Bool-cases (has_failed (o.drain c.drains) && o.done_at_error c.drains)) [
        | inl stopped ↦ (
          record c { drains = suc c.drains },
          rw stopped refl,
          omega arith,
          omega arith,
          omega (arith, few),
          inr refl,
        )
        | inr running ↦
            elim (Bool-cases
              (o.done_after c.drains || one_shot o entry || o.done_in_select c.drains)) [
                | inl stops ↦
                    let e = counted-drains c in
                    (
                      counted c,
                      rw (running, stops) refl,
                      omega (arith, e),
                      omega (arith, e),
                      counted_fewer c few,
                      inr e,
                    )
                | inr more ↦
                    let e = counted-drains c in
                    let later : (o.done_after c.drains ≡ false) × (one_shot o entry ≡ false) =
                      ground arith in
                    let differs : c.drains ≢ last = λ same. cc (ap o.done_after same) in
                    let (c', ends, grown, bound, fewer, single) =
                      drive_fleet_run_total fuel last (counted c) (counted_fewer c few)
                        (omega (arith, e, differs)) (omega (arith, e)) over in
                    (
                      c',
                      rw (running, more) ends,
                      omega (arith, e, grown),
                      bound,
                      fewer,
                      inl later.1,
                    )
              ]
      ]

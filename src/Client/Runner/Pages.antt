-- ===== src/Client/Runner/Pages.antt =====
-- What a loop over pages hands to the sink, and the state that it ends with.
use mathlib.Core.List.{append-nil, append_assoc}
use skopos.Base.{
  ℕ, zero, suc, ◌≡◌, ◌≢◌, ◌⊎◌, refl, sym, ap, subst, ◌∙◌, ◌++◌, inl, inr, List, [], Option, some,
  Result, ok, err, Error, Option-cases, Result-cases, Bool-cases,
}
use skopos.Any.{Any}
use skopos.Schema.Doc.{Doc}
use skopos.Client.Platform.{Platform}
use skopos.Client.Pagination.{Plan}
use skopos.Client.Dispatch.{Environment}
use skopos.Client.Request.{check_ctx}
use skopos.Client.Iteration.{IterationResult, run_iteration}
use skopos.Client.Runner.{
  Drain, Pass, again, returned, out_of_fuel, at_cap, events_of, bind_page, fresh_page, run_page,
  pass, drain_loop,
}
use skopos.Client.Runner.Laws.{Pass-cases}
use skopos.Client.Runner.Delivery.{settle_page-delivered}

abbrev result_events : Result IterationResult → List Any
result_events (ok out) = events_of out
result_events (err e) = []

module _ (platform : Platform) (env : Environment) (doc : Doc) (fuel : ℕ) (plan : Plan) where
  -- The drain behind the look at the context that every page begins with.
  abbrev checked : Drain → Drain
  checked d = record d { scope = (check_ctx env d.scope).1 }

  -- The events that the requests of a page produce.
  abbrev page_events : Drain → List Any
  page_events d = result_events (run_iteration platform env doc fuel (fresh_page d.scope)).0

  -- Pages that each go on to another one, and their events in order.
  pub data Ran : Drain → List Any → Drain → Type 0 where
    no_page : {d : Drain} → Ran d [] d
    page :
        {d e : Drain} {evs : List Any}
        → (run_page platform env doc fuel plan (checked d)).0 ≡ again
        → Ran (run_page platform env doc fuel plan (checked d)).1 evs e
        → Ran d (page_events (checked d) ++ evs) e

  -- A page hands all its events over, or ends the drain with an error in the scope that it was read into.
  abbrev pub PageEnds : Drain → Pass × Drain → Type 0
  PageEnds d after =
      (after.1.delivered ≡ d.delivered ++ page_events d)
      ⊎ ((x : Error) × (out : IterationResult) × ((run_iteration platform env doc fuel
              (fresh_page d.scope)).0
            ≡ ok out)
          × (after.0 ≡ returned (some x))
          × (after.1.scope
              ≡ bind_page out (run_iteration platform env doc fuel (fresh_page d.scope)).1))

  run_page-ends : (d : Drain) → PageEnds d (run_page platform env doc fuel plan d)
  unfolding run_page
  run_page-ends d =
      let iter = run_iteration platform env doc fuel (fresh_page d.scope) in
      let d' : Drain = record d { scope = iter.1; pages = suc d.pages } in
      elim (Result-cases iter.0) [
        | inr (e, failed) ↦ rw (failed, run_page) (inl (sym (append-nil d.delivered)))
        | inl (out, got) ↦ elim (settle_page-delivered platform env doc plan out d') [
          | inl all ↦ rw (got, run_page) (inl all)
          | inr (x, ends, left) ↦ rw (got, run_page) (inr (x, out, refl, ends, left))
        ]
      ]

  -- A pass stops at its checks, or runs a page.
  pass-checked :
      (cap : Option ℕ) (d : Drain)
      → ((pass platform env doc fuel cap plan d).1 ≡ checked d)
          × ((pass platform env doc fuel cap plan d).0 ≢ again)
        ⊎ (pass platform env doc fuel cap plan d ≡ run_page platform env doc fuel plan (checked d))
  unfolding pass check_ctx
  pass-checked cap d = elim (Option-cases (env.ctx_err d.scope.checks)) [
    | inr (e, over) ↦ rw (over, pass) (inl (refl, λ h. cc))
    | inl live ↦ elim (Bool-cases (at_cap cap d.pages)) [
      | inl full ↦ rw (live, full, pass) (inl (refl, λ h. cc))
      | inr room ↦ rw (live, room, pass) (inr refl)
    ]
  ]

  -- How a loop ends that no further page of goes on: before it begins one, or in one.
  abbrev pub LastPage : Drain → Pass × Drain → Type 0
  LastPage e after =
      (after.1 ≡ e)
      ⊎ (after.1 ≡ checked e)
      ⊎ ((after ≡ run_page platform env doc fuel plan (checked e)) × PageEnds (checked e) after)

  abbrev Delivers : Drain → Pass × Drain → Type 0
  Delivers d after =
      (evs : List Any) × (e : Drain) × Ran d evs e
      × (e.delivered ≡ d.delivered ++ evs)
      × LastPage e after

  stops_at :
      (cap : Option ℕ) (d : Drain) (p : Pass)
      → (pass platform env doc fuel cap plan d).0 ≡ p
      → Delivers d (p, (pass platform env doc fuel cap plan d).1)
  stops_at cap d p ends =
      let same : (pass platform env doc fuel cap plan d)
          ≡ (p, (pass platform env doc fuel cap plan d).1) =
        ap (λ q. (q, (pass platform env doc fuel cap plan d).1)) ends in
      elim (pass-checked cap d) [
        | inl (stopped, other) ↦ ([], d, no_page, sym (append-nil d.delivered), inr (inl stopped))
        | inr paged ↦
            let ran = sym same ∙ paged in
            (
              [],
              d,
              no_page,
              sym (append-nil d.delivered),
              inr (inr (ran, subst (PageEnds (checked d)) (sym ran) (run_page-ends (checked d)))),
            )
      ]

  goes_on :
      (cap : Option ℕ) (d : Drain)
      → (pass platform env doc fuel cap plan d).0 ≡ again
      → ((run_page platform env doc fuel plan (checked d)).0 ≡ again)
        × ((pass platform env doc fuel cap plan d).1
            ≡ (run_page platform env doc fuel plan (checked d)).1)
        × ((run_page platform env doc fuel plan (checked d)).1.delivered
            ≡ d.delivered ++ page_events (checked d))
  goes_on cap d more = elim (pass-checked cap d) [
    | inl (stopped, other) ↦ absurd (other more)
    | inr paged ↦
        let here : (run_page platform env doc fuel plan (checked d)).0 ≡ again =
          ap (λ (q : Pass × Drain). q.0) (sym paged) ∙ more in
        let next = ap (λ (q : Pass × Drain). q.1) paged in
        elim (run_page-ends (checked d)) [
          | inl all ↦ (here, next, all)
          | inr (x, out, got, ends, left) ↦ cc
        ]
  ]

  one_more :
      (d d₁ : Drain) (after : Pass × Drain)
      → (run_page platform env doc fuel plan (checked d)).0 ≡ again
      → d₁ ≡ (run_page platform env doc fuel plan (checked d)).1
      → (run_page platform env doc fuel plan (checked d)).1.delivered
        ≡ d.delivered ++ page_events (checked d)
      → Delivers d₁ after
      → Delivers d after
  one_more d d₁ after more next all (evs, e, ran, sent, last) = (
    page_events (checked d) ++ evs,
    e,
    page more (subst (λ x. Ran x evs e) next ran),
    sent
        ∙ ap (λ (x : Drain). x.delivered ++ evs) next
        ∙ ap (λ l. l ++ evs) all
        ∙ append_assoc d.delivered (page_events (checked d)) evs,
    last,
  )

  -- However a loop over pages ends, there are pages that went on, each behind the other, of which all
  -- events have gone to the sink, in order; the drain is left as they left it, or as the
  -- look at the context did behind them, or by one last page. That has handed all its events over too,
  -- or has ended the drain with an error, and then it has written no progress and not advanced: its scope
  -- is the one that its requests left, with the page bound.
  pub drain_loop-delivered :
      (rounds : ℕ) (cap : Option ℕ) (d : Drain)
      → let after = drain_loop platform env doc rounds fuel cap plan d in
        ((evs : List Any) × (e : Drain) × Ran d evs e
          × (e.delivered ≡ d.delivered ++ evs)
          × LastPage e after)
  unfolding drain_loop
  drain_loop-delivered zero cap d = ([], d, no_page, sym (append-nil d.delivered), inl refl)
  drain_loop-delivered (suc rounds) cap d =
      let next = (pass platform env doc fuel cap plan d).1 in
      elim (Pass-cases (pass platform env doc fuel cap plan d).0) [
        | inr (inl (x, ends)) ↦ rw (ends, drain_loop) (stops_at cap d (returned x) ends)
        | inr (inr ends) ↦ rw (ends, drain_loop) (stops_at cap d out_of_fuel ends)
        | inl more ↦
            let (here, same, all) = goes_on cap d more in
            rw (more, drain_loop)
              (one_more d next (drain_loop platform env doc rounds fuel cap plan next) here same all
                (drain_loop-delivered rounds cap next))
      ]

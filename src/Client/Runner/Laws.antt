-- ===== src/Client/Runner/Laws.antt =====
-- A drain ends, within its cap of pages.
use skopos.Base.{
  ℕ, zero, suc, ◌+◌, ◌≤◌, ◌<◌, ◌≡◌, ◌≢◌, refl, ◌⊎◌, inl, inr, Bool, true, false, [], Option, none,
  some, ok, Error, arith, leb, Bool-cases, Option-cases, Result-cases, context, ℤ,
}
use skopos.Schema.Doc.{Doc, Request}
use skopos.Client.Platform.{Platform}
use skopos.Client.Scope.{Scope}
use skopos.Client.Lifetime.{reset_per_drain_scratch, new_scope}
use skopos.Client.Pagination.{Plan, make_pagination_plan}
use skopos.Client.Dispatch.{Environment}
use skopos.Client.Request.{check_ctx}
use skopos.Client.Iteration.{IterKind, iter_unfinished, IterationResult, run_iteration}
use skopos.Client.Iteration.Laws.{run_iteration_total}
use skopos.Client.Runner.{
  Drain, Pass, again, returned, out_of_fuel, page_cap, move_on, deliver, settle_page, run_page,
  pass, drain_loop, drain_body, emit_all, events_of, bind_page, fresh_page, Endpoints, teardown,
  drain,
}

-- A pass is finished: it goes on or returns.
abbrev pub passed : Pass → Bool
passed out_of_fuel = false
passed p = true

pub Pass-cases :
    (p : Pass) → (p ≡ again) ⊎ ((e : Option Error) × (p ≡ returned e)) ⊎ (p ≡ out_of_fuel)
Pass-cases again = inl refl
Pass-cases (returned e) = inr (inl (e, refl))
Pass-cases out_of_fuel = inr (inr refl)

module _ (platform : Platform) (env : Environment) (doc : Doc) where
  move_on-pages :
      (plan : Plan) (kind : IterKind) (d : Drain)
      → ((move_on platform env doc plan kind d).1.pages ≡ d.pages)
        × (passed (move_on platform env doc plan kind d).0 ≡ true)
  unfolding move_on
  move_on-pages plan kind d = ground arith

  deliver-pages :
      (plan : Plan) (out : IterationResult) (d : Drain)
      → ((deliver platform env doc plan out d).1.pages ≡ d.pages)
        × (passed (deliver platform env doc plan out d).0 ≡ true)
  unfolding deliver
  deliver-pages plan out d =
      let sent = emit_all platform env doc (events_of out) d.delivered in
      let d' : Drain = record d { scope = bind_page out d.scope; delivered = sent.1 } in
      elim (Option-cases sent.0) [
        | inl all ↦ rw (all, deliver) (move_on-pages plan out.kind d')
        | inr (e, failed) ↦ rw (failed, deliver) (refl, refl)
      ]

  settle_page-pages :
      (plan : Plan) (out : IterationResult) (d : Drain)
      → out.kind ≢ iter_unfinished
      → ((settle_page platform env doc plan out d).1.pages ≡ d.pages)
        × (passed (settle_page platform env doc plan out d).0 ≡ true)
  unfolding settle_page
  settle_page-pages plan out d fine = ground (arith, deliver-pages plan out d)

  module _ (fuel : ℕ) (plan : Plan)
      (live : (s : Scope) (out : IterationResult)
        → (run_iteration platform env doc fuel s).0 ≡ ok out
        → out.kind ≢ iter_unfinished) where
    run_page-pages :
        (d : Drain)
        → ((run_page platform env doc fuel plan d).1.pages ≡ suc d.pages)
          × (passed (run_page platform env doc fuel plan d).0 ≡ true)
    unfolding run_page
    run_page-pages d =
        let page = run_iteration platform env doc fuel (fresh_page d.scope) in
        let d' : Drain = record d { scope = page.1; pages = suc d.pages } in
        elim (Result-cases page.0) [
          | inr (e, failed) ↦ rw (failed, run_page) (refl, refl)
          | inl (out, got) ↦
              rw (got, run_page) (settle_page-pages plan out d' (live (fresh_page d.scope) out got))
        ]

    -- A pass that goes on has begun one page, and was below the cap.
    pass-pages :
        (cap : ℕ) (d : Drain)
        → d.pages ≤ cap
        → let after = pass platform env doc fuel (some cap) plan d in
          (after.1.pages ≤ cap)
          × (passed after.0 ≡ true)
          × (after.0 ≡ again → after.1.pages ≡ suc d.pages)
    unfolding pass check_ctx
    pass-pages cap d below =
        let d' : Drain = record d { scope = (check_ctx env d.scope).1 } in
        elim (Option-cases (env.ctx_err d.scope.checks)) [
          | inr (e, over) ↦ rw (over, pass) (below, refl, λ h. cc)
          | inl open_ ↦ elim (Bool-cases (leb cap d.pages)) [
            | inl full ↦ rw (open_, full, pass) (below, refl, λ h. cc)
            | inr room ↦
                let (pages, fine) = run_page-pages d' in
                rw (open_, room, pass) (ground arith, fine, λ h. pages)
          ]
        ]

    -- Where every iteration comes to an end, a loop that starts below its cap of pages never begins
    -- more pages than the cap, and with more rounds than there are pages left it goes on to a return.
    pub drain_loop-bounded :
        (rounds cap : ℕ) (d : Drain)
        → d.pages ≤ cap
        → cap < rounds + d.pages
        → let after = drain_loop platform env doc rounds fuel (some cap) plan d in
          (after.1.pages ≤ cap) × (passed after.0 ≡ true)
    unfolding drain_loop
    drain_loop-bounded zero cap d below enough = absurd (omega arith)
    drain_loop-bounded (suc rounds) cap d below enough =
        let after = pass platform env doc fuel (some cap) plan d in
        let (kept, fine, counted) = pass-pages cap d below in
        elim (Pass-cases after.0) [
          | inl goes ↦
              rw (goes, drain_loop)
                (drain_loop-bounded rounds cap after.1 kept (omega (arith, counted goes)))
          | inr (inl (e, ends)) ↦ rw (ends, drain_loop) (kept, refl)
          | inr (inr bad) ↦ cc
        ]

teardown-passed :
    (ends : Endpoints) (doc : Doc) (p : Pass) (d : Drain)
    → passed p ≡ true
    → passed (teardown ends doc (p, d)).result ≡ true
unfolding teardown
teardown-passed ends doc p d h = ground arith

module _ (platform : Platform) (env : Environment) (ends : Endpoints) (doc : Doc)
    (limit cap rounds fuel : ℕ) (max_pages now : ℤ)
    (ended : (n : ℕ) → limit ≤ n → env.ctx_err n ≢ none)
    (steady : (req : Request) (s : Scope) → s.checks ≤ (env.execute_request req s).1.checks)
    (enough : limit < fuel) (capped : page_cap max_pages ≡ some cap)
    (rounds_enough : cap < rounds) where
  drain_body-bounded :
      (d : Drain)
      → d.pages ≡ 0
      → ((drain_body platform env doc rounds fuel max_pages d).1.pages ≤ cap)
        × (passed (drain_body platform env doc rounds fuel max_pages d).0 ≡ true)
  unfolding drain_body
  drain_body-bounded d start =
      let wiped = reset_per_drain_scratch platform doc d.scope in
      let d' : Drain = record d { scope = wiped.1 } in
      elim (Result-cases (context "per-drain wipe" wiped.0)) [
        | inr (e, failed) ↦ rw (failed, drain_body) (omega arith, refl)
        | inl (u, done) ↦ elim (Result-cases (make_pagination_plan doc.pagination)) [
          | inr (e, failed) ↦ rw (done, failed, drain_body) (omega arith, refl)
          | inl (plan, made) ↦
              rw (done, made, capped, drain_body)
                (drain_loop-bounded platform env doc fuel plan
                  (run_iteration_total platform env doc fuel limit ended steady enough) rounds cap
                  d' (omega arith) (omega arith))
        ]
      ]

  -- A drain ends with a result, and not out of fuel: where the context reports its end from the call
  -- `limit` of ctx.Err on, the executor takes no call back, the fuel exceeds `limit`, and MaxPages
  -- gives a cap that the rounds exceed.
  pub drain_total : (drain platform env ends doc rounds fuel max_pages now).result ≢ out_of_fuel
  unfolding drain
  drain_total bad = elim (Result-cases ends.loaded) [
    | inr (e, failed) ↦ cc (rw (failed, drain) at bad)
    | inl (snap, loaded) ↦ elim (Result-cases (new_scope platform doc snap now)) [
      | inr (e, failed) ↦ cc (rw (loaded, failed, drain) at bad)
      | inl (s, made) ↦
          let start : Drain = record { scope = s; pages = 0; delivered = [] } in
          let body = drain_body platform env doc rounds fuel max_pages start in
          let torn = teardown-passed ends doc body.0 body.1 (drain_body-bounded start refl).1 in
          cc (rw (loaded, made, drain) at bad)
    ]
  ]

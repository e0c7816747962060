-- ===== src/Client/Iteration/Laws.antt =====
-- One page's chain of requests: that it ends.
use skopos.Base.{
  ℕ, suc, ◌≤◌, ◌<◌, ◌≡◌, ◌≢◌, refl, inl, inr, Bool, true, false, List, [], ◌∷◌, Option, none,
  Result, ok, err, arith, Option-cases, Result-cases,
}
use skopos.Any.{Any, nil}
use skopos.Schema.Doc.{Doc, Request, FanOut}
use skopos.Client.Platform.{Platform}
use skopos.Client.Scope.{Scope, Header}
use skopos.Client.Extract.{StepResult}
use skopos.Client.Dispatch.{
  Environment, step_ok, step_skip, step_empty, step_invalidate, step_warn, step_break, unfinished,
}
use skopos.Client.FanOut.{merged, invalidated, ended, run_fan_out}
use skopos.Client.Request.{run_request}
use skopos.Client.Request.Laws.{run_request_total}
use skopos.Client.Iteration.{
  IterKind, iter_accepted, iter_skip, iter_empty, iter_unfinished, IterationResult, ChainStep,
  go_on, stop, produced, dropped, no_result, is_producer, producer_index, gate_open, fan_out_step,
  accept_step, plain_step, run_step, run_chain, settle, run_iteration,
}

abbrev finished : IterKind → Bool
finished iter_unfinished = false
finished kind = true

-- What a round of the chain hands on is finished.
abbrev handed_on : Result ChainStep → Bool
handed_on (err e) = true
handed_on (ok (stop kind)) = finished kind
handed_on (ok (go_on out)) = finished out.kind

produced-finished :
    (b : Bool) (body : Any) (h : Option Header) (out : IterationResult)
    → finished out.kind ≡ true
    → finished (produced b body h out).kind ≡ true
produced-finished true body h out f = f
produced-finished false body h out f = f

dropped-finished :
    (b : Bool) (kind : IterKind) (out : IterationResult)
    → finished kind ≡ true
    → finished out.kind ≡ true
    → finished (dropped b kind out).kind ≡ true
dropped-finished true kind out k f = k
dropped-finished false kind out k f = f

module _ (platform : Platform) (env : Environment) (doc : Doc) (fuel : ℕ) where
  fan_out_step-finished :
      (req : Request) (f : FanOut) (b : Bool) (out : IterationResult) (s : Scope)
      → finished out.kind ≡ true
      → handed_on (fan_out_step platform env doc fuel req f b out s).0 ≡ true
  unfolding fan_out_step
  fan_out_step-finished req f b out s h =
      elim (Result-cases (run_fan_out platform env doc req f s).0) [
        | inr (e, failed) ↦ rw (failed, fan_out_step) refl
        | inl (merged body hd, got) ↦ rw (got, fan_out_step) (produced-finished b body hd out h)
        | inl (invalidated, got) ↦ rw (got, fan_out_step) refl
        | inl (ended, got) ↦ rw (got, fan_out_step) refl
      ]

  accept_step-finished :
      (req : Request) (res : StepResult) (b : Bool) (out : IterationResult) (s : Scope)
      → finished out.kind ≡ true
      → handed_on (accept_step platform env doc fuel req res b out s).0 ≡ true
  unfolding accept_step
  accept_step-finished req res b out s h =
      ground (arith, produced-finished b res.body res.headers out h)

  stop_finished :
      (kind : IterKind) (out : IterationResult)
      → finished kind ≡ true
      → ok (no_result kind) ≡ ok out
      → out.kind ≢ iter_unfinished
  stop_finished kind out f same bad = cc

  settle-finished :
      (out : IterationResult) (s : Scope) (out' : IterationResult)
      → finished out.kind ≡ true
      → settle platform env doc fuel out s ≡ ok out'
      → out'.kind ≢ iter_unfinished
  unfolding settle
  settle-finished out s out' f same bad = ground arith

  module _ (limit : ℕ) (ended : (n : ℕ) → limit ≤ n → env.ctx_err n ≢ none)
      (steady : (req : Request) (s : Scope) → s.checks ≤ (env.execute_request req s).1.checks)
      (enough : limit < fuel) where
    plain_step-finished :
        (req : Request) (b : Bool) (out : IterationResult) (s : Scope)
        → finished out.kind ≡ true
        → handed_on (plain_step platform env doc fuel req b out s).0 ≡ true
    unfolding plain_step
    plain_step-finished req b out s h =
        elim (Result-cases (run_request platform env doc req fuel s).0) [
          | inr (e, failed) ↦ rw (failed, plain_step) refl
          | inl (step_ok res, got) ↦
              rw (got, plain_step)
                (accept_step-finished req res b out (run_request platform env doc req fuel s).1 h)
          | inl (step_skip, got) ↦ rw (got, plain_step) (dropped-finished b iter_skip out refl h)
          | inl (step_empty, got) ↦ rw (got, plain_step) (dropped-finished b iter_empty out refl h)
          | inl (step_invalidate, got) ↦ rw (got, plain_step) refl
          | inl (step_warn, got) ↦ rw (got, plain_step) refl
          | inl (step_break, got) ↦ rw (got, plain_step) refl
          | inl (unfinished, got) ↦ absurd (
              run_request_total platform env doc req limit ended (steady req) fuel s (omega arith)
                (omega arith) got)
        ]

    run_step-finished :
        (req : Request) (b : Bool) (out : IterationResult) (s : Scope)
        → finished out.kind ≡ true
        → handed_on (run_step platform env doc fuel req b out s).0 ≡ true
    unfolding run_step
    run_step-finished req b out s h =
        let s₁ : Scope = record s { body = nil; response_headers = none } in
        elim (Result-cases (gate_open platform env doc fuel req.gate s₁)) [
          | inr (e, failed) ↦ rw (failed, run_step) refl
          | inl (false, shut) ↦ rw (shut, run_step) h
          | inl (true, opens) ↦ elim (Option-cases req.fan_out) [
            | inl plain ↦ rw (opens, plain, run_step) (plain_step-finished req b out s₁ h)
            | inr (f, fans) ↦ rw (opens, fans, run_step) (fan_out_step-finished req f b out s₁ h)
          ]
        ]

    run_chain-finished :
        (i : ℕ) (reqs : List Request) (out : IterationResult) (s : Scope)
        → finished out.kind ≡ true
        → handed_on (run_chain platform env doc fuel i reqs out s).0 ≡ true
    unfolding run_chain
    run_chain-finished i [] out s h = h
    run_chain-finished i (req ∷ reqs) out s h =
        let b = is_producer i (producer_index doc) in
        let step = run_step platform env doc fuel req b out s in
        let fine = run_step-finished req b out s h in
        elim (Result-cases step.0) [
          | inr (e, failed) ↦ rw (failed, run_chain) refl
          | inl (stop kind, got) ↦ rw (got, run_chain) (rw got at fine)
          | inl (go_on out', got) ↦
              rw (got, run_chain) (run_chain-finished (suc i) reqs out' step.1 (rw got at fine))
        ]

    -- Where the context reports its end from the call `limit` of ctx.Err on, the executor takes no
    -- call back and the fuel exceeds `limit`, no result of a page's chain of requests is the one that
    -- stands for fuel run out.
    pub run_iteration_total :
        (s : Scope) (out : IterationResult)
        → (run_iteration platform env doc fuel s).0 ≡ ok out
        → out.kind ≢ iter_unfinished
    unfolding run_iteration
    run_iteration_total s out got bad =
        let chain = run_chain platform env doc fuel 0 doc.requests (no_result iter_accepted) s in
        let fine = run_chain-finished 0 doc.requests (no_result iter_accepted) s refl in
        elim (Result-cases chain.0) [
          | inr (e, failed) ↦ cc (rw (failed, run_iteration) at got)
          | inl (stop kind, at) ↦
              stop_finished kind out (rw at at fine) (rw (at, run_iteration) at got) bad
          | inl (go_on out', at) ↦
              settle-finished out' chain.1 out (rw at at fine) (rw (at, run_iteration) at got) bad
        ]

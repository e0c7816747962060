-- ===== src/Client/Iteration/Fields.antt =====
-- Which state fields the requests of a page can change.
use skopos.Base.{
  ℕ, zero, suc, String, ◌≡◌, refl, ap, ◌∙◌, inl, inr, Bool, true, false, List, [], ◌∷◌, ◌++◌,
  Option, none, lookup, Error, arith, Option-cases, Result-cases,
}
use skopos.Any.{Any, nil}
use skopos.Schema.Path.{RefPath}
use skopos.Schema.Doc.{Doc, Request, FanOut}
use skopos.Client.Platform.{Platform}
use skopos.Client.Scope.{Scope, Header}
use skopos.Client.Lifetime.{extract_targets, request_targets}
use skopos.Client.Lifetime.Targets.{Untargeted}
use skopos.Client.Extract.{StepResult, run_extracts}
use skopos.Client.Extract.Fields.{Same, run_extracts-Same}
use skopos.Client.Dispatch.{
  Environment, step_ok, step_skip, step_empty, step_invalidate, step_warn, step_break, unfinished,
  dispatch_error, dispatch_status,
}
use skopos.Client.Cache.{drop_reachable_caches}
use skopos.Client.FanOut.{merged, invalidated, ended, run_fan_out}
use skopos.Client.FanOut.Fields.{run_fan_out-Same}
use skopos.Client.Request.{check_ctx, bind_response, loop_done, run_request}
use skopos.Client.Iteration.{
  IterationResult, go_on, stop, no_result, bind_step, bind_fan_out, is_producer, producer_index,
  gate_open, fan_out_step, accept_step, plain_step, run_step, run_chain, run_iteration,
  iter_accepted,
}

dispatch_error-state :
    (doc : Doc) (req : Request) (e : Error) (s : Scope)
    → (dispatch_error doc req e s).1.state ≡ s.state
unfolding dispatch_error dispatch_status drop_reachable_caches
dispatch_error-state doc req e s = ground arith

bind_step-Same :
    (name : String) (s : Scope) (id : String) (body : Any) (hd : Option Header) (t : Scope)
    → Same name s t
    → Same name s (bind_step id body hd t)
bind_step-Same name s id body hd t h = ground arith

bind_fan_out-Same :
    (name : String) (s : Scope) (id : String) (body : Any) (hd : Option Header) (t : Scope)
    → Same name s t
    → Same name s (bind_fan_out id body hd t)
bind_fan_out-Same name s id body hd t h = ground arith

-- A request list's extract targets, request by request.
Untargeted-split :
    (ps qs : List RefPath) (name : String)
    → Untargeted (ps ++ qs) name
    → Untargeted ps name × Untargeted qs name
Untargeted-split [] qs name h = (tt, h)
Untargeted-split (p ∷ ps) qs name (h, hs) =
    let (left, right) = Untargeted-split ps qs name hs in ((h, left), right)

module _ (platform : Platform) (env : Environment) (doc : Doc) (name : String) (s : Scope)
    (frame : (req : Request) (t : Scope) → Same name t (env.execute_request req t).1) where
  run_request-Same :
      (req : Request) (fuel : ℕ) (t : Scope)
      → Same name s t
      → Same name s (run_request platform env doc req fuel t).1
  unfolding run_request check_ctx
  run_request-Same req zero t h = h
  run_request-Same req (suc fuel) t h =
      let t₁ = (env.execute_request req t).1 in
      let h₁ = frame req t ∙ h in
      elim (Result-cases (env.execute_request req t).0) [
        | inr (e, failed) ↦
            rw (failed, run_request)
              (ap (λ m. lookup name m) (dispatch_error-state doc req e t₁) ∙ h₁)
        | inl (got, sent) ↦
            let t₂ = bind_response platform env doc req got t₁ in
            elim (Result-cases (loop_done platform env doc req req.terminate_when t₂)) [
              | inr (e, failed) ↦ rw (sent, failed, run_request) h₁
              | inl (true, stops) ↦ rw (sent, stops, run_request) h₁
              | inl (false, goes) ↦ elim (Option-cases (env.ctx_err t₁.checks)) [
                | inr (e, over) ↦ rw (sent, goes, over, run_request) h₁
                | inl live ↦
                    rw (sent, goes, live, run_request)
                      (run_request-Same req fuel (check_ctx env t₂).1 h₁)
              ]
            ]
      ]

  fan_out_step-Same :
      (fuel : ℕ) (req : Request) (f : FanOut) (b : Bool) (out : IterationResult) (t : Scope)
      → Untargeted (extract_targets req.extract) name
      → Same name s t
      → Same name s (fan_out_step platform env doc fuel req f b out t).1
  unfolding fan_out_step
  fan_out_step-Same fuel req f b out t free h =
      let h₁ = run_fan_out-Same platform env doc name s frame req f t free h in
      elim (Result-cases (run_fan_out platform env doc req f t).0) [
        | inr (e, failed) ↦ rw (failed, fan_out_step) h₁
        | inl (merged body hd, got) ↦
            rw (got, fan_out_step)
              (bind_fan_out-Same name s req.id body hd (run_fan_out platform env doc req f t).1 h₁)
        | inl (invalidated, got) ↦ rw (got, fan_out_step) h₁
        | inl (ended, got) ↦ rw (got, fan_out_step) h₁
      ]

  accept_step-Same :
      (fuel : ℕ) (req : Request) (res : StepResult) (b : Bool) (out : IterationResult) (t : Scope)
      → Untargeted (extract_targets req.extract) name
      → Same name s t
      → Same name s (accept_step platform env doc fuel req res b out t).1
  unfolding accept_step
  accept_step-Same fuel req res b out t free h =
      let h₁ = run_extracts-Same platform name s res req.extract t free h in
      elim (Result-cases (run_extracts platform res req.extract t).0) [
        | inr (e, failed) ↦ rw (failed, accept_step) h₁
        | inl (u, done) ↦
            rw (done, accept_step)
              (bind_step-Same name s req.id res.body res.headers
                (run_extracts platform res req.extract t).1 h₁)
      ]

  plain_step-Same :
      (fuel : ℕ) (req : Request) (b : Bool) (out : IterationResult) (t : Scope)
      → Untargeted (extract_targets req.extract) name
      → Same name s t
      → Same name s (plain_step platform env doc fuel req b out t).1
  unfolding plain_step
  plain_step-Same fuel req b out t free h =
      let t₁ = (run_request platform env doc req fuel t).1 in
      let h₁ = run_request-Same req fuel t h in
      elim (Result-cases (run_request platform env doc req fuel t).0) [
        | inr (e, failed) ↦ rw (failed, plain_step) h₁
        | inl (step_ok res, got) ↦
            rw (got, plain_step) (accept_step-Same fuel req res b out t₁ free h₁)
        | inl (step_skip, got) ↦ rw (got, plain_step) h₁
        | inl (step_empty, got) ↦ rw (got, plain_step) h₁
        | inl (step_invalidate, got) ↦ rw (got, plain_step) h₁
        | inl (step_warn, got) ↦ rw (got, plain_step) h₁
        | inl (step_break, got) ↦ rw (got, plain_step) h₁
        | inl (unfinished, got) ↦ rw (got, plain_step) h₁
      ]

  run_step-Same :
      (fuel : ℕ) (req : Request) (b : Bool) (out : IterationResult) (t : Scope)
      → Untargeted (extract_targets req.extract) name
      → Same name s t
      → Same name s (run_step platform env doc fuel req b out t).1
  unfolding run_step
  run_step-Same fuel req b out t free h =
      let t₁ : Scope = record t { body = nil; response_headers = none } in
      elim (Result-cases (gate_open platform env doc fuel req.gate t₁)) [
        | inr (e, failed) ↦ rw (failed, run_step) h
        | inl (false, shut) ↦ rw (shut, run_step) h
        | inl (true, opens) ↦ elim (Option-cases req.fan_out) [
          | inl plain ↦ rw (opens, plain, run_step) (plain_step-Same fuel req b out t₁ free h)
          | inr (f, fans) ↦
              rw (opens, fans, run_step) (fan_out_step-Same fuel req f b out t₁ free h)
        ]
      ]

  run_chain-Same :
      (fuel i : ℕ) (reqs : List Request) (out : IterationResult) (t : Scope)
      → Untargeted (request_targets reqs) name
      → Same name s t
      → Same name s (run_chain platform env doc fuel i reqs out t).1
  unfolding run_chain
  run_chain-Same fuel i [] out t free h = h
  run_chain-Same fuel i (req ∷ reqs) out t free h =
      let (here, later) =
        Untargeted-split (extract_targets req.extract) (request_targets reqs) name free in
      let b = is_producer i (producer_index doc) in
      let step = run_step platform env doc fuel req b out t in
      let h₁ = run_step-Same fuel req b out t here h in
      elim (Result-cases step.0) [
        | inr (e, failed) ↦ rw (failed, run_chain) h₁
        | inl (stop kind, got) ↦ rw (got, run_chain) h₁
        | inl (go_on out', got) ↦
            rw (got, run_chain) (run_chain-Same fuel (suc i) reqs out' step.1 later h₁)
      ]

-- The requests of a page, however the page ends, keep the value of every state field that no extract
-- of theirs targets, where the executor keeps it.
pub run_iteration-keeps :
    (platform : Platform) (env : Environment) (doc : Doc) (fuel : ℕ) (s : Scope) (name : String)
    → ((req : Request) (t : Scope)
        → lookup name (env.execute_request req t).1.state ≡ lookup name t.state)
    → Untargeted (request_targets doc.requests) name
    → lookup name (run_iteration platform env doc fuel s).1.state ≡ lookup name s.state
unfolding run_iteration
run_iteration-keeps platform env doc fuel s name frame free =
    let chain = run_chain platform env doc fuel 0 doc.requests (no_result iter_accepted) s in
    let h =
      run_chain-Same platform env doc name s frame fuel 0 doc.requests (no_result iter_accepted) s
        free refl in
    elim (Result-cases chain.0) [
      | inr (e, failed) ↦ rw (failed, run_iteration) h
      | inl (stop kind, got) ↦ rw (got, run_iteration) h
      | inl (go_on out, got) ↦ rw (got, run_iteration) h
    ]

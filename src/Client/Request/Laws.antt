-- ===== src/Client/Request/Laws.antt =====
-- What a request returns with, and that it returns.
use native.Mathlib.Decide.{dec_lt}
use skopos.Base.{
  String, subst, ℕ, zero, suc, ◌+◌, ◌≤◌, ◌<◌, ◌≡◌, ◌≢◌, sym, ◌∙◌, ap, inl, inr, Bool, true, false,
  none, Result, ok, err, Error, arith, Option-cases, Result-cases,
}
use skopos.Schema.Doc.{Doc, Request}
use skopos.Client.Platform.{Platform}
use skopos.Client.Scope.{Scope}
use skopos.Client.Extract.{StepResult}
use skopos.Client.Dispatch.{
  Environment, StepStatus, step_ok, unfinished, dispatch_error, dispatch_status, dispatch_mode,
}
use skopos.Client.Request.{check_ctx, bind_response, loop_done, run_request}

-- An error is answered without a response, and never left unfinished.
abbrev answered : Result StepStatus → Bool
answered (err e) = true
answered (ok (step_ok res)) = false
answered (ok unfinished) = false
answered (ok st) = true

dispatch_mode-answered : (mode : String) (e : Error) → answered (dispatch_mode mode e) ≡ true
unfolding dispatch_mode
dispatch_mode-answered mode e = ground arith

dispatch_error-answered :
    (doc : Doc) (req : Request) (e : Error) (s : Scope)
    → answered (dispatch_error doc req e s).0 ≡ true
unfolding dispatch_error dispatch_status dispatch_mode
dispatch_error-answered doc req e s = ground arith

accepted_with :
    (got res : StepResult) (s s' : Scope)
    → (◌≡◌ {A = Result StepStatus × Scope} (ok (step_ok got), s) (ok (step_ok res), s'))
    → (got ≡ res) × (s ≡ s')
accepted_with got res s s' h = (cc, cc)

before_limit :
    (env : Environment) (limit n : ℕ)
    → ((n : ℕ) → limit ≤ n → env.ctx_err n ≢ none)
    → env.ctx_err n ≡ none
    → n < limit
before_limit env limit n ended live = elim (dec_lt n limit) [
  | yes early ↦ early
  | no late ↦ absurd (ended n (omega arith) live)
]

module _ (platform : Platform) (env : Environment) (doc : Doc) (req : Request) where
  not_accepted :
      (e : Error) (s s' : Scope) (res : StepResult)
      → dispatch_error doc req e s ≢ (ok (step_ok res), s')
  not_accepted e s s' res h = cc (dispatch_error-answered doc req e s)

  -- A request that is accepted is left with its response bound to the scope, and there the loop's
  -- condition holds, or it has none.
  pub run_request-accepted :
      (fuel : ℕ) (s s' : Scope) (res : StepResult)
      → run_request platform env doc req fuel s ≡ (ok (step_ok res), s')
      → (loop_done platform env doc req req.terminate_when s' ≡ ok true)
        × (s'.body ≡ res.body)
        × (s'.response_headers ≡ res.headers)
  unfolding run_request
  run_request-accepted zero s s' res h = cc
  run_request-accepted (suc fuel) s s' res h =
      let s₁ = (env.execute_request req s).1 in
      elim (Result-cases (env.execute_request req s).0) [
        | inr (e, failed) ↦ absurd (not_accepted e s₁ s' res (rw (failed, run_request) at h))
        | inl (got, sent) ↦
            let s₂ = bind_response platform env doc req got s₁ in
            elim (Result-cases (loop_done platform env doc req req.terminate_when s₂)) [
              | inr (e, failed) ↦ cc (rw (sent, failed, run_request) at h)
              | inl (true, stops) ↦
                  let (same, left) =
                    accepted_with got res s₂ s' (rw (sent, stops, run_request) at h) in
                  (
                    subst (λ t. loop_done platform env doc req req.terminate_when t ≡ ok true) left
                        stops,
                    ap (λ (t : Scope). t.body) (sym left) ∙ ap (λ (r : StepResult). r.body) same,
                    ap (λ (t : Scope). t.response_headers) (sym left)
                        ∙ ap (λ (r : StepResult). r.headers) same,
                  )
              | inl (false, goes) ↦ elim (Option-cases (env.ctx_err s₁.checks)) [
                | inr (e, over) ↦ cc (rw (sent, goes, over, run_request) at h)
                | inl live ↦
                    run_request-accepted fuel (check_ctx env s₂).1 s' res
                      (rw (sent, goes, live, run_request) at h)
              ]
            ]
      ]

  -- Where the context reports its end from the call `limit` of ctx.Err on, and the executor takes no
  -- call back, a request returns with a status or an error, and not out of fuel, once there is fuel
  -- for the calls that are left before `limit`.
  pub run_request_total :
      (limit : ℕ)
      → ((n : ℕ) → limit ≤ n → env.ctx_err n ≢ none)
      → ((s : Scope) → s.checks ≤ (env.execute_request req s).1.checks)
      → (fuel : ℕ) (s : Scope) → limit < fuel + s.checks
      → 0 < fuel
      → (run_request platform env doc req fuel s).0 ≢ ok unfinished
  unfolding run_request check_ctx
  run_request_total limit ended steady zero s enough more h = omega arith
  run_request_total limit ended steady (suc fuel) s enough more h =
      let s₁ = (env.execute_request req s).1 in
      elim (Result-cases (env.execute_request req s).0) [
        | inr (e, failed) ↦
            let h' : (dispatch_error doc req e s₁).0 ≡ ok unfinished =
              rw (failed, run_request) at h in
            cc (dispatch_error-answered doc req e s₁)
        | inl (got, sent) ↦
            let s₂ = bind_response platform env doc req got s₁ in
            elim (Result-cases (loop_done platform env doc req req.terminate_when s₂)) [
              | inr (e, failed) ↦ cc (rw (sent, failed, run_request) at h)
              | inl (true, stops) ↦ cc (rw (sent, stops, run_request) at h)
              | inl (false, goes) ↦ elim (Option-cases (env.ctx_err s₁.checks)) [
                | inr (e, over) ↦ cc (rw (sent, goes, over, run_request) at h)
                | inl live ↦
                    let early : s₁.checks < limit = before_limit env limit s₁.checks ended live in
                    run_request_total limit ended steady fuel (check_ctx env s₂).1
                      (omega (arith, steady s)) (omega (arith, steady s))
                      (rw (sent, goes, live, run_request) at h)
              ]
            ]
      ]

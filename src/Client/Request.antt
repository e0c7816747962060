-- ===== src/Client/Request.antt =====
-- runRequest of client/runner.go: one request through its terminate_when loop.
pub mod Laws
mod Tests
use skopos.Base.{
  ℕ, zero, suc, Bool, true, false, Option, none, some, Result, ok, err, Error, context,
}
use skopos.Schema.Value.{Predicate}
use skopos.Schema.Doc.{Doc, Request}
use skopos.Client.Platform.{Platform}
use skopos.Client.Scope.{Scope}
use skopos.Client.Eval.{eval_predicate}
use skopos.Client.Exec.{Exec}
use skopos.Client.Extract.{StepResult}
use skopos.Client.Dispatch.{Environment, StepStatus, step_ok, unfinished, dispatch_error}

abbrev answer : Option Error → Result (Unit {0})
answer none = ok tt
answer (some e) = err e

-- One call of ctx.Err().
unfoldable pub check_ctx : Environment → Exec (Unit {0})
check_ctx env s = (answer (env.ctx_err s.checks), record s { checks = suc s.checks })

module _ (platform : Platform) (env : Environment) (doc : Doc) (req : Request) where
  -- Whether the loop ends with the response that is bound.
  pub loop_done : Option Predicate → Scope → Result Bool
  unfolding eval_predicate
  loop_done none s = ok true
  loop_done (some p) s = context "terminate_when" (eval_predicate platform s p)

  abbrev pub bind_response : StepResult → Scope → Scope
  bind_response res s = record s { body = res.body; response_headers = res.headers }

  unfoldable pub run_request : ℕ → Exec StepStatus
  unfolding dispatch_error loop_done check_ctx
  run_request zero s = (ok unfinished, s)
  run_request (suc fuel) s =
      let (r, s₁) = env.execute_request req s in
      elim r [
        | err e ↦ dispatch_error doc req e s₁
        | ok res ↦
            let s₂ = bind_response res s₁ in
            elim (loop_done req.terminate_when s₂) [
              | err e ↦ (err e, s₂)
              | ok done ↦ elim done [
                | true ↦ (ok (step_ok res), s₂)
                | false ↦
                    let (c, s₃) = check_ctx env s₂ in
                    elim c [ err e ↦ (err e, s₃) | ok u ↦ run_request fuel s₃ ]
              ]
            ]
      ]

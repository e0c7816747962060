-- ===== src/Client/Request/Tests.antt =====
-- Requests that are accepted.
use skopos.Base.{ℕ, ◌≤◌, ◌≡◌, ◌≢◌, refl, true, none, ok, arith}
use skopos.Client.Scope.{Scope}
use skopos.Client.Dispatch.{step_ok}
use skopos.Client.Request.{run_request, loop_done}
use skopos.Client.Request.Laws.{run_request-accepted}
use skopos.Client.Samples.{platform, env, doc, request, response, scope}

abbrev answered_scope : Scope
answered_scope = record scope { body = response.body; exchanges = 1 }

answers : run_request platform env doc request 1 scope ≡ (ok (step_ok response), answered_scope)
unfolding run_request
answers = refl

run_request-accepted_example :
    (loop_done platform env doc request request.terminate_when answered_scope ≡ ok true)
    × (answered_scope.body ≡ response.body)
    × (answered_scope.response_headers ≡ response.headers)
run_request-accepted_example =
    run_request-accepted platform env doc request 1 scope answered_scope response answers

context_ends : (n : ℕ) → 100 ≤ n → env.ctx_err n ≢ none
context_ends n h = ground arith

env_steady : (s : Scope) → s.checks ≤ (env.execute_request request s).1.checks
env_steady s = omega arith

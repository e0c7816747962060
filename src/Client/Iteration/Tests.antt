-- ===== src/Client/Iteration/Tests.antt =====
-- One page of a small document.
use skopos.Base.{ℕ, ◌≤◌, ◌≡◌, ◌≢◌, refl, lookup, none, ok, arith}
use skopos.Schema.Doc.{Request}
use skopos.Client.Scope.{Scope}
use skopos.Client.Iteration.{iter_unfinished, run_iteration}
use skopos.Client.Iteration.Laws.{run_iteration_total}
use skopos.Client.Iteration.Fields.{run_iteration-keeps}
use skopos.Client.Lifetime.{request_targets}
use skopos.Client.Lifetime.Targets.{Untargeted}
use skopos.Client.Samples.{platform, env, doc, scope, accepted}

context_ends : (n : ℕ) → 100 ≤ n → env.ctx_err n ≢ none
context_ends n h = ground arith

env_steady : (req : Request) (s : Scope) → s.checks ≤ (env.execute_request req s).1.checks
env_steady req s = omega arith

accepts : (run_iteration platform env doc 101 scope).0 ≡ ok accepted
unfolding run_iteration
accepts = refl

run_iteration_total_example : accepted.kind ≢ iter_unfinished
run_iteration_total_example =
    run_iteration_total platform env doc 101 100 context_ends env_steady (omega arith) scope
      accepted accepts

since_free : Untargeted (request_targets doc.requests) "since"
since_free = tt

executor_keeps :
    (req : Request) (t : Scope)
    → lookup "since" (env.execute_request req t).1.state ≡ lookup "since" t.state
executor_keeps req t = refl

run_iteration-keeps_example :
    lookup "since" (run_iteration platform env doc 101 scope).1.state ≡ lookup "since" scope.state
run_iteration-keeps_example =
    run_iteration-keeps platform env doc 101 scope "since" executor_keeps since_free

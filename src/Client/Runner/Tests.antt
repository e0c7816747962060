-- ===== src/Client/Runner/Tests.antt =====
-- Drains of a small document.
use skopos.Base.{
  ℕ, ◌≤◌, ◌≡◌, ◌≢◌, ◌⊎◌, ◌++◌, refl, true, false, [], ◌∷◌, none, some, pos, ok, Error, Option, leb,
  msg, if◌then◌else◌, contains, arith,
}
use skopos.Schema.Doc.{Doc, Request}
use skopos.Client.Scope.{Scope}
use skopos.Client.Lifetime.{per_drain_scratch_fields}
use skopos.Client.Pagination.{counter}
use skopos.Client.Iteration.{IterationResult, iter_unfinished, run_iteration}
use skopos.Client.Iteration.Laws.{run_iteration_total}
use skopos.Client.Runner.{
  page_cap, settle_page, drain_loop, bind_page, events_of, returned, out_of_fuel, drain,
}
use skopos.Client.Runner.Laws.{passed, drain_loop-bounded}
use skopos.Client.Runner.Delivery.{settle_page-delivered}
use skopos.Client.Dispatch.{Environment}
use skopos.Client.Http.{execute_request, wired}
use skopos.Client.Runner.Effects.{BodyEnds, drain-delivered}
use skopos.Client.Runner.{Pass, Drain, emitted, flushed, saved}
use skopos.Client.Lifetime.{new_scope, snapshot}
use skopos.Base.{Dict, map, ◌++◌}
use skopos.Any.{Any}
use skopos.Client.Runner.Wired.{drain-wired_total}
use skopos.Client.Samples.{
  request, platform, wire, env, doc, counter_block, start, accepted, ends, scope,
}

context_ends : (n : ℕ) → 100 ≤ n → env.ctx_err n ≢ none
context_ends n h = ground arith

env_steady : (req : Request) (s : Scope) → s.checks ≤ (env.execute_request req s).1.checks
env_steady req s = omega arith

cap_of_three : page_cap (pos 3) ≡ some 3
unfolding page_cap
cap_of_three = refl

iterations_end :
    (s : Scope) (out : IterationResult)
    → (run_iteration platform env doc 101 s).0 ≡ ok out
    → out.kind ≢ iter_unfinished
iterations_end = run_iteration_total platform env doc 101 100 context_ends env_steady (omega arith)

drain_loop-bounded_example :
    ((drain_loop platform env doc 4 101 (some 3) (counter counter_block) start).1.pages ≤ 3)
    × (passed (drain_loop platform env doc 4 101 (some 3) (counter counter_block) start).0 ≡ true)
drain_loop-bounded_example =
    drain_loop-bounded platform env doc 101 (counter counter_block) iterations_end 4 3 start
      (omega arith) (omega arith)

settle_page-delivered_example :
    ((settle_page platform env doc (counter counter_block) accepted start).1.delivered
      ≡ [] ++ events_of accepted)
    ⊎ ((e : Error) × ((settle_page platform env doc (counter counter_block) accepted start).0
          ≡ returned (some e))
        × ((settle_page platform env doc (counter counter_block) accepted start).1.scope
            ≡ bind_page accepted scope))
settle_page-delivered_example =
    settle_page-delivered platform env doc (counter counter_block) accepted start

since_stays : contains "since" (per_drain_scratch_fields doc) ≡ false
unfolding per_drain_scratch_fields
since_stays = refl

canceled : ℕ → Option Error
canceled n = if leb 100 n then some (msg "context canceled") else none

canceled_ends : (n : ℕ) → 100 ≤ n → canceled n ≢ none
unfolding canceled
canceled_ends n h = ground arith

abbrev wired_env : Environment
wired_env = wired platform wire doc canceled (λ n. none)

drain-wired_total_example :
    (drain platform wired_env ends doc 4 101 (pos 3) (pos 1000)).result ≢ out_of_fuel
drain-wired_total_example =
    drain-wired_total platform wire doc ends canceled (λ n. none) 100 3 4 101 (pos 3) (pos 1000)
      canceled_ends (omega arith) cap_of_three (omega arith)

abbrev warning_request : Request
warning_request = record request { expect_status = 500 ∷ [] }

abbrev warning_doc : Doc
warning_doc = record doc {
  requests = warning_request ∷ [];
  error = some (record { mode = "warn"; include_body = false });
}

drain-delivered_example :
    ((x : Error) × ((drain platform env ends doc 4 101 (pos 3) (pos 1000)).effects ≡ [])
      × ((drain platform env ends doc 4 101 (pos 3) (pos 1000)).result ≡ returned (some x)))
    ⊎ ((snap : Dict Any) × (s : Scope) × (after : Pass × Drain) × (ends.loaded ≡ ok snap)
        × (new_scope platform doc snap (pos 1000) ≡ ok s)
        × BodyEnds platform env doc 101 s after
        × ((drain platform env ends doc 4 101 (pos 3) (pos 1000)).effects
            ≡ map emitted after.1.delivered ++ flushed ∷ saved (snapshot doc after.1.scope) ∷ [])
        × (((drain platform env ends doc 4 101 (pos 3) (pos 1000)).result ≡ after.0)
            ⊎ (after.0 ≡ returned none)))
drain-delivered_example = drain-delivered platform env ends doc 4 101 (pos 3) (pos 1000)

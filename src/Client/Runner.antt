-- ===== src/Client/Runner.antt =====
-- Drain of client/runner.go: the pagination loop and its deferred teardown.
pub mod Laws
pub mod Delivery
pub mod Wired
pub mod Warned
pub mod Pages
pub mod Effects
mod Tests
use skopos.Base.{
  ℕ, zero, suc, ◌+◌, String, Bool, true, false, ◌&&◌, List, [], ◌∷◌, ◌++◌, map, Option, none, some,
  Dict, ℤ, pos, negsuc, leb, length, if◌then◌else◌, Result, ok, err, Error, wrap,
  max_pages_exceeded, context,
}
use skopos.Any.{Any, nil, list, of_list}
use skopos.Schema.Doc.{Doc}
use skopos.Client.Platform.{Platform}
use skopos.Client.Scope.{Scope}
use skopos.Client.Lifetime.{new_scope, snapshot, reset_per_drain_scratch}
use skopos.Client.Progress.{apply_progress}
use skopos.Client.Pagination.{Plan, make_pagination_plan, advance}
use skopos.Client.Dispatch.{Environment}
use skopos.Client.Request.{check_ctx}
use skopos.Client.Iteration.{
  IterKind, iter_accepted, iter_skip, iter_empty, iter_invalidate, iter_warn, iter_break,
  iter_unfinished, IterationResult, run_iteration,
}

-- The variables of the loop: the scope, the pages begun, and the events that the sink took.
pub record Drain : Type 0 where
  pub scope : Scope
  pub pages : ℕ
  pub delivered : List Any

-- How a pass of the loop ends: with another pass, with a return, or unfinished as above.
pub data Pass : Type 0 where
  again : Pass
  returned : Option Error → Pass
  out_of_fuel : Pass

-- The cap of Runner.MaxPages: 0 is the default, a negative number is no cap.
unfoldable pub page_cap : ℤ → Option ℕ
page_cap (pos zero) = some 10000
page_cap (pos (suc n)) = some (suc n)
page_cap (negsuc n) = none

abbrev at_cap : Option ℕ → ℕ → Bool
at_cap none pages = false
at_cap (some cap) pages = leb cap pages

-- anyEvents
abbrev pub any_events : Option (List Any) → Any
any_events none = nil
any_events (some vs) = list (of_list vs)

abbrev pub events_of : IterationResult → List Any
events_of out = elim out.kind [
  | iter_accepted ↦ elim out.events [ none ↦ [] | some vs ↦ vs ]
  | _ ↦ []
]

-- The bindings that every pass starts without.
abbrev pub fresh_page : Scope → Scope
fresh_page s = record s {
  extract = [];
  steps = [];
  step_headers = [];
  body = nil;
  response_headers = none;
  events = nil;
}

abbrev pub bind_page : IterationResult → Scope → Scope
bind_page out s = record s {
  body = out.producer_body;
  response_headers = out.producer_headers;
  events = any_events out.events;
}

module _ (platform : Platform) (env : Environment) (doc : Doc) where
  -- em.emit for each event: those that the sink took, and the error that stopped the loop.
  unfoldable pub emit_all : List Any → List Any → Option Error × List Any
  emit_all [] delivered = (none, delivered)
  emit_all (ev ∷ evs) delivered = elim (env.emit_error (length delivered)) [
    | some e ↦ (some (wrap "sink.Emit" e), delivered)
    | none ↦ emit_all evs (delivered ++ ev ∷ [])
  ]

  abbrev writes_progress : IterKind → Bool
  writes_progress iter_warn = false
  writes_progress kind = true

  -- applyProgress, unless the page was a warning.
  progress_step : IterKind → Scope → Result (Unit {0}) × Scope
  unfolding apply_progress
  progress_step kind s =
      if writes_progress kind then apply_progress platform doc.progress s else (ok tt, s)

  -- Progress and pagination, once the events are delivered.
  move_on : Plan → IterKind → Drain → Pass × Drain
  unfolding progress_step advance
  move_on plan kind d =
      let (r, s) = progress_step kind d.scope in
      elim r [
        | err e ↦ (returned (some e), record d { scope = s })
        | ok u ↦
            let (t, s') = advance platform plan s in
            let d' = record d { scope = s' } in
            elim t [
              | err e ↦ (returned (some e), d')
              | ok terminate ↦ (if terminate then returned none else again, d')
            ]
      ]

  deliver : Plan → IterationResult → Drain → Pass × Drain
  unfolding emit_all move_on
  deliver plan out d =
      let (failed, delivered) = emit_all (events_of out) d.delivered in
      let d' = record d { scope = bind_page out d.scope; delivered = delivered } in
      elim failed [ some e ↦ (returned (some e), d') | none ↦ move_on plan out.kind d' ]

  -- The switch on out.kind.
  pub settle_page : Plan → IterationResult → Drain → Pass × Drain
  unfolding deliver
  settle_page plan out d = elim out.kind [
    | iter_break ↦ (returned none, d)
    | iter_invalidate ↦ (again, d)
    | iter_unfinished ↦ (out_of_fuel, d)
    | _ ↦ deliver plan out d
  ]

  -- The pass behind the checks, which counts as a page.
  pub run_page : ℕ → Plan → Drain → Pass × Drain
  unfolding settle_page run_iteration
  run_page fuel plan d =
      let (r, s) = run_iteration platform env doc fuel (fresh_page d.scope) in
      let d' = record d { scope = s; pages = suc d.pages } in
      elim r [ err e ↦ (returned (some e), d') | ok out ↦ settle_page plan out d' ]

  pub pass : ℕ → Option ℕ → Plan → Drain → Pass × Drain
  unfolding run_page check_ctx
  pass fuel cap plan d =
      let (c, s) = check_ctx env d.scope in
      let d' = record d { scope = s } in
      elim c [
        | err e ↦ (returned (some e), d')
        | ok u ↦
            if at_cap cap d.pages
            then (returned (some (max_pages_exceeded d.pages)), d')
            else run_page fuel plan d'
      ]

  -- The loop: `rounds` bounds its passes, `fuel` those of each request loop.
  unfoldable pub drain_loop : ℕ → ℕ → Option ℕ → Plan → Drain → Pass × Drain
  unfolding pass
  drain_loop zero fuel cap plan d = (out_of_fuel, d)
  drain_loop (suc rounds) fuel cap plan d =
      let (p, d') = pass fuel cap plan d in
      elim p [
        | again ↦ drain_loop rounds fuel cap plan d'
        | returned e ↦ (returned e, d')
        | out_of_fuel ↦ (out_of_fuel, d')
      ]

  -- Drain between the registration of the teardown and the return.
  pub drain_body : ℕ → ℕ → ℤ → Drain → Pass × Drain
  unfolding reset_per_drain_scratch make_pagination_plan drain_loop page_cap
  drain_body rounds fuel max_pages d =
      let (r, s) = reset_per_drain_scratch platform doc d.scope in
      let d' = record d { scope = s } in
      elim (context "per-drain wipe" r) [
        | err e ↦ (returned (some e), d')
        | ok u ↦ elim (make_pagination_plan doc.pagination) [
          | err e ↦ (returned (some e), d')
          | ok plan ↦ drain_loop rounds fuel (page_cap max_pages) plan d'
        ]
      ]

-- What a drain does to the sink and the store, in order.
pub data Effect : Type 0 where
  emitted : Any → Effect
  flushed : Effect
  saved : Dict Any → Effect

-- The store and the sink's Flush, as the drain meets them.
pub record Endpoints : Type 0 where
  pub loaded : Result (Dict Any)
  pub flush_error : Option Error
  pub save_error : Dict Any → Option Error

pub record Drained : Type 0 where
  pub result : Pass
  pub effects : List Effect

-- retErr: the first error stands.
abbrev first_error : Pass → String → Option Error → Pass
first_error (returned none) label (some e) = returned (some (wrap label e))
first_error p label e = p

-- The deferred teardown. The synchronous emitter's close returns nil.
unfoldable pub teardown : Endpoints → Doc → Pass × Drain → Drained
unfolding snapshot
teardown ends doc (p, d) =
    let snap = snapshot doc d.scope in
    record {
      result =
          first_error (first_error p "sink.Flush" ends.flush_error) "store.Save"
            (ends.save_error snap);
      effects = map emitted d.delivered ++ flushed ∷ saved snap ∷ [];
    }

-- Drain, with the rounds and the fuel of the model, MaxPages and the clock's first reading.
unfoldable pub drain : Platform → Environment → Endpoints → Doc → ℕ → ℕ → ℤ → ℤ → Drained
unfolding new_scope drain_body teardown
drain platform env ends doc rounds fuel max_pages now = elim ends.loaded [
  | err e ↦ record { result = returned (some (wrap "store.Load" e)); effects = [] }
  | ok snap ↦ elim (new_scope platform doc snap now) [
    | err e ↦ record { result = returned (some (wrap "scope" e)); effects = [] }
    | ok s ↦ teardown ends doc (
        drain_body platform env doc rounds fuel max_pages
          (record { scope = s; pages = 0; delivered = [] }))
  ]
]

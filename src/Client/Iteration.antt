-- ===== src/Client/Iteration.antt =====
-- runIteration of client/runner.go: the requests chain of one page.
pub mod Laws
pub mod Fields
mod Tests
use skopos.Base.{
  ℕ, zero, suc, String, Bool, true, false, List, [], ◌∷◌, Option, none, some, Dict, insert, lookup,
  get_elem?, ◌==◌, nat_beq, if◌then◌else◌, Result, ok, err, msg, context, ◌>>=◌,
}
use skopos.Any.{Any, nil}
use skopos.Schema.Path.{RefPath}
use skopos.Schema.Value.{Predicate}
use skopos.Schema.Doc.{Doc, Request, FanOut, DecodeStage, json, is_row_oriented}
use skopos.Client.Platform.{Platform}
use skopos.Client.Scope.{Scope, Header}
use skopos.Client.Eval.{eval_predicate}
use skopos.Client.Exec.{Exec}
use skopos.Client.BodyPath.{strip_body_root, locate_events}
use skopos.Client.Extract.{StepResult, run_extracts}
use skopos.Client.Decode.{effective_decode}
use skopos.Client.Dispatch.{
  Environment, StepStatus, step_ok, step_skip, step_empty, step_invalidate, step_warn, step_break,
  unfinished,
}
use skopos.Client.FanOut.{FanOutResult, merged, invalidated, ended, run_fan_out}
use skopos.Client.Request.{run_request}

-- iterKind; iterFatal comes with an error only. `iter_unfinished` is the end of the model's fuel.
pub data IterKind : Type 0 where
  iter_accepted iter_skip iter_empty iter_invalidate iter_warn iter_break iter_unfinished : IterKind

-- iterationResult, with producerRan.
pub record IterationResult : Type 0 where
  pub kind : IterKind
  pub producer_body : Any
  pub producer_headers : Option Header
  pub events : Option (List Any)
  pub producer_ran : Bool

abbrev pub no_result : IterKind → IterationResult
no_result kind = record {
  kind = kind;
  producer_body = nil;
  producer_headers = none;
  events = none;
  producer_ran = false;
}

abbrev index_from : ℕ → List Request → Option ℕ
index_from i [] = none
index_from i (r ∷ rs) = elim r.events_at [ some p ↦ some i | none ↦ index_from (suc i) rs ]

-- producerIndex
unfoldable pub producer_index : Doc → Option ℕ
producer_index doc = index_from 0 doc.requests

abbrev pub is_producer : ℕ → Option ℕ → Bool
is_producer i none = false
is_producer i (some j) = nat_beq i j

abbrev or_missing : Option Any → Result Any
or_missing none = err (msg "events_at references a step with no captured body")
or_missing (some b) = ok b

-- locateProducerEvents
unfoldable pub locate_producer_events : Scope → Request → Any → Result (Option (List Any))
unfolding lookup strip_body_root locate_events effective_decode is_row_oriented
locate_producer_events s req body = elim req.events_at [
  | none ↦ err (msg "events_at")
  | some p ↦ do
    at ← context "events_at" (strip_body_root p)
    root ← if at.1 == "" then ok body else or_missing (lookup at.1 s.steps)
    context "locate events" (locate_events root at.0 (is_row_oriented (effective_decode req)))
]

-- s.steps[req.ID] and s.stepHeaders[req.ID], where the step has an id.
abbrev pub bind_step : String → Any → Option Header → Scope → Scope
bind_step id body h s =
    if id == ""
    then s
    else record s { steps = insert id body s.steps; step_headers = insert id h s.step_headers }

abbrev put_headers : String → Option Header → Dict (Option Header) → Dict (Option Header)
put_headers id none m = m
put_headers id (some h) m = insert id (some h) m

-- The same behind a fan-out, which binds headers only if it has some.
abbrev pub bind_fan_out : String → Any → Option Header → Scope → Scope
bind_fan_out id body h s =
    if id == ""
    then s
    else record s { steps = insert id body s.steps; step_headers = put_headers id h s.step_headers }

abbrev pub produced : Bool → Any → Option Header → IterationResult → IterationResult
produced false body h out = out
produced true body h out = record out {
  producer_body = body;
  producer_headers = h;
  producer_ran = true;
}

abbrev pub dropped : Bool → IterKind → IterationResult → IterationResult
dropped false kind out = out
dropped true kind out = record out {
  producer_body = nil;
  producer_headers = none;
  producer_ran = true;
  kind = kind;
}

-- The chain goes on with what it has so far, or stops for this iteration.
pub data ChainStep : Type 0 where
  go_on : IterationResult → ChainStep
  stop : IterKind → ChainStep

module _ (platform : Platform) (env : Environment) (doc : Doc) (fuel : ℕ) where
  gate_open : Option Predicate → Scope → Result Bool
  unfolding eval_predicate
  gate_open none s = ok true
  gate_open (some p) s = context "if" (eval_predicate platform s p)

  fan_out_step : Request → FanOut → Bool → IterationResult → Exec ChainStep
  unfolding run_fan_out insert
  fan_out_step req f producer out s =
      let (r, s') = run_fan_out platform env doc req f s in
      elim r [
        | err e ↦ (err e, s')
        | ok fr ↦ elim fr [
          | invalidated ↦ (ok (stop iter_invalidate), s')
          | ended ↦ (ok (stop iter_break), s')
          | merged body h ↦
              (ok (go_on (produced producer body h out)), bind_fan_out req.id body h s')
        ]
      ]

  -- The stepOK arm: extracts, step bindings, and the capture of the producer.
  accept_step : Request → StepResult → Bool → IterationResult → Exec ChainStep
  unfolding run_extracts insert
  accept_step req res producer out s =
      let (r, s') = run_extracts platform res req.extract s in
      elim r [
        | err e ↦ (context "extract" (err e), s')
        | ok u ↦ (
          ok (go_on (produced producer res.body res.headers out)),
          bind_step req.id res.body res.headers s',
        )
      ]

  plain_step : Request → Bool → IterationResult → Exec ChainStep
  unfolding run_request accept_step
  plain_step req producer out s =
      let (r, s') = run_request platform env doc req fuel s in
      elim r [
        | err e ↦ (err e, s')
        | ok status ↦ elim status [
          | step_ok res ↦ accept_step req res producer out s'
          | step_skip ↦ (ok (go_on (dropped producer iter_skip out)), s')
          | step_empty ↦ (ok (go_on (dropped producer iter_empty out)), s')
          | step_invalidate ↦ (ok (stop iter_invalidate), s')
          | step_warn ↦ (ok (stop iter_warn), s')
          | step_break ↦ (ok (stop iter_break), s')
          | unfinished ↦ (ok (stop iter_unfinished), s')
        ]
      ]

  -- One round of the loop over the requests, with scope.body and the headers unbound first.
  run_step : Request → Bool → IterationResult → Exec ChainStep
  unfolding gate_open fan_out_step plain_step
  run_step req producer out s =
      let s₁ = record s { body = nil; response_headers = none } in
      elim (gate_open req.gate s₁) [
        | err e ↦ (err e, s₁)
        | ok gate ↦ elim gate [
          | false ↦ (ok (go_on out), s₁)
          | true ↦ elim req.fan_out [
            | some f ↦ fan_out_step req f producer out s₁
            | none ↦ plain_step req producer out s₁
          ]
        ]
      ]

  run_chain : ℕ → List Request → IterationResult → Exec ChainStep
  unfolding run_step producer_index
  run_chain i [] out s = (ok (go_on out), s)
  run_chain i (req ∷ reqs) out s =
      let (r, s') = run_step req (is_producer i (producer_index doc)) out s in
      elim r [
        | err e ↦ (err e, s')
        | ok st ↦ elim st [
          | stop kind ↦ (ok (stop kind), s')
          | go_on out' ↦ run_chain (suc i) reqs out' s'
        ]
      ]

  -- doc.Requests[producerIdx], which is in range where the producer ran.
  abbrev producer_request : Option ℕ → Option Request
  producer_request none = none
  producer_request (some i) = get_elem? doc.requests i

  -- What follows the loop: no producer is a warning, and an accepted page has its events located.
  settle : IterationResult → Scope → Result IterationResult
  unfolding locate_producer_events producer_index
  settle out s = elim out.kind [
    | iter_accepted ↦
        if out.producer_ran
        then elim (producer_request (producer_index doc)) [
          | none ↦ err (msg "no producer")
          | some req ↦ do
            evs ← locate_producer_events s req out.producer_body
            ok (record out { events = evs })
        ]
        else ok (record out { kind = iter_warn })
    | _ ↦ ok out
  ]

  unfoldable pub run_iteration : Exec IterationResult
  unfolding run_chain settle
  run_iteration s =
      let (r, s') = run_chain 0 doc.requests (no_result iter_accepted) s in
      elim r [
        | err e ↦ (err e, s')
        | ok st ↦ elim st [
          | stop kind ↦ (ok (no_result kind), s')
          | go_on out ↦ (settle out s', s')
        ]
      ]

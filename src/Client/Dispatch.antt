-- ===== src/Client/Dispatch.antt =====
-- What a response or an error leads to: the dispatch of on_status and error.mode in client/runner.go
-- and client/fanout.go, and the environment that the runner asks.
use skopos.Base.{
  ℕ, String, Bool, true, false, List, [], ◌∷◌, Option, none, some, ◌==◌, if◌then◌else◌, Result, ok,
  err, msg, wrap, Error, unexpected_status, max_pages_exceeded, ◌>>=◌,
}
use skopos.Schema.Doc.{Doc, Request, on_status_action}
use skopos.Client.Exec.{Exec}
use skopos.Client.Extract.{StepResult}
use skopos.Client.Cache.{drop_reachable_caches}

-- What a drain is given beside its document: how a request is executed, ctx.Err at its n-th call,
-- and what Sink.Emit answers to its n-th event.
pub record Environment : Type 0 where
  pub execute_request : Request → Exec StepResult
  pub ctx_err : ℕ → Option Error
  pub emit_error : ℕ → Option Error

-- errorMode
unfoldable pub error_mode : Doc → String
error_mode doc = elim doc.error [
  | none ↦ "standard"
  | some b ↦ if b.mode == "" then "standard" else b.mode
]

-- asUnexpectedStatus
unfoldable pub as_unexpected_status : Error → Option ℕ
as_unexpected_status (msg t) = none
as_unexpected_status (wrap t e) = as_unexpected_status e
as_unexpected_status (unexpected_status code) = some code
as_unexpected_status (max_pages_exceeded n) = none

-- stepStatus, stepFatal left out: it comes with an error only. `unfinished` is a request loop that
-- was still running when the model's fuel ran out.
pub data StepStatus : Type 0 where
  step_ok : StepResult → StepStatus
  step_skip step_empty step_invalidate step_warn step_break unfinished : StepStatus

-- The default arm of both switches on the action, and the arm of errors with no status.
unfoldable pub dispatch_mode : String → Error → Result StepStatus
dispatch_mode mode e =
    if mode == "fail"
    then err (wrap "request" e)
    else if mode == "warn"
    then ok step_warn
    else ok step_break

abbrev pub nothing_cleared : List String → Bool
nothing_cleared [] = true
nothing_cleared (n ∷ ns) = false

-- The switch on req.OnStatus[status] of runRequest.
unfoldable pub dispatch_status : Doc → Request → ℕ → Exec StepStatus
unfolding on_status_action drop_reachable_caches dispatch_mode
dispatch_status doc req code s =
    let action = on_status_action code req.on_status in
    if action == "skip"
    then (ok step_skip, s)
    else if action == "fail"
    then (err (msg "on_status: fail"), s)
    else if action == "empty_events"
    then (ok step_empty, s)
    else if action == "invalidate_cache"
    then (let (cleared, s') = drop_reachable_caches doc s in
        (ok (if nothing_cleared cleared then step_empty else step_invalidate), s'))
    else (dispatch_mode (error_mode doc) (unexpected_status code), s)

-- What becomes of one item of a fan_out step.
pub data ItemVerdict : Type 0 where
  add_item : StepResult → ItemVerdict
  drop_item stop_invalidated stop_standard : ItemVerdict

abbrev pub item_of_step : StepStatus → ItemVerdict
item_of_step (step_ok res) = add_item res
item_of_step step_warn = drop_item
item_of_step _ = stop_standard

abbrev item_of_mode : Result StepStatus → Result ItemVerdict
item_of_mode r = r >>= λ st. ok (item_of_step st)

-- The same switch in runFanOut, where invalidate_cache stops the fan-out whatever it cleared.
unfoldable pub dispatch_item_status : Doc → Request → ℕ → Exec ItemVerdict
unfolding on_status_action drop_reachable_caches dispatch_mode
dispatch_item_status doc req code s =
    let action = on_status_action code req.on_status in
    if action == "skip"
    then (ok drop_item, s)
    else if action == "fail"
    then (err (msg "on_status: fail"), s)
    else if action == "empty_events"
    then (ok drop_item, s)
    else if action == "invalidate_cache"
    then (ok stop_invalidated, (drop_reachable_caches doc s).1)
    else (item_of_mode (dispatch_mode (error_mode doc) (unexpected_status code)), s)

unfoldable pub dispatch_error : Doc → Request → Error → Exec StepStatus
unfolding dispatch_status dispatch_mode as_unexpected_status
dispatch_error doc req e s = elim (as_unexpected_status e) [
  | some code ↦ dispatch_status doc req code s
  | none ↦ (dispatch_mode (error_mode doc) e, s)
]

unfoldable pub dispatch_item_error : Doc → Request → Error → Exec ItemVerdict
unfolding dispatch_item_status dispatch_mode as_unexpected_status
dispatch_item_error doc req e s = elim (as_unexpected_status e) [
  | some code ↦ dispatch_item_status doc req code s
  | none ↦ (item_of_mode (dispatch_mode (error_mode doc) e), s)
]

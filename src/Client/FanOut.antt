-- ===== src/Client/FanOut.antt =====
-- client/fanout.go.
pub mod Laws
pub mod Fields
mod Tests
use skopos.Base.{
  String, Bool, true, false, List, [], ◌∷◌, ◌++◌, Option, none, some, ◌==◌, if◌then◌else◌, Result,
  ok, err, msg, context, ◌>>=◌,
}
use skopos.Any.{Any, nil, list, elems, of_list, as_list}
use skopos.Schema.Doc.{Doc, Request, FanOut}
use skopos.Client.Platform.{Platform}
use skopos.Client.Scope.{Scope, Header}
use skopos.Client.Eval.{eval_value}
use skopos.Client.Exec.{Exec}
use skopos.Client.Extract.{StepResult, run_extracts}
use skopos.Client.Dispatch.{
  Environment, ItemVerdict, add_item, drop_item, stop_invalidated, stop_standard,
  dispatch_item_error,
}

-- coerceFanOutList
unfoldable pub coerce_fan_out_list : Any → Result (List Any)
coerce_fan_out_list nil = ok []
coerce_fan_out_list (list vs) = ok (elems vs)
coerce_fan_out_list v = err (msg "must resolve to a list")

-- The loop of the flatten arm.
flatten_bodies : List Any → Result (List Any)
flatten_bodies [] = ok []
flatten_bodies (b ∷ bs) = elim (as_list b) [
  | none ↦ err (msg "merge: flatten requires every per-item response body to be a list")
  | some vs ↦ do rest ← flatten_bodies bs; ok (vs ++ rest)
]

-- mergeFanOutBodies
unfoldable pub merge_fan_out_bodies : String → List Any → Result Any
unfolding flatten_bodies
merge_fan_out_bodies mode bodies =
    if mode == "flatten"
    then (do vs ← flatten_bodies bodies; ok (list (of_list vs)))
    else if mode == "wrap"
    then ok (list (of_list bodies))
    else err (msg "unknown merge mode")

-- fanOutResult: a merged body with the last headers, an iteration to retry, or one that ends the loop.
pub data FanOutResult : Type 0 where
  merged : Any → Option Header → FanOutResult
  invalidated ended : FanOutResult

-- Where the loop over the items stopped, with the bodies so far.
pub data ItemsEnd : Type 0 where
  all_items : List Any → Option Header → ItemsEnd
  invalidated_at : List Any → ItemsEnd
  ended_at : ItemsEnd

abbrev merge_mode : String → String
merge_mode mode = if mode == "" then "flatten" else mode

-- The code behind the label `done`: the bodies are merged first, also after an invalidation.
finish : String → ItemsEnd → Result FanOutResult
unfolding merge_fan_out_bodies
finish mode (all_items bodies h) = do
  body ← context "fan_out.merge" (merge_fan_out_bodies mode bodies)
  ok (merged body h)
finish mode (invalidated_at bodies) = do
  body ← context "fan_out.merge" (merge_fan_out_bodies mode bodies)
  ok invalidated
finish mode ended_at = ok ended

module _ (platform : Platform) (env : Environment) (doc : Doc) (req : Request) where
  -- The extracts of an item's response.
  unfoldable pub accept_item : StepResult → Exec ItemVerdict
  unfolding run_extracts
  accept_item res s =
      let (r, s') = run_extracts platform res req.extract s in
      (context "extract" (r >>= λ _. ok (add_item res)), s')

  unfoldable pub fan_out_item : Any → Exec ItemVerdict
  unfolding accept_item dispatch_item_error
  fan_out_item it s =
      let (r, s') = env.execute_request req (record s { item = it }) in
      elim r [ err e ↦ dispatch_item_error doc req e s' | ok res ↦ accept_item res s' ]

  unfoldable pub fan_out_items : List Any → List Any → Option Header → Exec ItemsEnd
  unfolding fan_out_item
  fan_out_items [] bodies h s = (ok (all_items bodies h), s)
  fan_out_items (it ∷ its) bodies h s =
      let (r, s') = fan_out_item it s in
      elim r [
        | err e ↦ (err e, s')
        | ok verdict ↦ elim verdict [
          | drop_item ↦ fan_out_items its bodies h s'
          | add_item res ↦ fan_out_items its (bodies ++ res.body ∷ []) res.headers s'
          | stop_invalidated ↦ (ok (invalidated_at bodies), s')
          | stop_standard ↦ (ok ended_at, s')
        ]
      ]

  -- The binding of the step around the loop, and the deferred restore behind it.
  unfoldable pub bind_items : FanOut → List Any → Exec FanOutResult
  unfolding fan_out_items finish
  bind_items f items s =
      let (r, s') = fan_out_items items [] none (record s { item_binding = f.alias }) in
      (
        r >>= finish (merge_mode f.merge),
        record s' { item = s.item; item_binding = s.item_binding },
      )

  unfoldable pub run_fan_out : FanOut → Exec FanOutResult
  unfolding bind_items eval_value coerce_fan_out_list
  run_fan_out f s =
      elim (context "fan_out.over" (eval_value platform s f.over >>= coerce_fan_out_list)) [
        | err e ↦ (err e, s)
        | ok items ↦ bind_items f items s
      ]

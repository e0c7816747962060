-- ===== src/Client/FanOut/Fields.antt =====
-- Which state fields a fan-out can change.
use skopos.Base.{
  String, ◌≡◌, ap, ◌∙◌, inl, inr, List, [], ◌∷◌, ◌++◌, Option, none, lookup, Error, context, ◌>>=◌,
  arith, Result-cases,
}
use skopos.Any.{Any}
use skopos.Schema.Doc.{Doc, Request, FanOut}
use skopos.Client.Platform.{Platform}
use skopos.Client.Scope.{Scope, Header}
use skopos.Client.Eval.{eval_value}
use skopos.Client.Lifetime.{extract_targets}
use skopos.Client.Lifetime.Targets.{Untargeted}
use skopos.Client.Extract.{StepResult}
use skopos.Client.Extract.Fields.{Same, run_extracts-Same}
use skopos.Client.Dispatch.{
  Environment, add_item, drop_item, stop_invalidated, stop_standard, dispatch_item_error,
  dispatch_item_status,
}
use skopos.Client.Cache.{drop_reachable_caches}
use skopos.Client.FanOut.{
  coerce_fan_out_list, accept_item, fan_out_item, fan_out_items, bind_items, run_fan_out,
}

dispatch_item_error-state :
    (doc : Doc) (req : Request) (e : Error) (s : Scope)
    → (dispatch_item_error doc req e s).1.state ≡ s.state
unfolding dispatch_item_error dispatch_item_status drop_reachable_caches
dispatch_item_error-state doc req e s = ground arith

module _ (platform : Platform) (env : Environment) (doc : Doc) (name : String) (s : Scope)
    (frame : (req : Request) (t : Scope) → Same name t (env.execute_request req t).1) where
  accept_item-Same :
      (req : Request) (res : StepResult) (t : Scope)
      → Untargeted (extract_targets req.extract) name
      → Same name s t
      → Same name s (accept_item platform env doc req res t).1
  unfolding accept_item
  accept_item-Same req res t free h = run_extracts-Same platform name s res req.extract t free h

  fan_out_item-Same :
      (req : Request) (it : Any) (t : Scope)
      → Untargeted (extract_targets req.extract) name
      → Same name s t
      → Same name s (fan_out_item platform env doc req it t).1
  unfolding fan_out_item
  fan_out_item-Same req it t free h =
      let bound : Scope = record t { item = it } in
      let t₁ = (env.execute_request req bound).1 in
      let h₁ = frame req bound ∙ h in
      elim (Result-cases (env.execute_request req bound).0) [
        | inr (e, failed) ↦
            rw (failed, fan_out_item)
              (ap (λ m. lookup name m) (dispatch_item_error-state doc req e t₁) ∙ h₁)
        | inl (res, sent) ↦ rw (sent, fan_out_item) (accept_item-Same req res t₁ free h₁)
      ]

  fan_out_items-Same :
      (req : Request) (its bodies : List Any) (hd : Option Header) (t : Scope)
      → Untargeted (extract_targets req.extract) name
      → Same name s t
      → Same name s (fan_out_items platform env doc req its bodies hd t).1
  unfolding fan_out_items
  fan_out_items-Same req [] bodies hd t free h = h
  fan_out_items-Same req (it ∷ its) bodies hd t free h =
      let t₁ = (fan_out_item platform env doc req it t).1 in
      let h₁ = fan_out_item-Same req it t free h in
      elim (Result-cases (fan_out_item platform env doc req it t).0) [
        | inr (e, failed) ↦ rw (failed, fan_out_items) h₁
        | inl (drop_item, got) ↦
            rw (got, fan_out_items) (fan_out_items-Same req its bodies hd t₁ free h₁)
        | inl (add_item res, got) ↦
            rw (got, fan_out_items)
              (fan_out_items-Same req its (bodies ++ res.body ∷ []) res.headers t₁ free h₁)
        | inl (stop_invalidated, got) ↦ rw (got, fan_out_items) h₁
        | inl (stop_standard, got) ↦ rw (got, fan_out_items) h₁
      ]

  pub run_fan_out-Same :
      (req : Request) (f : FanOut) (t : Scope)
      → Untargeted (extract_targets req.extract) name
      → Same name s t
      → Same name s (run_fan_out platform env doc req f t).1
  unfolding run_fan_out bind_items
  run_fan_out-Same req f t free h =
      elim (Result-cases
        (context "fan_out.over" (eval_value platform t f.over >>= coerce_fan_out_list))) [
          | inr (e, failed) ↦ rw (failed, run_fan_out) h
          | inl (items, got) ↦
              rw (got, run_fan_out)
                (fan_out_items-Same req items [] none (record t { item_binding = f.alias }) free h)
        ]

-- ===== src/Client/Runner/Delivery.antt =====
-- What of a page reaches the sink before anything of it reaches the state.
use skopos.Base.{
  String, subst, Bool-cases, ◌≡◌, refl, sym, ap, ◌∙◌, ◌⊎◌, ◌++◌, inl, inr, Bool, true, false, List,
  [], ◌∷◌, none, some, ok, Error, arith, Option-cases, length, lookup, contains,
}
use mathlib.Core.List.{append-nil, append_assoc}
use skopos.Any.{Any}
use skopos.Schema.Doc.{Doc}
use skopos.Client.Platform.{Platform}
use skopos.Client.Scope.{Scope}
use skopos.Client.Lifetime.{per_drain_scratch_fields}
use skopos.Client.Progress.Frame.{Frame}
use skopos.Client.Pagination.{Plan, make_pagination_plan, advance}
use skopos.Client.Pagination.Laws.{advance-Frame}
use skopos.Client.Dispatch.{Environment}
use skopos.Client.Iteration.{
  IterKind, iter_invalidate, iter_warn, iter_break, iter_unfinished, IterationResult,
}
use skopos.Client.Runner.{
  Drain, Pass, returned, move_on, deliver, settle_page, emit_all, events_of, bind_page,
  progress_step,
}

abbrev delivers : IterKind → Bool
delivers iter_break = false
delivers iter_invalidate = false
delivers iter_unfinished = false
delivers kind = true

module _ (platform : Platform) (env : Environment) (doc : Doc) where
  emit_all-delivered :
      (evs got : List Any)
      → (emit_all platform env doc evs got).0 ≡ none
      → (emit_all platform env doc evs got).1 ≡ got ++ evs
  unfolding emit_all
  emit_all-delivered [] got h = sym (append-nil got)
  emit_all-delivered (ev ∷ evs) got h = elim (Option-cases (env.emit_error (length got))) [
    | inr (e, failed) ↦ cc (rw (failed, emit_all) at h)
    | inl took ↦
        rw (took, emit_all)
          (emit_all-delivered evs (got ++ ev ∷ []) (rw (took, emit_all) at h)
            ∙ append_assoc got (ev ∷ []) evs)
  ]

  move_on-delivered :
      (plan : Plan) (kind : IterKind) (d : Drain)
      → (move_on platform env doc plan kind d).1.delivered ≡ d.delivered
  unfolding move_on
  move_on-delivered plan kind d = ground arith

  Deliveries : Plan → IterationResult → Drain → Pass × Drain → Type 0
  Deliveries plan out d after =
      (after.1.delivered ≡ d.delivered ++ events_of out)
      ⊎ ((e : Error) × (after.0 ≡ returned (some e)) × (after.1.scope ≡ bind_page out d.scope))

  deliver-delivered :
      (plan : Plan) (out : IterationResult) (d : Drain)
      → Deliveries plan out d (deliver platform env doc plan out d)
  unfolding deliver Deliveries
  deliver-delivered plan out d =
      let sent = emit_all platform env doc (events_of out) d.delivered in
      let d' : Drain = record d { scope = bind_page out d.scope; delivered = sent.1 } in
      elim (Option-cases sent.0) [
        | inl all ↦
            rw (all, deliver)
              (inl (
                move_on-delivered plan out.kind d'
                ∙ emit_all-delivered (events_of out) d.delivered all))
        | inr (e, failed) ↦ rw (failed, deliver) (inr (e, refl, refl))
      ]

  settle_page-deliver :
      (plan : Plan) (out : IterationResult) (d : Drain)
      → delivers out.kind ≡ true
      → settle_page platform env doc plan out d ≡ deliver platform env doc plan out d
  unfolding settle_page
  settle_page-deliver plan out d h = ground arith

  settle_page-stopped :
      (plan : Plan) (out : IterationResult) (d : Drain)
      → delivers out.kind ≡ false
      → ((settle_page platform env doc plan out d).1 ≡ d) × (events_of out ≡ [])
  unfolding settle_page
  settle_page-stopped plan out d h = ground arith

  -- Events are delivered at least once: either the page's events have all gone to the sink, behind
  -- those of the pages before, or the drain returns an error and its scope is the one that the page
  -- was read into, with no progress written and no page advanced.
  pub settle_page-delivered :
      (plan : Plan) (out : IterationResult) (d : Drain)
      → let after = settle_page platform env doc plan out d in
        (after.1.delivered ≡ d.delivered ++ events_of out)
        ⊎ ((e : Error) × (after.0 ≡ returned (some e)) × (after.1.scope ≡ bind_page out d.scope))
  unfolding Deliveries
  settle_page-delivered plan out d = elim (Bool-cases (delivers out.kind)) [
    | inl goes ↦
        subst (Deliveries plan out d) (sym (settle_page-deliver plan out d goes))
          (deliver-delivered plan out d)
    | inr stops ↦
        let (same, nothing) = settle_page-stopped plan out d stops in
        inl (
          ap (λ (a : Drain). a.delivered) same
          ∙ sym (append-nil d.delivered)
          ∙ ap (λ (l : List Any). d.delivered ++ l) (sym nothing))
  ]

  move_on_warn :
      (plan : Plan) (d : Drain)
      → (move_on platform env doc plan iter_warn d).1.scope ≡ (advance platform plan d.scope).1
  unfolding move_on progress_step
  move_on_warn plan d = ground arith

  deliver_warn :
      (plan : Plan) (out : IterationResult) (d : Drain) (name : String)
      → out.kind ≡ iter_warn
      → Frame (bind_page out d.scope) name (advance platform plan (bind_page out d.scope)).1
      → lookup name (deliver platform env doc plan out d).1.scope.state ≡ lookup name d.scope.state
  unfolding deliver
  deliver_warn plan out d name warn f =
      let sent = emit_all platform env doc (events_of out) d.delivered in
      let d' : Drain = record d { scope = bind_page out d.scope; delivered = sent.1 } in
      elim (Option-cases sent.0) [
        | inr (e, failed) ↦ rw (failed, deliver) refl
        | inl all ↦
            rw (all, deliver)
              (ap (λ k. lookup name (move_on platform env doc plan k d').1.scope.state) warn
                ∙ ap (λ (t : Scope). lookup name t.state) (move_on_warn plan d')
                ∙ f.field)
      ]

  -- A page that ended as a warning leaves the value of every field alone that is no pagination target,
  -- under the plan that the document's pagination gives.
  pub settle_page-warn :
      (plan : Plan) (out : IterationResult) (d : Drain) (name : String)
      → make_pagination_plan doc.pagination ≡ ok plan
      → out.kind ≡ iter_warn
      → contains name (per_drain_scratch_fields doc) ≡ false
      → lookup name (settle_page platform env doc plan out d).1.scope.state
        ≡ lookup name d.scope.state
  settle_page-warn plan out d name made warn kept =
      ap (λ (a : Pass × Drain). lookup name a.1.scope.state)
        (settle_page-deliver plan out d (ground arith))
      ∙ deliver_warn plan out d name warn
          (advance-Frame platform doc plan (bind_page out d.scope) name made kept)

-- ===== src/Client/Emitter/Laws.antt =====
-- The asynchronous emitter delivers what the synchronous one does, in a bounded queue, and does not
-- block for ever.
use mathlib.Core.List.{append_assoc}
use skopos.Base.{
  inl, inr, Option-cases, ℕ, ◌≤◌, ◌<◌, ◌≡◌, ◌≢◌, refl, sym, ap, ◌∙◌, Bool, true, false, List, [],
  ◌∷◌, ◌++◌, Option, none, some, Error, wrap, length, length-append, arith,
}
use skopos.Any.{Any}
use skopos.Schema.Doc.{Doc}
use skopos.Client.Platform.{Platform}
use skopos.Client.Dispatch.{Environment}
use skopos.Client.Runner.{emit_all}
use skopos.Client.Emitter.{
  Emitter, Step, check, give_up, send, receive, drop, take, fail, close, exit, Reach, created, next,
}

abbrev held : Option Any → List Any
held none = []
held (some ev) = ev ∷ []

-- The events on their way, the oldest first.
abbrev pending : Emitter → List Any
pending s = held s.in_hand ++ (s.queue ++ (held s.sending ++ s.todo))

-- The error as Drain returns it.
abbrev pub returned_error : Option Error → Option Error
returned_error none = none
returned_error (some e) = some (wrap "sink.Emit" e)

-- After the consumer is done nothing is on its way.
abbrev Settled : Emitter → Type 0
Settled s =
    (s.closed ≡ true → (s.sending ≡ none) × (s.todo ≡ []))
    × (s.done ≡ true → (s.closed ≡ true) × (s.queue ≡ []) × (s.in_hand ≡ none))

module _ (platform : Platform) (env : Environment) (doc : Doc) where
  -- What the synchronous emitter does with the events, as far as the asynchronous one has come.
  abbrev Follows : List Any → Option Error → Emitter → Type 0
  Follows evs none s =
      emit_all platform env doc evs [] ≡ emit_all platform env doc (pending s) s.emitted
  Follows evs (some e) s = emit_all platform env doc evs [] ≡ (some (wrap "sink.Emit" e), s.emitted)

  Follows-of_pending :
      (evs : List Any) (e : Option Error) (s t : Emitter)
      → pending s ≡ pending t
      → s.emitted ≡ t.emitted
      → Follows evs e s
      → Follows evs e t
  Follows-of_pending evs none s t same taken h = rw (← same, ← taken) h
  Follows-of_pending evs (some e) s t same taken h = rw (← taken) h

  -- With nothing on its way the synchronous emitter is at its end.
  Follows-end :
      (evs : List Any) (e : Option Error) (s : Emitter)
      → pending s ≡ []
      → Follows evs e s
      → emit_all platform env doc evs [] ≡ (returned_error e, s.emitted)
  unfolding emit_all
  Follows-end evs none s empty h = h ∙ ap (λ l. emit_all platform env doc l s.emitted) empty
  Follows-end evs (some e) s empty h = h

  emit_all-took :
      (ev : Any) (evs got : List Any)
      → env.emit_error (length got) ≡ none
      → emit_all platform env doc (ev ∷ evs) got ≡ emit_all platform env doc evs (got ++ ev ∷ [])
  unfolding emit_all
  emit_all-took ev evs got took = rw (took, emit_all) refl

  emit_all-failed :
      (ev : Any) (evs got : List Any) (e : Error)
      → env.emit_error (length got) ≡ some e
      → emit_all platform env doc (ev ∷ evs) got ≡ (some (wrap "sink.Emit" e), got)
  unfolding emit_all
  emit_all-failed ev evs got e failed = rw (failed, emit_all) refl

  Step-Follows :
      {buffer : ℕ} {s t : Emitter} (evs : List Any)
      → Step env buffer s t
      → Follows evs s.error s
      → Follows evs t.error t
  Step-Follows evs (check s ev todo) h = h
  Step-Follows evs (give_up s ev todo e) h = h
  Step-Follows evs (send s ev room) h =
      Follows-of_pending evs s.error (record s { sending = some ev })
        (record s { sending = none; queue = s.queue ++ ev ∷ [] })
        (ap (λ (l : List Any). held s.in_hand ++ l) (sym (append_assoc s.queue (ev ∷ []) s.todo)))
        refl h
  Step-Follows evs (receive s ev queue) h =
      Follows-of_pending evs s.error (record s { queue = ev ∷ queue; in_hand = none })
        (record s { queue = queue; in_hand = some ev }) refl refl h
  Step-Follows evs (drop s ev e) h = h
  Step-Follows evs (take s ev took) h = h ∙ emit_all-took ev _ s.emitted took
  Step-Follows evs (fail s ev e failed) h = h ∙ emit_all-failed ev _ s.emitted e failed
  Step-Follows evs (close s) h =
      Follows-of_pending evs s.error (record s { todo = []; sending = none; closed = false })
        (record s { todo = []; sending = none; closed = true }) refl refl h
  Step-Follows evs (exit s) h =
      Follows-of_pending evs s.error
        (record s { queue = []; in_hand = none; closed = true; done = false })
        (record s { queue = []; in_hand = none; closed = true; done = true }) refl refl h

  Reach-Follows :
      {buffer : ℕ} (evs : List Any) {s : Emitter} → Reach env buffer evs s → Follows evs s.error s
  Reach-Follows evs created = refl
  Reach-Follows evs (next r st) = Step-Follows evs st (Reach-Follows evs r)

some-ne-none : (ev : Any) → some ev ≢ none
some-ne-none ev h = cc

module _ (env : Environment) where
  Step-Settled : {buffer : ℕ} {s t : Emitter} → Step env buffer s t → Settled s → Settled t
  Step-Settled (check s ev todo) (c, d) = (λ h. absurd (cc ((c h).1)), d)
  Step-Settled (give_up s ev todo e) (c, d) = (λ h. absurd (cc ((c h).1)), d)
  Step-Settled (send s ev room) (c, d) =
      (λ h. absurd (some-ne-none ev (c h).0), λ h. absurd (some-ne-none ev (c (d h).0).0))
  Step-Settled (receive s ev queue) (c, d) = (c, λ h. absurd (cc ((d h).1)))
  Step-Settled (drop s ev e) (c, d) = (c, λ h. absurd (cc ((d h).2)))
  Step-Settled (take s ev took) (c, d) = (c, λ h. absurd (cc ((d h).2)))
  Step-Settled (fail s ev e failed) (c, d) = (c, λ h. absurd (cc ((d h).2)))
  Step-Settled (close s) (c, d) = (λ h. (refl, refl), λ h. (refl, (d h).1, (d h).2))
  Step-Settled (exit s) (c, d) = (c, λ h. (refl, refl, refl))

  Reach-Settled : {buffer : ℕ} {evs : List Any} {s : Emitter} → Reach env buffer evs s → Settled s
  Reach-Settled created = (λ h. cc, λ h. cc)
  Reach-Settled (next r st) = Step-Settled st (Reach-Settled r)

  Step-bounded :
      {buffer : ℕ} {s t : Emitter}
      → Step env buffer s t
      → length s.queue ≤ buffer
      → length t.queue ≤ buffer
  Step-bounded (check s ev todo) h = h
  Step-bounded (give_up s ev todo e) h = h
  Step-bounded (send s ev room) h = omega (arith, length-append s.queue (ev ∷ []))
  Step-bounded (receive s ev queue) h = omega arith
  Step-bounded (drop s ev e) h = h
  Step-bounded (take s ev took) h = h
  Step-bounded (fail s ev e failed) h = h
  Step-bounded (close s) h = h
  Step-bounded (exit s) h = h

  -- The channel never holds more events than its depth.
  pub Reach-bounded :
      {buffer : ℕ} {evs : List Any} {s : Emitter} → Reach env buffer evs s → length s.queue ≤ buffer
  Reach-bounded created = omega arith
  Reach-bounded (next r st) = Step-bounded st (Reach-bounded r)

  abbrev state :
      List Any
      → List Any
      → List Any
      → Option Any
      → Option Any
      → Option Error
      → Bool
      → Bool
      → Emitter
  state todo queue emitted sending in_hand error closed done = record {
    todo = todo;
    sending = sending;
    queue = queue;
    in_hand = in_hand;
    emitted = emitted;
    error = error;
    closed = closed;
    done = done;
  }

  Step_from :
      (todo queue emitted : List Any) (sending in_hand : Option Any) (error : Option Error)
      (closed done : Bool) {buffer : ℕ}
      → 0 < buffer
      → done ≡ false
      → (t : Emitter) × Step env buffer
          (state todo queue emitted sending in_hand error closed done)
          t
  Step_from l q got p (some ev) (some e) c d room h =
      (_, drop (state l q got p (some ev) (some e) c d) ev e)
  Step_from l q got p (some ev) none c d room h =
      elim (Option-cases (env.emit_error (length got))) [
        | inl took ↦ (_, take (state l q got p (some ev) none c d) ev took)
        | inr (e, failed) ↦ (_, fail (state l q got p (some ev) none c d) ev e failed)
      ]
  Step_from l (ev ∷ q) got p none e c d room h =
      (_, receive (state l (ev ∷ q) got p none e c d) ev q)
  Step_from l [] got (some ev) none e c d room h =
      (_, send (state l [] got (some ev) none e c d) ev room)
  Step_from (ev ∷ l) [] got none none none c d room h =
      (_, check (state (ev ∷ l) [] got none none none c d) ev l)
  Step_from (ev ∷ l) [] got none none (some e) c d room h =
      (_, give_up (state (ev ∷ l) [] got none none (some e) c d) ev l e)
  Step_from [] [] got none none e false d room h = (_, close (state [] [] got none none e false d))
  Step_from [] [] got none none e true false room h =
      (_, exit (state [] [] got none none e true false))
  Step_from [] [] got none none e true true room h = cc

-- In every interleaving of the two goroutines, once the consumer is done the sink has taken the events
-- that the synchronous emitter hands it, in that order, and the error that close returns is the one
-- that stops the synchronous emitter, or none where that has none.
pub Reach-emit_all :
    (platform : Platform) (env : Environment) (doc : Doc) (buffer : ℕ) (evs : List Any)
    (s : Emitter)
    → Reach env buffer evs s
    → s.done ≡ true
    → emit_all platform env doc evs [] ≡ (returned_error s.error, s.emitted)
unfolding emit_all
Reach-emit_all platform env doc buffer evs s r done =
    let (closed_first, emptied) = Reach-Settled env r in
    let (closed, queue, in_hand) = emptied done in
    let (sending, todo) = closed_first closed in
    Follows-end platform env doc evs s.error s (rw (in_hand, queue, sending, todo) refl)
      (Reach-Follows platform env doc evs r)

-- The two goroutines do not block each other: with a channel of some depth, some action is possible in
-- every state until the consumer is done.
pub Step_possible :
    (env : Environment) (buffer : ℕ) (s : Emitter)
    → 0 < buffer
    → s.done ≡ false
    → (t : Emitter) × Step env buffer s t
Step_possible env buffer s room running =
    Step_from env s.todo s.queue s.emitted s.sending s.in_hand s.error s.closed s.done room running

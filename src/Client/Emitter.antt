-- ===== src/Client/Emitter.antt =====
-- client/emitter.go: the asynchronous emitter as a step relation on the drain's goroutine, the channel
-- and the consumer.
pub mod Laws
mod Tests
use skopos.Base.{
  ℕ, ◌<◌, ◌≡◌, Bool, true, false, List, [], ◌∷◌, ◌++◌, Option, none, some, Error, length,
}
use skopos.Any.{Any}
use skopos.Client.Dispatch.{Environment}

-- asyncEmitter between the atomic actions of its two goroutines. `todo` is what the drain has still
-- to emit, `sending` the event of a call of emit that found no error and waits for the channel, and
-- `in_hand` the event that the consumer has received.
pub record Emitter : Type 0 where
  pub todo : List Any
  pub sending : Option Any
  pub queue : List Any
  pub in_hand : Option Any
  pub emitted : List Any
  pub error : Option Error
  pub closed : Bool
  pub done : Bool

-- newAsyncEmitter, with the events that the drain will emit.
abbrev pub new_emitter : List Any → Emitter
new_emitter evs = record {
  todo = evs;
  sending = none;
  queue = [];
  in_hand = none;
  emitted = [];
  error = none;
  closed = false;
  done = false;
}

-- One action of either goroutine, over a channel of depth `buffer`.
pub data Step (env : Environment) (buffer : ℕ) : Emitter → Emitter → Type 0 where
  -- emit: firstErr() == nil
  check :
      (s : Emitter) (ev : Any) (evs : List Any)
      → Step env buffer
          (record s { todo = ev ∷ evs; sending = none; error = none })
          (record s { todo = evs; sending = some ev; error = none })
  -- emit: firstErr() != nil, and the drain emits no more
  give_up :
      (s : Emitter) (ev : Any) (evs : List Any) (e : Error)
      → Step env buffer
          (record s { todo = ev ∷ evs; sending = none; error = some e })
          (record s { todo = []; sending = none; error = some e })
  -- e.ch <- ev, once the channel has room
  send :
      (s : Emitter) (ev : Any)
      → length s.queue < buffer
      → Step env buffer
          (record s { sending = some ev })
          (record s { sending = none; queue = s.queue ++ ev ∷ [] })
  -- the consumer takes the oldest event
  receive :
      (s : Emitter) (ev : Any) (evs : List Any)
      → Step env buffer
          (record s { queue = ev ∷ evs; in_hand = none })
          (record s { queue = evs; in_hand = some ev })
  -- consume: an event after the first error is dropped
  drop :
      (s : Emitter) (ev : Any) (e : Error)
      → Step env buffer
          (record s { in_hand = some ev; error = some e })
          (record s { in_hand = none; error = some e })
  -- consume: Sink.Emit takes the event
  take :
      (s : Emitter) (ev : Any)
      → env.emit_error (length s.emitted) ≡ none
      → Step env buffer
          (record s { in_hand = some ev; error = none })
          (record s { in_hand = none; error = none; emitted = s.emitted ++ ev ∷ [] })
  -- consume: Sink.Emit fails, and setErr
  fail :
      (s : Emitter) (ev : Any) (e : Error)
      → env.emit_error (length s.emitted) ≡ some e
      → Step env buffer
          (record s { in_hand = some ev; error = none })
          (record s { in_hand = none; error = some e })
  -- close(e.ch)
  close :
      (s : Emitter)
      → Step env buffer
          (record s { todo = []; sending = none; closed = false })
          (record s { todo = []; sending = none; closed = true })
  -- the consumer's range ends, and close(e.done)
  exit :
      (s : Emitter)
      → Step env buffer
          (record s { queue = []; in_hand = none; closed = true; done = false })
          (record s { queue = []; in_hand = none; closed = true; done = true })

-- The states that the emitter can reach from its creation.
pub data Reach (env : Environment) (buffer : ℕ) (evs : List Any) : Emitter → Type 0 where
  created : Reach env buffer evs (new_emitter evs)
  next : {s t : Emitter} → Reach env buffer evs s → Step env buffer s t → Reach env buffer evs t

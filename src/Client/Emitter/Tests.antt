-- ===== src/Client/Emitter/Tests.antt =====
-- One event through the asynchronous emitter.
use skopos.Base.{◌≡◌, refl, true, List, [], ◌∷◌, none, some, arith, pos}
use skopos.Any.{Any, int}
use skopos.Client.Runner.{emit_all}
use skopos.Client.Emitter.{
  Emitter, new_emitter, Step, Reach, created, next, check, send, receive, take, close, exit,
}
use skopos.Client.Emitter.Laws.{returned_error, Reach-emit_all, Step_possible}
use skopos.Client.Samples.{platform, env, doc}

abbrev one : List Any
one = int (pos 7) ∷ []

abbrev checked : Emitter
checked = record (new_emitter one) { todo = []; sending = some (int (pos 7)) }

abbrev sent : Emitter
sent = record (new_emitter one) { todo = []; queue = one }

abbrev shut : Emitter
shut = record sent { closed = true }

abbrev received : Emitter
received = record shut { queue = []; in_hand = some (int (pos 7)) }

abbrev taken : Emitter
taken = record received { in_hand = none; emitted = one }

abbrev ended : Emitter
ended = record taken { done = true }

reaches_shut : Reach env 1 one shut
reaches_shut =
    next
      (next (next created (check (new_emitter one) (int (pos 7)) []))
        (send checked (int (pos 7)) (omega arith)))
      (close sent)

reaches : Reach env 1 one ended
reaches =
    next
      (next (next reaches_shut (receive shut (int (pos 7)) [])) (take received (int (pos 7)) refl))
      (exit taken)

Reach-emit_all_example :
    emit_all platform env doc one [] ≡ (returned_error ended.error, ended.emitted)
Reach-emit_all_example = Reach-emit_all platform env doc 1 one ended reaches refl

Step_possible_example : (t : Emitter) × Step env 1 shut t
Step_possible_example = Step_possible env 1 shut (omega arith) refl

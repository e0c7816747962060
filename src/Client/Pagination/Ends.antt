-- ===== src/Client/Pagination/Ends.antt =====
-- How an advance ends: without a write if the loop is over, and with the next number if a counter
-- goes on.
use skopos.Base.{
  String, ◌≡◌, inl, inr, Bool, true, false, some, ℤ, pos, ◌+ℤ◌, wrap64, lookup, insert,
  if◌then◌else◌, Result, ok, err, context, ◌>>=◌, Result-cases,
}
use skopos.Any.{int}
use skopos.Schema.Doc.{CounterPagination}
use skopos.Client.Platform.{Platform}
use skopos.Client.Scope.{Scope}
use skopos.Client.Exec as Exec
use skopos.Client.Exec.{Exec, pure, reads, modify, labelled, continue}
use skopos.Client.Lifetime.{state_field_name}
use skopos.Client.Pagination.{
  Plan, single_page, cursor_token, next_url, counter, custom, pagination_state_field, advance_to,
  advance_cursor_token, advance_next_url, resolve_int, current, counter_done, count_on,
  advance_counter, write_advance, advance_custom, advance,
}
use skopos.Client.Pagination.Laws.{target_of_field}

-- A block that writes only if it answers false, or fails.
record EndsUnchanged (m : Exec Bool) : Type 0 where
  at : (s s' : Scope) → m s ≡ (ok true, s') → s' ≡ s

EndsUnchanged-pure : (b : Bool) → EndsUnchanged (pure b)
EndsUnchanged-pure b = record { at = λ s s' h. cc }

module _ {A : Type 0} where
  EndsUnchanged-continue :
      (r : Result A) (f : A → Exec Bool) (s s' : Scope)
      → ((a : A) → EndsUnchanged (f a))
      → continue r f s ≡ (ok true, s')
      → s' ≡ s
  EndsUnchanged-continue (ok a) f s s' k h = (k a).at s s' h
  EndsUnchanged-continue (err e) f s s' k h = cc

  EndsUnchanged-reads :
      (g : Scope → Result A) (f : A → Exec Bool)
      → ((a : A) → EndsUnchanged (f a))
      → EndsUnchanged (Exec.◌>>=◌ (reads g) f)
  EndsUnchanged-reads g f k = record { at = λ s s' h. EndsUnchanged-continue (g s) f s s' k h }

  -- A block whose last line is `return false, nil`.
  answers_false :
      (r : Result A) (s s₁ s' : Scope)
      → (◌≡◌ {A = Result Bool × Scope} (continue r (λ a. pure false) s₁) (ok true, s'))
      → s' ≡ s
  answers_false (ok a) s s₁ s' h = cc
  answers_false (err e) s s₁ s' h = cc

  EndsUnchanged-false : (m : Exec A) → EndsUnchanged (Exec.◌>>◌ m (pure false))
  EndsUnchanged-false m = record { at = λ s s' h. answers_false (m s).0 s (m s).1 s' h }

EndsUnchanged-if :
    (b : Bool) (m n : Exec Bool)
    → EndsUnchanged m
    → EndsUnchanged n
    → EndsUnchanged (if b then m else n)
EndsUnchanged-if true m n km kn = km
EndsUnchanged-if false m n km kn = kn

ruleset ends_rules =
    (EndsUnchanged-pure, EndsUnchanged-reads, EndsUnchanged-false, EndsUnchanged-if)

module _ (platform : Platform) where
  EndsUnchanged-advance : (plan : Plan) → EndsUnchanged (advance platform plan)
  unfolding advance advance_cursor_token advance_next_url advance_counter advance_custom advance_to
      count_on write_advance
  EndsUnchanged-advance single_page = search ends_rules
  EndsUnchanged-advance (cursor_token c) = search ends_rules
  EndsUnchanged-advance (next_url c) = search ends_rules depth 8
  EndsUnchanged-advance (counter c) = search ends_rules depth 8
  EndsUnchanged-advance (custom c) = search ends_rules

  -- An advance that ends the loop has left the scope as it was.
  pub advance_unchanged :
      (plan : Plan) (s s' : Scope) → advance platform plan s ≡ (ok true, s') → s' ≡ s
  advance_unchanged plan s s' h = (EndsUnchanged-advance plan).at s s' h

  -- The number that a counter's field holds before the page.
  abbrev pub counter_before : CounterPagination → String → Scope → Result ℤ
  counter_before c name s = resolve_int platform c.start (pos 1) s >>= λ start.
      current platform (lookup name s.state) start

  counted :
      (c : CounterPagination) (step : ℤ) (s s' : Scope)
      → count_on platform c step s ≡ (ok false, s')
      → (name : String) × (n : ℤ) × (state_field_name c.to ≡ some name)
        × (counter_before c name s ≡ ok n)
        × (s' ≡ record s { state = insert name (int (wrap64 (n +ℤ step))) s.state })
  unfolding count_on
  counted c step s s' h = elim (Result-cases (resolve_int platform c.start (pos 1) s)) [
    | inr (e, failed) ↦ cc (rw (failed, count_on) at h)
    | inl (start, started) ↦
        let field = context "pagination.counter.to" (pagination_state_field c.to) in
        elim (Result-cases field) [
          | inr (e, failed) ↦ cc (rw (started, failed, count_on) at h)
          | inl (name, found) ↦ elim (Result-cases (current platform (lookup name s.state) start)) [
            | inr (e, failed) ↦ cc (rw (started, found, failed, count_on) at h)
            | inl (n, held) ↦
                let left = rw (started, found, held, count_on) at h in
                (
                  name,
                  n,
                  target_of_field "pagination.counter.to" c.to name found,
                  rw (started, counter_before) held,
                  cc,
                )
          ]
        ]
  ]

  -- A counter that does not end the loop has written its field: the number it held before, or start
  -- where it held none, plus step, in the arithmetic of int64.
  pub advance_counter-counts :
      (c : CounterPagination) (s s' : Scope)
      → advance_counter platform c s ≡ (ok false, s')
      → (name : String) × (step n : ℤ) × (state_field_name c.to ≡ some name)
        × (resolve_int platform c.step (pos 1) s ≡ ok step)
        × (counter_before c name s ≡ ok n)
        × (s' ≡ record s { state = insert name (int (wrap64 (n +ℤ step))) s.state })
  unfolding advance_counter count_on
  advance_counter-counts c s s' h = elim (Result-cases (resolve_int platform c.step (pos 1) s)) [
    | inr (e, failed) ↦ cc (rw (failed, advance_counter) at h)
    | inl (step, stepped) ↦ elim (Result-cases (counter_done platform c.terminate_when step s)) [
      | inr (e, failed) ↦ cc (rw (stepped, failed, advance_counter) at h)
      | inl (true, over) ↦ cc (rw (stepped, over, advance_counter) at h)
      | inl (false, more) ↦
          let (name, n, target, before, same) =
            counted c step s s' (rw (stepped, more, advance_counter) at h) in
          (name, step, n, target, stepped, before, same)
    ]
  ]

-- ===== src/Client/Pagination.antt =====
-- client/pagination.go: the advance of each variant, once per page.
pub mod Laws
pub mod Ends
pub mod Counts
pub mod Valid
mod Tests
use skopos.Base.{
  String, Bool, true, false, not, ◌&&◌, ◌||◌, List, [], ◌∷◌, Option, none, some, ℤ, pos, ◌+ℤ◌,
  wrap64, ltb_ℤ, lookup, insert, ◌==◌, if◌then◌else◌, Result, ok, err, msg, context,
}
use skopos.Base as Base
use skopos.Any.{Any, nil, int, is_nil}
use skopos.Schema.Path.{RefPath, of_parts}
use skopos.Schema.Value.{Value, Predicate}
use skopos.Schema.Doc.{
  Doc, Write, Pagination, CursorTokenPagination, NextUrlPagination, CounterPagination,
  CustomPagination,
}
use skopos.Client.Platform.{Platform}
use skopos.Client.Coerce.{is_zero_runtime, to_int, as_int64}
use skopos.Client.Scope.{Scope}
use skopos.Client.Refs.{resolve_namespace_ref}
use skopos.Client.Eval.{eval_value, eval_predicate, apply_regex}
use skopos.Client.Exec.{Exec, pure, raise, reads, modify, labelled, ◌>>=◌, ◌>>◌}
use skopos.Client.Lifetime.{state_field_name}
use skopos.Client.Progress.{with_regex, apply_progress}

-- makePaginationPlan: the first variant that is set.
pub data Plan : Type 0 where
  single_page : Plan
  cursor_token : CursorTokenPagination → Plan
  next_url : NextUrlPagination → Plan
  counter : CounterPagination → Plan
  custom : CustomPagination → Plan

unfoldable pub make_pagination_plan : Pagination → Result Plan
make_pagination_plan p = if p.single_page then ok single_page else elim p.cursor_token [
  | some c ↦ ok (cursor_token c)
  | none ↦ elim p.next_url [
    | some u ↦ ok (next_url u)
    | none ↦ elim p.counter [
      | some c ↦ ok (counter c)
      | none ↦ elim p.custom [
        | some c ↦ ok (custom c)
        | none ↦ err (msg "pagination: no variant set")
      ]
    ]
  ]
]

abbrev or_error : Option String → Result String
or_error none = err (msg "to must be state.<name>")
or_error (some name) = ok name

-- paginationStateField
pub pagination_state_field : RefPath → Result String
unfolding state_field_name
pagination_state_field p = or_error (state_field_name p)

abbrev pub absent_or_zero : Option Any → Bool
absent_or_zero none = true
absent_or_zero (some v) = is_zero_runtime v

abbrev value_of : Option Any → Any
value_of none = nil
value_of (some v) = v

-- s.state[name] = v
abbrev put_state : String → Any → Scope → Scope
put_state name v s = record s { state = insert name v s.state }

module _ (platform : Platform) where
  -- The author's terminate_when, or the variant's default.
  abbrev pub terminate : Option Predicate → Bool → Scope → Result Bool
  terminate none default s = ok default
  terminate (some p) default s = context "terminate_when" (eval_predicate platform s p)

  -- The write that cursor_token and next_url end with.
  advance_to : RefPath → Any → Exec Bool
  unfolding pagination_state_field insert
  advance_to to got = do
    name ← reads (λ s. context "to" (pagination_state_field to))
    modify (put_state name got)
    pure false

  abbrev advance_unless : Bool → RefPath → Any → Exec Bool
  advance_unless done to got = if done then pure true else advance_to to got

  pub advance_cursor_token : CursorTokenPagination → Exec Bool
  unfolding advance_to resolve_namespace_ref eval_predicate
  advance_cursor_token c = do
    got ←
        reads
          (λ s. context "pagination.cursor_token.from" (resolve_namespace_ref platform s c.from))
    done ← reads (terminate c.terminate_when (absent_or_zero got))
    advance_unless done c.to (value_of got)

  -- The source cut by the regex: where there is one, what is left is there if it is not nil.
  abbrev pub cut_source : NextUrlPagination → Option Any → Result (Option Any)
  cut_source c none = ok none
  cut_source c (some got) =
      if not (c.regex == "") && not (is_nil got)
      then Base.◌>>=◌ (with_regex platform c.regex c.capture got)
          (λ m. ok (if is_nil m then none else some m))
      else ok (some got)

  pub advance_next_url : NextUrlPagination → Exec Bool
  unfolding advance_to resolve_namespace_ref eval_predicate apply_regex
  advance_next_url c = do
    from ← reads (λ s. context "pagination.next_url.from" (resolve_namespace_ref platform s c.from))
    got ← reads (λ s. context "pagination.next_url.regex" (cut_source c from))
    done ← reads (terminate c.terminate_when (absent_or_zero got))
    advance_unless done c.to (value_of got)

  -- resolveInt
  pub resolve_int : Option Value → ℤ → Scope → Result ℤ
  unfolding eval_value to_int
  resolve_int none default s = ok default
  resolve_int (some v) default s =
      Base.◌>>=◌ (context "pagination.counter" (eval_value platform s v))
        (λ got. context "pagination.counter" (to_int platform got))

  -- The counter before this page: the field, or start where it is unset or nil.
  pub current : Option Any → ℤ → Result ℤ
  unfolding to_int
  current none start = ok start
  current (some nil) start = ok start
  current (some v) start = context "pagination.counter: state" (to_int platform v)

  abbrev count_of : Result (Option Any) → Result ℤ
  count_of (err e) = err e
  count_of (ok none) = ok (pos 0)
  count_of (ok (some v)) = elim (as_int64 platform v) [ none ↦ ok (pos 0) | some n ↦ ok n ]

  -- events.count < step
  pub short_page : ℤ → Scope → Result Bool
  unfolding resolve_namespace_ref as_int64
  short_page step s =
      Base.◌>>=◌ (count_of (resolve_namespace_ref platform s (of_parts ("events" ∷ "count" ∷ []))))
        (λ count. ok (ltb_ℤ count step))

  pub counter_done : Option Predicate → ℤ → Scope → Result Bool
  unfolding short_page eval_predicate
  counter_done none step s = context "pagination.counter.terminate_when" (short_page step s)
  counter_done (some p) step s =
      context "pagination.counter.terminate_when" (eval_predicate platform s p)

  pub count_on : CounterPagination → ℤ → Exec Bool
  unfolding resolve_int pagination_state_field current lookup insert ◌+ℤ◌ wrap64
  count_on c step = do
    start ← reads (resolve_int c.start (pos 1))
    name ← reads (λ s. context "pagination.counter.to" (pagination_state_field c.to))
    n ← reads (λ s. current (lookup name s.state) start)
    modify (put_state name (int (wrap64 (n +ℤ step))))
    pure false

  pub advance_counter : CounterPagination → Exec Bool
  unfolding count_on counter_done resolve_int
  advance_counter c = do
    step ← reads (resolve_int c.step (pos 1))
    done ← reads (counter_done c.terminate_when step)
    if done then pure true else count_on c step

  write_advance : CustomPagination → Exec Bool
  unfolding apply_progress
  write_advance c = do
    labelled "pagination.custom.advance" (apply_progress platform c.advance)
    pure false

  pub advance_custom : CustomPagination → Exec Bool
  unfolding eval_predicate write_advance
  advance_custom c = do
    done ← reads (λ s.
        context "pagination.custom.terminate_when" (eval_predicate platform s c.terminate_when))
    if done then pure true else write_advance c

  -- advance: whether the loop ends before the next page.
  unfoldable pub advance : Plan → Exec Bool
  unfolding advance_cursor_token advance_next_url advance_counter advance_custom
  advance single_page = pure true
  advance (cursor_token c) = advance_cursor_token c
  advance (next_url c) = advance_next_url c
  advance (counter c) = advance_counter c
  advance (custom c) = advance_custom c

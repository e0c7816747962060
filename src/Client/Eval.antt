-- ===== src/Client/Eval.antt =====
-- evalValue and its helpers of client/value.go, and evalPredicate and compare of
-- client/predicate.go, which call one another.
pub mod Laws
mod Tests
use Prim.Native.String
use skopos.Base.{
  ℕ, String, Bool, true, false, ◌||◌, List, [], ◌∷◌, Option, none, some, ℤ, pos, negsuc, ltb_ℤ,
  length, get_elem?, ◌==◌, if◌then◌else◌, Result, ok, err, msg, context, ◌>>=◌,
}
use skopos.Base as Base
use skopos.Any.{Any, nil, str, int, bool, time, elems, of_list, as_list, is_nil, Elems, Entries}
use skopos.Schema.Path.{RefPath}
use skopos.Schema.Value.{
  Value, unset, zero, literal_string, literal_int, literal_bool, ref, now, concat, select, format,
  base64, add, subtract, max, min, first, last, count, slice, regex, OptionalValue, absent, given,
  Values, end, cons, Fields, done, field, Branches, exhausted, branch, Predicate, no_variant,
  constant, present, eq, gt, lt, gte, lte, and, or, Predicates, finished, operand,
}
use skopos.Client.Platform.{Platform}
use skopos.Client.Coerce.{is_zero_runtime, to_string, apply_format}
use skopos.Client.Compare.{equal, ordered_compare}
use skopos.Client.Reduce.{
  arith_add, arith_subtract, reduce_extreme, first_non_nil, last_non_nil, slice_list,
}
use skopos.Client.Scope.{Scope}
use skopos.Client.Refs.{resolve_namespace_ref}

-- The tail of evalArith, once the two operands are evaluated.
abbrev operands : (Any → Any → Result Any) → Any × Any → Result Any
operands op (a, b) = if is_nil a || is_nil b then ok nil else op a b

-- evalReducerInput, once the operand is evaluated: an absent operand is the empty list.
abbrev reducer_list : Any → Result (List Any)
reducer_list nil = ok []
reducer_list (Any.list vs) = ok (elems vs)
reducer_list v = err (msg "operand resolved to no list")

abbrev or_default : Result Any → Option Any → Result Any
or_default fallback none = fallback
or_default fallback (some got) = if is_zero_runtime got then fallback else ok got

abbrev group_at : List String → ℕ → Result Any
group_at m n = elim (get_elem? m n) [
  | none ↦ err (msg "regex: capture group out of range")
  | some g ↦ ok (str g)
]

abbrev matched : Result Any → ℕ → Option (Option (List String)) → Result Any
matched fallback n none = err (msg "regex: compile")
matched fallback n (some none) = fallback
matched fallback n (some (some m)) = group_at m n

-- The verdict of an ordered comparison by its sign.
pub data Order : Type 0 where
  greater less greater_eq less_eq : Order

abbrev verdict : Order → ℤ → Bool
verdict greater c = ltb_ℤ (pos 0) c
verdict less c = ltb_ℤ c (pos 0)
verdict greater_eq c = Base.not (ltb_ℤ c (pos 0))
verdict less_eq c = Base.not (ltb_ℤ (pos 0) c)

abbrev lhs_of : Option Any → Any
lhs_of none = nil
lhs_of (some v) = v

module _ (platform : Platform) where
  -- applyRegex, with what the default gives where there is no match.
  unfoldable pub apply_regex : String → String → ℤ → Result Any → Result Any
  apply_regex pattern input (negsuc n) fallback = err (msg "regex: capture must be >= 0")
  apply_regex pattern input (pos n) fallback =
      matched fallback n (platform.find_submatch pattern input)

  module _ (s : Scope) where
    -- compare, once both sides are evaluated.
    ordered : Order → Any → Any → Result Bool
    unfolding ordered_compare
    ordered o lhs rhs =
        if is_nil lhs || is_nil rhs
        then ok false
        else do c ← ordered_compare platform lhs rhs; ok (verdict o c)

    abbrev extreme : Bool → Result Any → Result Any
    extreme greatest got = do
      v ← context "reducer" got
      vs ← reducer_list v
      ok (reduce_extreme platform vs greatest)

    unfoldable mutual
      unfolding ordered apply_regex resolve_namespace_ref to_string apply_format arith_add
          arith_subtract

      pub eval_value : Value → Result Any
      eval_value unset = err (msg "schema.Value: no variant set")
      eval_value zero = ok nil
      eval_value (literal_string t) = ok (str t)
      eval_value (literal_int n) = ok (int n)
      eval_value (literal_bool b) = ok (bool b)
      eval_value (ref p d) = do
        got ← context "ref" (resolve_namespace_ref platform s p)
        or_default (eval_optional d) got
      eval_value now = ok (time s.now)
      eval_value (concat vs) = do t ← eval_concat vs; ok (str t)
      eval_value (select bs d) = eval_branches bs (eval_value d)
      eval_value (format verb v) = do
        got ← context "format.value" (eval_value v)
        apply_format platform verb got
      eval_value (base64 v) = do
        got ← context "base64" (eval_value v)
        ok (str (platform.encode_base64 (to_string platform got)))
      eval_value (Value.list vs) = do got ← eval_list vs; ok (Any.list (of_list got))
      eval_value (Value.object fs) = do got ← eval_fields fs; ok (Any.object got)
      eval_value (add vs) = do got ← eval_pair vs; operands (arith_add platform) got
      eval_value (subtract vs) = do got ← eval_pair vs; operands (arith_subtract platform) got
      eval_value (max v) = extreme true (eval_value v)
      eval_value (min v) = extreme false (eval_value v)
      eval_value (first v) = do
        got ← context "reducer" (eval_value v)
        vs ← reducer_list got
        ok (first_non_nil vs)
      eval_value (last v) = do
        got ← context "reducer" (eval_value v)
        vs ← reducer_list got
        ok (last_non_nil vs)
      eval_value (count v) = do
        got ← context "reducer" (eval_value v)
        vs ← reducer_list got
        ok (int (pos (length vs)))
      eval_value (slice v from to) = do
        got ← context "reducer" (eval_value v)
        vs ← reducer_list got
        ok (Any.list (of_list (slice_list vs from to)))
      eval_value (regex pattern v capture d) = do
        got ← context "regex.from" (eval_value v)
        apply_regex pattern (to_string platform got) capture (eval_optional d)

      -- def != nil ? evalValue(*def) : nil
      pub eval_optional : OptionalValue → Result Any
      eval_optional absent = ok nil
      eval_optional (given v) = eval_value v

      -- The operands of evalArith: exactly two, or an error before either is evaluated.
      pub eval_pair : Values → Result (Any × Any)
      eval_pair (cons a (cons b end)) = do
        x ← context "operands[0]" (eval_value a)
        y ← context "operands[1]" (eval_value b)
        ok (x, y)
      eval_pair vs = err (msg "must have exactly 2 operands")

      -- The loop of concat: an element that is nil adds nothing.
      pub eval_concat : Values → Result String
      eval_concat end = ok ""
      eval_concat (cons v vs) = do
        got ← context "concat" (eval_value v)
        rest ← eval_concat vs
        ok (if is_nil got then rest else String.◌++◌ (to_string platform got) rest)

      pub eval_list : Values → Result (List Any)
      eval_list end = ok []
      eval_list (cons v vs) = do
        got ← context "list" (eval_value v)
        rest ← eval_list vs
        ok (got ∷ rest)

      pub eval_fields : Fields → Result Entries
      eval_fields done = ok Entries.done
      eval_fields (field k v fs) = do
        got ← context "object" (eval_value v)
        rest ← eval_fields fs
        ok (Entries.entry k got rest)

      -- The first branch whose predicate holds, or the default.
      pub eval_branches : Branches → Result Any → Result Any
      eval_branches exhausted fallback = fallback
      eval_branches (branch p v bs) fallback = do
        holds ← context "select.branches" (eval_predicate p)
        if holds then eval_value v else eval_branches bs fallback

      pub eval_predicate : Predicate → Result Bool
      eval_predicate no_variant = err (msg "schema.Predicate: no variant set")
      eval_predicate (constant b) = ok b
      eval_predicate (present p) = do
        got ← context "present" (resolve_namespace_ref platform s p)
        ok (Base.not (is_zero_runtime (lhs_of got)))
      eval_predicate (eq p v) = do
        lhs ← context "eq.path" (resolve_namespace_ref platform s p)
        rhs ← context "eq.value" (eval_value v)
        ok (equal platform (lhs_of lhs) rhs)
      eval_predicate (gt p v) = do
        lhs ← context "gt.path" (resolve_namespace_ref platform s p)
        rhs ← context "gt.value" (eval_value v)
        context "gt" (ordered greater (lhs_of lhs) rhs)
      eval_predicate (lt p v) = do
        lhs ← context "lt.path" (resolve_namespace_ref platform s p)
        rhs ← context "lt.value" (eval_value v)
        context "lt" (ordered less (lhs_of lhs) rhs)
      eval_predicate (gte p v) = do
        lhs ← context "gte.path" (resolve_namespace_ref platform s p)
        rhs ← context "gte.value" (eval_value v)
        context "gte" (ordered greater_eq (lhs_of lhs) rhs)
      eval_predicate (lte p v) = do
        lhs ← context "lte.path" (resolve_namespace_ref platform s p)
        rhs ← context "lte.value" (eval_value v)
        context "lte" (ordered less_eq (lhs_of lhs) rhs)
      eval_predicate (and ps) = eval_all ps
      eval_predicate (or ps) = eval_any ps
      eval_predicate (Predicate.not p) = do
        holds ← context "not" (eval_predicate p)
        ok (Base.not holds)

      pub eval_all : Predicates → Result Bool
      eval_all finished = ok true
      eval_all (operand p ps) = do
        holds ← context "and" (eval_predicate p)
        if holds then eval_all ps else ok false

      pub eval_any : Predicates → Result Bool
      eval_any finished = ok false
      eval_any (operand p ps) = do
        holds ← context "or" (eval_predicate p)
        if holds then ok true else eval_any ps

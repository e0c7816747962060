-- ===== src/Schema/Validation/Values.antt =====
-- checkValue, checkReducerOperand, checkListShapedValue and checkPredicate of schema/validate.go.
use skopos.Base.{
  ℕ, suc, String, Bool, true, false, List, [], ◌++◌, ℤ, pos, negsuc, ◌==◌, if◌then◌else◌,
}
use skopos.Schema.Value.{
  Value, unset, literal_string, literal_int, literal_bool, ref, now, concat, select, format, base64,
  add, subtract, max, min, first, last, count, slice, regex, OptionalValue, absent, given, Values,
  end, cons, Fields, done, field, Branches, exhausted, branch, Predicate, no_variant, constant,
  present, eq, gt, lt, gte, lte, and, or, Predicates, finished, operand,
}
use skopos.Schema.Value as V
use skopos.Schema.Validation.Diag.{Diagnostic, errorf, Context, ◌/+◌, at}
use skopos.Schema.Validation.Refs.{check_path_ref}

-- IsAbsent: the null form, or none.
abbrev pub is_absent : Value → Bool
is_absent unset = true
is_absent V.zero = true
is_absent v = false

-- IsZero of a predicate: no variant, or an empty and or or.
abbrev pub predicate_is_zero : Predicate → Bool
predicate_is_zero no_variant = true
predicate_is_zero (and finished) = true
predicate_is_zero (or finished) = true
predicate_is_zero p = false

-- The switch of checkReducerOperand: the forms that never resolve to a list.
unfoldable pub check_reducer_shape : String → Value → List Diagnostic
check_reducer_shape path (literal_string t) = errorf path "operand must resolve to a list"
check_reducer_shape path (literal_int n) = errorf path "operand must resolve to a list"
check_reducer_shape path (literal_bool b) = errorf path "operand must resolve to a list"
check_reducer_shape path now = errorf path "operand must resolve to a list"
check_reducer_shape path (format verb v) = errorf path "operand must resolve to a list"
check_reducer_shape path (base64 v) = errorf path "operand must resolve to a list"
check_reducer_shape path (Value.object fs) = errorf path "operand must resolve to a list"
check_reducer_shape path (add vs) = errorf path "operand must resolve to a list"
check_reducer_shape path (subtract vs) = errorf path "operand must resolve to a list"
check_reducer_shape path (max v) = errorf path "operand must resolve to a list"
check_reducer_shape path (min v) = errorf path "operand must resolve to a list"
check_reducer_shape path (first v) = errorf path "operand must resolve to a list"
check_reducer_shape path (last v) = errorf path "operand must resolve to a list"
check_reducer_shape path (count v) = errorf path "operand must resolve to a list"
check_reducer_shape path v = []

-- checkListShapedValue, which names the same forms.
unfoldable pub check_list_shaped_value : String → Value → List Diagnostic
unfolding check_reducer_shape
check_list_shaped_value path v = check_reducer_shape path v

abbrev check_capture : String → ℤ → List Diagnostic
check_capture path (pos n) = []
check_capture path (negsuc n) = errorf path "capture must be a non-negative 1-based group index"

abbrev required : String → String → String → List Diagnostic
required text path message = if text == "" then errorf path message else []

unfoldable mutual
  unfolding check_path_ref at check_reducer_shape check_list_shaped_value

  -- checkValue
  pub check_value : String → Value → Context → List Diagnostic
  check_value path (ref p fallback) sc =
      check_path_ref (path /+ ".ref") p sc ++ check_optional (path /+ ".default") fallback sc
  check_value path (concat vs) sc = check_elements (path /+ ".concat") 0 vs sc
  check_value path (select bs fallback) sc =
      check_branches (path /+ ".select.branches") 0 bs sc
      ++ check_value (path /+ ".select.default") fallback sc
  check_value path (format verb v) sc =
      required verb (path /+ ".format") "format verb is required"
      ++ check_value (path /+ ".value") v sc
  check_value path (base64 v) sc = check_value (path /+ ".base64") v sc
  check_value path (Value.list vs) sc = check_elements (path /+ ".list") 0 vs sc
  check_value path (Value.object fs) sc = check_fields (path /+ ".object.") fs sc
  check_value path (add vs) sc = check_elements (path /+ ".add") 0 vs sc
  check_value path (subtract vs) sc = check_elements (path /+ ".subtract") 0 vs sc
  check_value path (max v) sc =
      check_value (path /+ ".max") v sc ++ check_reducer_shape (path /+ ".max") v
  check_value path (min v) sc =
      check_value (path /+ ".min") v sc ++ check_reducer_shape (path /+ ".min") v
  check_value path (first v) sc =
      check_value (path /+ ".first") v sc ++ check_reducer_shape (path /+ ".first") v
  check_value path (last v) sc =
      check_value (path /+ ".last") v sc ++ check_reducer_shape (path /+ ".last") v
  check_value path (count v) sc =
      check_value (path /+ ".count") v sc ++ check_reducer_shape (path /+ ".count") v
  check_value path (slice v from to) sc =
      check_value (path /+ ".slice") v sc ++ check_list_shaped_value (path /+ ".slice") v
  check_value path (regex pattern v capture fallback) sc =
      required pattern (path /+ ".regex.pattern") "pattern is required"
      ++ check_value (path /+ ".regex.from") v sc
      ++ check_optional (path /+ ".regex.default") fallback sc
      ++ check_capture (path /+ ".regex.capture") capture
  check_value path v sc = []

  pub check_optional : String → OptionalValue → Context → List Diagnostic
  check_optional path absent sc = []
  check_optional path (given v) sc = check_value path v sc

  -- The loops over concat, list and operands.
  pub check_elements : String → ℕ → Values → Context → List Diagnostic
  check_elements path i end sc = []
  check_elements path i (cons v vs) sc =
      check_value (at path i) v sc ++ check_elements path (suc i) vs sc

  pub check_fields : String → Fields → Context → List Diagnostic
  check_fields path done sc = []
  check_fields path (field k v fs) sc = check_value (path /+ k) v sc ++ check_fields path fs sc

  pub check_branches : String → ℕ → Branches → Context → List Diagnostic
  check_branches path i exhausted sc = []
  check_branches path i (branch p v bs) sc =
      check_predicate (at path i /+ ".when") p sc
      ++ check_value (at path i /+ ".value") v sc
      ++ check_branches path (suc i) bs sc

  -- checkPredicate
  pub check_predicate : String → Predicate → Context → List Diagnostic
  check_predicate path no_variant sc = errorf path "predicate must not be empty"
  check_predicate path (constant b) sc = []
  check_predicate path (present p) sc = check_path_ref (path /+ ".present") p sc
  check_predicate path (eq p v) sc =
      check_path_ref (path /+ ".eq.path") p sc ++ check_value (path /+ ".eq.value") v sc
  check_predicate path (gt p v) sc =
      check_path_ref (path /+ ".gt.path") p sc ++ check_value (path /+ ".gt.value") v sc
  check_predicate path (lt p v) sc =
      check_path_ref (path /+ ".lt.path") p sc ++ check_value (path /+ ".lt.value") v sc
  check_predicate path (gte p v) sc =
      check_path_ref (path /+ ".gte.path") p sc ++ check_value (path /+ ".gte.value") v sc
  check_predicate path (lte p v) sc =
      check_path_ref (path /+ ".lte.path") p sc ++ check_value (path /+ ".lte.value") v sc
  check_predicate path (and finished) sc = errorf path "predicate must not be empty"
  check_predicate path (and (operand p ps)) sc =
      check_predicate (at (path /+ ".and") 0) p sc ++ check_predicates (path /+ ".and") 1 ps sc
  check_predicate path (or finished) sc = errorf path "predicate must not be empty"
  check_predicate path (or (operand p ps)) sc =
      check_predicate (at (path /+ ".or") 0) p sc ++ check_predicates (path /+ ".or") 1 ps sc
  check_predicate path (Predicate.not p) sc = check_predicate (path /+ ".not") p sc

  pub check_predicates : String → ℕ → Predicates → Context → List Diagnostic
  check_predicates path i finished sc = []
  check_predicates path i (operand p ps) sc =
      check_predicate (at path i) p sc ++ check_predicates path (suc i) ps sc

-- ===== src/Client/Eval/Tests.antt =====
-- Predicates over a small scope.
use skopos.Base.{◌≡◌, refl, true, false, Option, pos, ok}
use skopos.Any.{Any}
use skopos.Schema.Value.{
  Predicates, constant, and, gt, lt, gte, lte, finished, operand, literal_int,
}
use skopos.Client.Eval.{eval_value, eval_predicate, lhs_of}
use skopos.Client.Eval.Laws.{Opposite, gt-Opposite}
use skopos.Client.Refs.{resolve_namespace_ref}
use skopos.Client.Samples.{platform, scope, page}

abbrev operands_of_and : Predicates
operands_of_and = operand (constant true) (operand (gt page (literal_int (pos 9))) finished)

conjunction : eval_predicate platform scope (and operands_of_and) ≡ ok false
unfolding eval_predicate
conjunction = refl

is_greater : eval_predicate platform scope (gt page (literal_int (pos 3))) ≡ ok true
unfolding eval_predicate
is_greater = refl

is_not_less_eq : eval_predicate platform scope (lte page (literal_int (pos 3))) ≡ ok false
unfolding eval_predicate
is_not_less_eq = refl

gt-Opposite_example :
    (lhs : Option Any) × (rhs : Any) × (resolve_namespace_ref platform scope page ≡ ok lhs)
    × (eval_value platform scope (literal_int (pos 3)) ≡ ok rhs)
    × Opposite platform scope (lhs_of lhs) rhs true false
gt-Opposite_example =
    gt-Opposite platform scope page (literal_int (pos 3)) true false is_greater is_not_less_eq

is_not_less : eval_predicate platform scope (lt page (literal_int (pos 3))) ≡ ok false
unfolding eval_predicate
is_not_less = refl

is_greater_eq : eval_predicate platform scope (gte page (literal_int (pos 3))) ≡ ok true
unfolding eval_predicate
is_greater_eq = refl

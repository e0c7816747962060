-- ===== src/Client/Eval/Laws.antt =====
-- Laws of the predicate language.
use skopos.Base.{
  String, subst, ◌≡◌, refl, sym, ap, ◌∙◌, ◌⊎◌, inl, inr, Bool, true, false, ◌||◌, ◌≢◌, Option, none,
  some, ℤ, pos, ltb_ℤ, if◌then◌else◌, Result, ok, err, ◌>>=◌, >>=-eq-ok, context, context-eq-ok,
  arith, Bool-cases, Result-cases, Option-cases,
}
use skopos.Base as Base
use skopos.Any.{Any, is_nil}
use skopos.Schema.Path.{RefPath}
use skopos.Schema.Value.{Value, Predicate, and, or, gt, lt, gte, lte, Predicates, finished, operand}
use skopos.Client.Platform.{Platform}
use skopos.Client.Compare.{ordered_compare}
use skopos.Client.Scope.{Scope}
use skopos.Client.Refs.{resolve_namespace_ref}
use skopos.Client.Eval.{
  eval_value, eval_predicate, eval_all, eval_any, ordered, Order, greater, less, greater_eq,
  less_eq, verdict, lhs_of,
}

abbrev pub negated : Predicates → Predicates
negated finished = finished
negated (operand p ps) = operand (Predicate.not p) (negated ps)

module _ (platform : Platform) (s : Scope) where
  eval_any-negated :
      (ps : Predicates) (b : Bool)
      → eval_all platform s ps ≡ ok b
      → eval_any platform s (negated ps) ≡ ok (Base.not b)
  unfolding eval_all eval_any eval_predicate
  eval_any-negated finished b h = cc
  eval_any-negated (operand p ps) b h = elim (Result-cases (eval_predicate platform s p)) [
    | inr (e, failed) ↦ cc (rw failed at h)
    | inl (true, holds) ↦ rw holds (eval_any-negated ps b (rw holds at h))
    | inl (false, fails) ↦ rw fails (cc (rw fails at h))
  ]

  -- De Morgan, with the evaluation order of the code: where a conjunction evaluates, the disjunction
  -- of the negated operands evaluates to its negation, from the same operands.
  pub or-negated :
      (ps : Predicates) (b : Bool)
      → eval_predicate platform s (and ps) ≡ ok b
      → eval_predicate platform s (or (negated ps)) ≡ ok (Base.not b)
  unfolding eval_predicate eval_all eval_any
  or-negated ps b h = eval_any-negated ps b h

  -- One verdict holds exactly if the other does not, or a side is absent and neither holds.
  abbrev pub Opposite : Any → Any → Bool → Bool → Type 0
  Opposite lhs rhs a b =
      (((is_nil lhs || is_nil rhs) ≡ true) × (a ≡ false) × (b ≡ false))
      ⊎ (((is_nil lhs || is_nil rhs) ≡ false) × (b ≡ Base.not a))

  abbrev opposite : Order → Order
  opposite greater = less_eq
  opposite less = greater_eq
  opposite greater_eq = less
  opposite less_eq = greater

  verdict-opposite : (o : Order) (c : ℤ) → verdict (opposite o) c ≡ Base.not (verdict o c)
  verdict-opposite greater c = refl
  verdict-opposite less c = refl
  verdict-opposite greater_eq c = ground arith
  verdict-opposite less_eq c = ground arith

  ordered-opposite :
      (o : Order) (lhs rhs : Any) (a b : Bool)
      → ordered platform s o lhs rhs ≡ ok a
      → ordered platform s (opposite o) lhs rhs ≡ ok b
      → Opposite lhs rhs a b
  unfolding ordered
  ordered-opposite o lhs rhs a b one two = elim (Bool-cases (is_nil lhs || is_nil rhs)) [
    | inl gap ↦ inl (gap, cc (rw (gap, ordered) at one), cc (rw (gap, ordered) at two))
    | inr full ↦ elim (Result-cases (ordered_compare platform lhs rhs)) [
      | inr (e, failed) ↦ cc (rw (full, failed, ordered) at one)
      | inl (c, got) ↦
          let is_a : ok (verdict o c) ≡ ok a = rw (full, got, ordered) at one in
          let is_b : ok (verdict (opposite o) c) ≡ ok b = rw (full, got, ordered) at two in
          inr (full, cc (verdict-opposite o c))
    ]
  ]

  -- One comparison of the predicate language, once its two labels are written.
  compared : String → String → String → Order → RefPath → Value → Result Bool
  compared at_path at_value label o p v =
      context at_path (resolve_namespace_ref platform s p) >>= λ (lhs : Option Any).
      context at_value (eval_value platform s v) >>= λ (rhs : Any).
      context label (ordered platform s o (lhs_of lhs) rhs)

  compared-ok :
      (at_path at_value label : String) (o : Order) (p : RefPath) (v : Value) (a : Bool)
      → compared at_path at_value label o p v ≡ ok a
      → (lhs : Option Any) × (rhs : Any) × (resolve_namespace_ref platform s p ≡ ok lhs)
        × (eval_value platform s v ≡ ok rhs)
        × (ordered platform s o (lhs_of lhs) rhs ≡ ok a)
  unfolding compared
  compared-ok at_path at_value label o p v a h =
      let (lhs, left, rest) = >>=-eq-ok {A = Option Any} _ _ h in
      let (rhs, right, last) = >>=-eq-ok {A = Any} _ _ rest in
      (lhs, rhs, context-eq-ok _ _ left, context-eq-ok _ _ right, context-eq-ok _ _ last)

  compared-opposite :
      (p : RefPath) (v : Value) (o : Order) (a₁ a₂ a₃ b₁ b₂ b₃ : String) (a b : Bool)
      → compared a₁ a₂ a₃ o p v ≡ ok a
      → compared b₁ b₂ b₃ (opposite o) p v ≡ ok b
      → (lhs : Option Any) × (rhs : Any) × (resolve_namespace_ref platform s p ≡ ok lhs)
        × (eval_value platform s v ≡ ok rhs)
        × Opposite (lhs_of lhs) rhs a b
  compared-opposite p v o a₁ a₂ a₃ b₁ b₂ b₃ a b one two =
      let (lhs, rhs, left, right, is_a) = compared-ok a₁ a₂ a₃ o p v a one in
      let (lhs', rhs', left', right', is_b) = compared-ok b₁ b₂ b₃ (opposite o) p v b two in
      let same_lhs : lhs' ≡ lhs = cc in
      let same_rhs : rhs' ≡ rhs = cc in
      (
        lhs,
        rhs,
        left,
        right,
        ordered-opposite o (lhs_of lhs) rhs a b is_a (
            subst (λ r. ordered platform s (opposite o) (lhs_of lhs) r ≡ ok b) same_rhs
              (subst (λ l. ordered platform s (opposite o) (lhs_of l) rhs' ≡ ok b) same_lhs is_b)),
      )

  -- gt and lte of the same operands: where both evaluate, exactly one of them
  -- holds, except that neither does where a side is absent.
  pub gt-Opposite :
      (p : RefPath) (v : Value) (a b : Bool)
      → eval_predicate platform s (gt p v) ≡ ok a
      → eval_predicate platform s (lte p v) ≡ ok b
      → (lhs : Option Any) × (rhs : Any) × (resolve_namespace_ref platform s p ≡ ok lhs)
        × (eval_value platform s v ≡ ok rhs)
        × Opposite (lhs_of lhs) rhs a b
  unfolding eval_predicate compared
  gt-Opposite p v a b one two =
      compared-opposite p v greater "gt.path" "gt.value" "gt" "lte.path" "lte.value" "lte" a b one
        two

  -- lt and gte of the same operands: where both evaluate, exactly one of them holds, except that
  -- neither does where a side is absent.
  pub lt-Opposite :
      (p : RefPath) (v : Value) (a b : Bool)
      → eval_predicate platform s (lt p v) ≡ ok a
      → eval_predicate platform s (gte p v) ≡ ok b
      → (lhs : Option Any) × (rhs : Any) × (resolve_namespace_ref platform s p ≡ ok lhs)
        × (eval_value platform s v ≡ ok rhs)
        × Opposite (lhs_of lhs) rhs a b
  unfolding eval_predicate compared
  lt-Opposite p v a b one two =
      compared-opposite p v less "lt.path" "lt.value" "lt" "gte.path" "gte.value" "gte" a b one two

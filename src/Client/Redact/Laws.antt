-- ===== src/Client/Redact/Laws.antt =====
-- What is not secret does not depend on the secret state fields.
use skopos.Base.{
  String, ◌≡◌, refl, ap, ◌∙◌, Bool, false, ◌||◌, List, [], ◌∷◌, Dict, lookup, Result, arith,
}
use skopos.Any.{Any}
use skopos.Schema.Path.{RefPath}
use skopos.Schema.Value.{
  Value, unset, zero, literal_string, literal_int, literal_bool, ref, now, concat, select, format,
  base64, add, subtract, max, min, first, last, count, slice, regex, OptionalValue, absent, given,
  Values, end, cons, Fields, done, field, Branches, exhausted, branch, Predicate, no_variant,
  constant, present, eq, gt, lt, gte, lte, and, or, Predicates, finished, operand,
}
use skopos.Schema.Doc.{Doc}
use skopos.Schema.Secret.{
  type_is_secret, secret_parts, is_secret_state_path, is_secret, is_secret_optional, any_secret,
  any_secret_field, any_secret_branch, predicate_contains_secret, any_predicate_contains_secret,
}
use skopos.Client.Platform.{Platform}
use skopos.Client.Scope.{Scope}
use skopos.Client.Refs.{resolve_namespace_ref}
use skopos.Client.Refs.Agree.{AgreeAt, resolve_namespace_ref-agree}
use skopos.Client.Eval.{
  eval_value, eval_optional, eval_pair, eval_concat, eval_list, eval_fields, eval_branches,
  eval_predicate, eval_all, eval_any,
}

or_false : (a b : Bool) → (a || b) ≡ false → (a ≡ false) × (b ≡ false)
or_false a b h = ground arith

-- Two states agree outside the fields that the document declares secret.
abbrev pub AgreeOutsideSecrets : Doc → Dict Any → Dict Any → Type 0
AgreeOutsideSecrets d m m' =
    (name : String) → type_is_secret (lookup name d.state) ≡ false → lookup name m ≡ lookup name m'

module _ (platform : Platform) (d : Doc) (s : Scope) (m : Dict Any)
    (agree : AgreeOutsideSecrets d s.state m) where
  abbrev other : Scope
  other = record s { state = m }

  agree_at : (parts : List String) → secret_parts d parts ≡ false → AgreeAt s.state m parts
  agree_at [] h = tt
  agree_at (root ∷ []) h = tt
  agree_at (root ∷ name ∷ rest) h = λ state. agree name (rw state at h)

  ref-agree :
      (p : RefPath)
      → is_secret_state_path d p ≡ false
      → resolve_namespace_ref platform s p ≡ resolve_namespace_ref platform other p
  unfolding is_secret_state_path
  ref-agree p h = resolve_namespace_ref-agree platform s m p (agree_at p.parts h)

  mutual
    unfolding is_secret is_secret_optional any_secret any_secret_field any_secret_branch
        predicate_contains_secret any_predicate_contains_secret eval_value eval_optional eval_pair
        eval_concat eval_list eval_fields eval_branches eval_predicate eval_all eval_any

    value-agree :
        (v : Value) → is_secret d v ≡ false → eval_value platform s v ≡ eval_value platform other v
    value-agree unset h = refl
    value-agree zero h = refl
    value-agree (literal_string t) h = refl
    value-agree (literal_int n) h = refl
    value-agree (literal_bool b) h = refl
    value-agree (ref p o) h =
        let (hp, ho) = or_false (is_secret_state_path d p) (is_secret_optional d o) h in
        rw (ref-agree p hp, optional-agree o ho)
    value-agree now h = refl
    value-agree (concat vs) h = rw (concat-agree vs h)
    value-agree (select bs v) h =
        let (hb, hv) = or_false (any_secret_branch d bs) (is_secret d v) h in
        branches-agree bs (eval_value platform s v) hb
        ∙ ap (eval_branches platform other bs) (value-agree v hv)
    value-agree (format verb v) h = rw (value-agree v h)
    value-agree (base64 v) h = rw (value-agree v h)
    value-agree (Value.list vs) h = rw (list-agree vs h)
    value-agree (Value.object fs) h = rw (fields-agree fs h)
    value-agree (add vs) h = rw (pair-agree vs h)
    value-agree (subtract vs) h = rw (pair-agree vs h)
    value-agree (max v) h = rw (value-agree v h)
    value-agree (min v) h = rw (value-agree v h)
    value-agree (first v) h = rw (value-agree v h)
    value-agree (last v) h = rw (value-agree v h)
    value-agree (count v) h = rw (value-agree v h)
    value-agree (slice v from to) h = rw (value-agree v h)
    value-agree (regex pattern v n o) h =
        let (hv, ho) = or_false (is_secret d v) (is_secret_optional d o) h in
        rw (value-agree v hv, optional-agree o ho)

    optional-agree :
        (o : OptionalValue)
        → is_secret_optional d o ≡ false
        → eval_optional platform s o ≡ eval_optional platform other o
    optional-agree absent h = refl
    optional-agree (given v) h = value-agree v h

    pair-agree :
        (vs : Values)
        → any_secret d vs ≡ false
        → eval_pair platform s vs ≡ eval_pair platform other vs
    pair-agree end h = refl
    pair-agree (cons a end) h = refl
    pair-agree (cons a (cons b end)) h =
        let (ha, hr) = or_false (is_secret d a) (is_secret d b || false) h in
        let (hb, he) = or_false (is_secret d b) false hr in rw (value-agree a ha, value-agree b hb)
    pair-agree (cons a (cons b (cons c vs))) h = refl

    concat-agree :
        (vs : Values)
        → any_secret d vs ≡ false
        → eval_concat platform s vs ≡ eval_concat platform other vs
    concat-agree end h = refl
    concat-agree (cons v vs) h =
        let (hv, hr) = or_false (is_secret d v) (any_secret d vs) h in
        rw (value-agree v hv, concat-agree vs hr)

    list-agree :
        (vs : Values)
        → any_secret d vs ≡ false
        → eval_list platform s vs ≡ eval_list platform other vs
    list-agree end h = refl
    list-agree (cons v vs) h =
        let (hv, hr) = or_false (is_secret d v) (any_secret d vs) h in
        rw (value-agree v hv, list-agree vs hr)

    fields-agree :
        (fs : Fields)
        → any_secret_field d fs ≡ false
        → eval_fields platform s fs ≡ eval_fields platform other fs
    fields-agree done h = refl
    fields-agree (field k v fs) h =
        let (hv, hr) = or_false (is_secret d v) (any_secret_field d fs) h in
        rw (value-agree v hv, fields-agree fs hr)

    branches-agree :
        (bs : Branches) (fallback : Result Any)
        → any_secret_branch d bs ≡ false
        → eval_branches platform s bs fallback ≡ eval_branches platform other bs fallback
    branches-agree exhausted fallback h = refl
    branches-agree (branch p v bs) fallback h =
        let (hp, hr) =
          or_false (predicate_contains_secret d p) (is_secret d v || any_secret_branch d bs) h in
        let (hv, hb) = or_false (is_secret d v) (any_secret_branch d bs) hr in
        rw (predicate-agree p hp, value-agree v hv, branches-agree bs fallback hb)

    predicate-agree :
        (p : Predicate)
        → predicate_contains_secret d p ≡ false
        → eval_predicate platform s p ≡ eval_predicate platform other p
    predicate-agree no_variant h = refl
    predicate-agree (constant b) h = refl
    predicate-agree (present p) h = rw (ref-agree p h)
    predicate-agree (eq p v) h =
        let (hp, hv) = or_false (is_secret_state_path d p) (is_secret d v) h in
        rw (ref-agree p hp, value-agree v hv)
    predicate-agree (gt p v) h =
        let (hp, hv) = or_false (is_secret_state_path d p) (is_secret d v) h in
        rw (ref-agree p hp, value-agree v hv)
    predicate-agree (lt p v) h =
        let (hp, hv) = or_false (is_secret_state_path d p) (is_secret d v) h in
        rw (ref-agree p hp, value-agree v hv)
    predicate-agree (gte p v) h =
        let (hp, hv) = or_false (is_secret_state_path d p) (is_secret d v) h in
        rw (ref-agree p hp, value-agree v hv)
    predicate-agree (lte p v) h =
        let (hp, hv) = or_false (is_secret_state_path d p) (is_secret d v) h in
        rw (ref-agree p hp, value-agree v hv)
    predicate-agree (and ps) h = all-agree ps h
    predicate-agree (or ps) h = any-agree ps h
    predicate-agree (Predicate.not p) h = rw (predicate-agree p h)

    all-agree :
        (ps : Predicates)
        → any_predicate_contains_secret d ps ≡ false
        → eval_all platform s ps ≡ eval_all platform other ps
    all-agree finished h = refl
    all-agree (operand p ps) h =
        let (hp, hr) =
          or_false (predicate_contains_secret d p) (any_predicate_contains_secret d ps) h in
        rw (predicate-agree p hp, all-agree ps hr)

    any-agree :
        (ps : Predicates)
        → any_predicate_contains_secret d ps ≡ false
        → eval_any platform s ps ≡ eval_any platform other ps
    any-agree finished h = refl
    any-agree (operand p ps) h =
        let (hp, hr) =
          or_false (predicate_contains_secret d p) (any_predicate_contains_secret d ps) h in
        rw (predicate-agree p hp, any-agree ps hr)

  -- A value that IsSecret clears evaluates to the same result or error in every scope that differs
  -- in fields of type secret only: what redactValue lets through depends on no secret.
  pub eval_value_of_not_secret :
      (v : Value)
      → is_secret d v ≡ false
      → eval_value platform s v ≡ eval_value platform (record s { state = m }) v
  eval_value_of_not_secret v h = value-agree v h

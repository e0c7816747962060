-- ===== src/Schema/Secret.antt =====
-- IsSecret of schema/value.go: whether a value can surface a state field of type secret.
use skopos.Base.{
  String, Bool, false, ◌||◌, List, ◌∷◌, Option, none, some, lookup, ◌==◌, if◌then◌else◌,
}
use skopos.Schema.Path.{RefPath}
use skopos.Schema.Value.{
  Value, ref, concat, select, format, base64, add, subtract, max, min, first, last, count, slice,
  regex, OptionalValue, absent, given, Values, end, cons, Fields, done, field, Branches, exhausted,
  branch, Predicate, present, eq, gt, lt, gte, lte, and, or, Predicates, finished, operand,
}
use skopos.Schema.Doc.{Doc, FieldDecl}

abbrev pub type_is_secret : Option FieldDecl → Bool
type_is_secret none = false
type_is_secret (some fd) = fd.type_name == "secret"

abbrev pub secret_parts : Doc → List String → Bool
secret_parts d (root ∷ name ∷ rest) =
    if root == "state" then type_is_secret (lookup name d.state) else false
secret_parts d parts = false

-- isSecretStatePath
unfoldable pub is_secret_state_path : Doc → RefPath → Bool
unfolding lookup
is_secret_state_path d p = secret_parts d p.parts

module _ (d : Doc) where
  unfoldable mutual
    unfolding is_secret_state_path

    pub is_secret : Value → Bool
    is_secret (ref p fallback) = is_secret_state_path d p || is_secret_optional fallback
    is_secret (concat vs) = any_secret vs
    is_secret (select bs fallback) = any_secret_branch bs || is_secret fallback
    is_secret (format verb v) = is_secret v
    is_secret (base64 v) = is_secret v
    is_secret (Value.list vs) = any_secret vs
    is_secret (Value.object fs) = any_secret_field fs
    is_secret (add vs) = any_secret vs
    is_secret (subtract vs) = any_secret vs
    is_secret (max v) = is_secret v
    is_secret (min v) = is_secret v
    is_secret (first v) = is_secret v
    is_secret (last v) = is_secret v
    is_secret (count v) = is_secret v
    is_secret (slice v from to) = is_secret v
    is_secret (regex pattern v capture fallback) = is_secret v || is_secret_optional fallback
    is_secret v = false

    -- def != nil && IsSecret(d, *def)
    pub is_secret_optional : OptionalValue → Bool
    is_secret_optional absent = false
    is_secret_optional (given v) = is_secret v

    pub any_secret : Values → Bool
    any_secret end = false
    any_secret (cons v vs) = is_secret v || any_secret vs

    pub any_secret_field : Fields → Bool
    any_secret_field done = false
    any_secret_field (field k v fs) = is_secret v || any_secret_field fs

    pub any_secret_branch : Branches → Bool
    any_secret_branch exhausted = false
    any_secret_branch (branch p v bs) =
        predicate_contains_secret p || (is_secret v || any_secret_branch bs)

    pub predicate_contains_secret : Predicate → Bool
    predicate_contains_secret (eq p v) = is_secret_state_path d p || is_secret v
    predicate_contains_secret (gt p v) = is_secret_state_path d p || is_secret v
    predicate_contains_secret (lt p v) = is_secret_state_path d p || is_secret v
    predicate_contains_secret (gte p v) = is_secret_state_path d p || is_secret v
    predicate_contains_secret (lte p v) = is_secret_state_path d p || is_secret v
    predicate_contains_secret (present p) = is_secret_state_path d p
    predicate_contains_secret (and ps) = any_predicate_contains_secret ps
    predicate_contains_secret (or ps) = any_predicate_contains_secret ps
    predicate_contains_secret (Predicate.not p) = predicate_contains_secret p
    predicate_contains_secret p = false

    pub any_predicate_contains_secret : Predicates → Bool
    any_predicate_contains_secret finished = false
    any_predicate_contains_secret (operand p ps) =
        predicate_contains_secret p || any_predicate_contains_secret ps

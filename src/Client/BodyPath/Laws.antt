-- ===== src/Client/BodyPath/Laws.antt =====
-- How a lookup in a body composes, and how row-oriented bodies do.
use skopos.Base.{
  String, ◌≡◌, refl, sym, ap, inl, inr, List, [], ◌∷◌, ◌++◌, Option, none, some, lookup, Result, ok,
  err, ◌>>=◌, Option-cases,
}
use mathlib.Core.List.{append_assoc}
use skopos.Any.{Any, nil, list, object, entries, as_list}
use skopos.Client.BodyPath.{walk, step_into, lookup_body_path, rows_events, expected_list}

abbrev pub and_then : Option Any → (Any → Option Any) → Option Any
and_then none f = none
and_then (some v) f = f v

-- A path is looked up segment by segment: a lookup of one path behind another is the lookup of the
-- second in what the first finds.
pub lookup_body_path-append :
    (v : Any) (ps qs : List String)
    → lookup_body_path v (ps ++ qs) ≡ and_then (lookup_body_path v ps) (λ w. lookup_body_path w qs)
unfolding lookup_body_path
lookup_body_path-append v [] qs = refl
lookup_body_path-append v (p ∷ ps) qs = elim (Option-cases (step_into v p)) [
  | inl missing ↦ rw (missing, lookup_body_path) refl
  | inr (w, found) ↦ rw (found, lookup_body_path) (lookup_body_path-append w ps qs)
]

walk_step :
    (v : Any) (seg : String) (rest : List String) (got : Any)
    → walk v (seg ∷ rest) ≡ some got
    → (w : Any) × (step_into v seg ≡ some w) × (walk w rest ≡ some got)
unfolding walk step_into
walk_step nil seg rest got h = cc
walk_step (Any.str t) seg rest got h = cc
walk_step (Any.int n) seg rest got h = cc
walk_step (Any.bool b) seg rest got h = cc
walk_step (Any.float x) seg rest got h = cc
walk_step (Any.time t) seg rest got h = cc
walk_step (Any.duration d) seg rest got h = cc
walk_step (list vs) seg rest got h = cc
walk_step (object m) seg rest got h = elim (Option-cases (lookup seg (entries m))) [
  | inl missing ↦ cc (rw (missing, walk) at h)
  | inr (w, found) ↦ (w, found, rw (found, walk) at h)
]

-- What the walk over maps finds, as for a step's body or an item, the lookup in a body finds too:
-- the lookup only adds the indices of lists.
pub lookup_body_path_of_walk :
    (v : Any) (path : List String) (got : Any)
    → walk v path ≡ some got
    → lookup_body_path v path ≡ some got
unfolding walk lookup_body_path
lookup_body_path_of_walk v [] got h = h
lookup_body_path_of_walk v (seg ∷ rest) got h =
    let (w, stepped, more) = walk_step v seg rest got h in
    rw (stepped, lookup_body_path) (lookup_body_path_of_walk w rest got more)

>>=-ok : (m : Result (List Any)) → (m >>= λ (b : List Any). ok b) ≡ m
>>=-ok (ok a) = refl
>>=-ok (err e) = refl

join_rows :
    (m a b : Result (List Any))
    → (m >>= λ (e : List Any).
        (a >>= λ (x : List Any). b >>= λ (y : List Any). ok (x ++ y)) >>= λ (l : List Any).
        ok (e ++ l))
      ≡ ((m >>= λ (e : List Any). a >>= λ (l : List Any). ok (e ++ l)) >>= λ (x : List Any).
          b >>= λ (y : List Any). ok (x ++ y))
join_rows (err e) a b = refl
join_rows (ok m) (err e) b = refl
join_rows (ok m) (ok a) (err e) = refl
join_rows (ok m) (ok a) (ok b) = ap (λ (l : List Any). ok l) (sym (append_assoc m a b))

-- The events of a csv or ndjson body are those of its first rows followed by those of the others,
-- and an error is that of the first row that has one.
pub rows_events-append :
    (rows more : List Any) (at : List String)
    → rows_events (rows ++ more) at ≡ (
        rows_events rows at >>= λ (a : List Any).
        rows_events more at >>= λ (b : List Any). ok (a ++ b))
unfolding rows_events
rows_events-append [] more at = sym (>>=-ok (rows_events more at))
rows_events-append (row ∷ rows) more at = elim (Option-cases (lookup_body_path row at)) [
  | inl missing ↦ rw (missing, rows_events) (rows_events-append rows more at)
  | inr (got, found) ↦
      rw (found, rows_events, rows_events-append rows more at)
        (join_rows (expected_list (as_list got)) (rows_events rows at) (rows_events more at))
]

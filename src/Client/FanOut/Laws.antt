-- ===== src/Client/FanOut/Laws.antt =====
-- What a fan-out merges.
use skopos.Base.{
  ◌≡◌, refl, inl, inr, List, [], ◌∷◌, ◌++◌, map, none, ok, err, msg, Error, Option-cases,
}
use skopos.Any.{Any, list, of_list, as_list}
use skopos.Any.Laws.{elems-of_list}
use skopos.Client.FanOut.{flatten_bodies, merge_fan_out_bodies}

abbrev pub joined : List (List Any) → List Any
joined [] = []
joined (vs ∷ vss) = vs ++ joined vss

abbrev pub as_body : List Any → Any
as_body vs = list (of_list vs)

flatten_bodies-joined : (vss : List (List Any)) → flatten_bodies (map as_body vss) ≡ ok (joined vss)
unfolding flatten_bodies
flatten_bodies-joined [] = refl
flatten_bodies-joined (vs ∷ vss) = rw (flatten_bodies-joined vss, elems-of_list vs) refl

-- The body that the bodies of the items are merged into under flatten is their concatenation, in
-- the order of the items, and under wrap the list of them.
pub merge_fan_out_bodies-joined :
    (vss : List (List Any))
    → (merge_fan_out_bodies "flatten" (map as_body vss) ≡ ok (as_body (joined vss)))
      × (merge_fan_out_bodies "wrap" (map as_body vss) ≡ ok (as_body (map as_body vss)))
unfolding merge_fan_out_bodies
merge_fan_out_bodies-joined vss = (rw (flatten_bodies-joined vss) refl, refl)

flatten_bodies_fails :
    (before after : List Any) (body : Any)
    → as_list body ≡ none
    → (e : Error) × (flatten_bodies (before ++ body ∷ after) ≡ err e)
unfolding flatten_bodies
flatten_bodies_fails [] after body other = (
  msg "merge: flatten requires every per-item response body to be a list",
  rw (other, flatten_bodies) refl,
)
flatten_bodies_fails (b ∷ before) after body other =
    let (e, failed) = flatten_bodies_fails before after body other in
    elim (Option-cases (as_list b)) [
      | inl other_kind ↦ (
        msg "merge: flatten requires every per-item response body to be a list",
        rw (other_kind, flatten_bodies) refl,
      )
      | inr (vs, found) ↦ (e, rw (found, flatten_bodies, failed) refl)
    ]

-- A flatten of bodies one of which is no list fails.
pub flatten_fails :
    (before after : List Any) (body : Any)
    → as_list body ≡ none
    → (e : Error) × (merge_fan_out_bodies "flatten" (before ++ body ∷ after) ≡ err e)
unfolding merge_fan_out_bodies
flatten_fails before after body other =
    let (e, failed) = flatten_bodies_fails before after body other in (e, rw failed refl)

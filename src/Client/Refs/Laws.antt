-- ===== src/Client/Refs/Laws.antt =====
-- The shortcuts of events.<...>.
use skopos.Base.{suc, String, ◌≡◌, refl, List, [], ◌∷◌, some, ok, pos, length, get_elem?, get_last?}
use skopos.Any.{Any, int, list, of_list}
use skopos.Any.Laws.{elems-of_list}
use skopos.Client.BodyPath.{walk}
use skopos.Client.Refs.{page_events, resolve_events, walk_found}

get_last?-get_elem? :
    (v : Any) (vs : List Any) → get_last? (v ∷ vs) ≡ get_elem? (v ∷ vs) (length vs)
get_last?-get_elem? v [] = refl
get_last?-get_elem? v (w ∷ vs) = get_last?-get_elem? w vs

-- On a page of n + 1 events, events.count is n + 1, and events.first.<path> and events.last.<path>
-- are what the path finds in the event at 0 and at n.
pub resolve_events-ends :
    (v : Any) (vs : List Any) (path : List String)
    → let page = list (of_list (v ∷ vs)) in
      (resolve_events page ("count" ∷ []) ≡ ok (some (int (pos (suc (length vs))))))
      × (resolve_events page ("first" ∷ path) ≡ ok (walk v path))
      × (resolve_events page ("last" ∷ path)
          ≡ ok (walk_found (get_elem? (v ∷ vs) (length vs)) path))
unfolding resolve_events page_events
resolve_events-ends v vs path =
    (rw (elems-of_list vs) refl, refl, rw (elems-of_list vs, get_last?-get_elem? v vs) refl)

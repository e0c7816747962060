-- ===== src/Any/Laws.antt =====
-- The two views of a decoded list agree.
use skopos.Base.{List, [], ◌∷◌, ◌≡◌, refl, ap}
use skopos.Any.{Any, elems, of_list}

pub elems-of_list : (vs : List Any) → elems (of_list vs) ≡ vs
elems-of_list [] = refl
elems-of_list (v ∷ vs) = ap (λ ws. v ∷ ws) (elems-of_list vs)

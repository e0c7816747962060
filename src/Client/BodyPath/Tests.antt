-- ===== src/Client/BodyPath/Tests.antt =====
-- Lookups in a small body.
use skopos.Base.{◌≡◌, refl, [], ◌∷◌, some, pos}
use skopos.Any.{Any, int, list, object, of_list, of_dict}
use skopos.Client.BodyPath.{walk, lookup_body_path}
use skopos.Client.Samples.{events}

abbrev body : Any
body = object (of_dict (("data", object (of_dict (("items", list (of_list events)) ∷ []))) ∷ []))

walks : walk body ("data" ∷ "items" ∷ []) ≡ some (list (of_list events))
unfolding walk
walks = refl

indexed : lookup_body_path body ("data" ∷ "items" ∷ "1" ∷ []) ≡ some (int (pos 9))
unfolding lookup_body_path
indexed = refl

-- ===== src/Client/Refs/Tests.antt =====
-- References to the events of a page.
use skopos.Base.{List, [], ◌∷◌, pos}
use skopos.Any.{Any, int, object, of_dict}
use skopos.Schema.Path.{RefPath, of_parts}

abbrev event : Any
event = object (of_dict (("id", int (pos 1)) ∷ []))

abbrev page : List Any
page = event ∷ int (pos 2) ∷ []

abbrev last_id : RefPath
last_id = of_parts ("events" ∷ "last" ∷ "id" ∷ [])

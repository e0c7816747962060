-- ===== src/Client/BodyPath.antt =====
-- client/bodypath.go, and walk of client/state.go.
pub mod Laws
mod Tests
use skopos.Base.{
  ℕ, String, Bool, true, false, List, [], ◌∷◌, ◌++◌, Option, none, some, ℤ, pos, negsuc, get_elem?,
  lookup, ◌==◌, if◌then◌else◌, Result, ok, err, msg, ◌>>=◌,
}
use skopos.Any.{Any, nil, list, object, elems, of_list, entries, as_list, as_object, end, cons}
use skopos.Schema.Path.{RefPath, is_empty}
use skopos.Client.Numerals.{parse_int}

-- walk: every segment is a key of a map. It gives no error.
unfoldable pub walk : Any → List String → Option Any
unfolding lookup
walk v [] = some v
walk v (seg ∷ rest) = elim (as_object v) [
  | none ↦ none
  | some m ↦ elim (lookup seg m) [ none ↦ none | some w ↦ walk w rest ]
]

-- list[idx] where idx is in range.
abbrev pub at_index : List Any → Option ℤ → Option Any
at_index vs none = none
at_index vs (some (negsuc n)) = none
at_index vs (some (pos i)) = get_elem? vs i

-- One segment of lookupBodyPath: a key of a map, or an index of a list.
unfoldable pub step_into : Any → String → Option Any
unfolding lookup parse_int
step_into (object m) seg = lookup seg (entries m)
step_into (list vs) seg = at_index (elems vs) (parse_int seg)
step_into v seg = none

unfoldable pub lookup_body_path : Any → List String → Option Any
unfolding step_into
lookup_body_path v [] = some v
lookup_body_path v (seg ∷ parts) = elim (step_into v seg) [
  | none ↦ none
  | some w ↦ lookup_body_path w parts
]

abbrev not_body : Result (List String × String)
not_body = err (msg "body-rooted path must be response.body.<path> or steps.<id>.body.<path>")

-- The arm of steps.<id>.body.<path>, behind the id.
strip_step : String → List String → Result (List String × String)
strip_step id [] = not_body
strip_step id (kind ∷ path) = if kind == "body" then ok (path, id) else not_body

-- The arms of stripBodyRoot, on the parts of a path that is not empty.
strip_parts : List String → Result (List String × String)
unfolding strip_step
strip_parts [] = ok ([], "")
strip_parts (root ∷ []) = not_body
strip_parts (root ∷ kind ∷ rest) =
    if root == "response"
    then (if kind == "body" then ok (rest, "") else not_body)
    else if root == "steps"
    then strip_step kind rest
    else not_body

unfoldable pub strip_body_root : RefPath → Result (List String × String)
unfolding is_empty strip_parts
strip_body_root p = if is_empty p then ok ([], "") else strip_parts p.parts

abbrev pub expected_list : Option (List Any) → Result (List Any)
expected_list none = err (msg "expected list")
expected_list (some vs) = ok vs

-- The loop over the rows of a csv or ndjson body: the lists at the path, one behind the other. Only
-- an absent path skips a row.
pub rows_events : List Any → List String → Result (List Any)
unfolding lookup_body_path
rows_events [] at = ok []
rows_events (row ∷ rows) at =
    let rest = rows_events rows at in
    elim (lookup_body_path row at) [
      | none ↦ rest
      | some got ↦ do events ← expected_list (as_list got); later ← rest; ok (events ++ later)
    ]

-- The whole body as the events: a list is them, nil is none, anything else is the one event.
abbrev body_events : Any → Option (List Any)
body_events nil = none
body_events (list vs) = some (elems vs)
body_events v = some (v ∷ [])

abbrev found_events : Option Any → Result (Option (List Any))
found_events none = ok none
found_events (some nil) = ok none
found_events (some got) = do events ← expected_list (as_list got); ok (some events)

-- A slice that append made out of nil stays nil when nothing was appended.
abbrev nil_if_empty : List Any → Option (List Any)
nil_if_empty [] = none
nil_if_empty (v ∷ vs) = some (v ∷ vs)

-- locateEvents. `none` is a nil slice, which the runner tells from an empty one; inside an `any` the
-- two are one value.
unfoldable pub locate_events : Any → List String → Bool → Result (Option (List Any))
unfolding lookup_body_path rows_events
locate_events body at true = elim (as_list body) [
  | none ↦ err (msg "row-oriented body must be a list of decoded rows")
  | some rows ↦ elim at [
    | [] ↦ ok (some rows)
    | seg ∷ segs ↦ do events ← rows_events rows (seg ∷ segs); ok (nil_if_empty events)
  ]
]
locate_events body [] false = ok (body_events body)
locate_events body (seg ∷ segs) false = found_events (lookup_body_path body (seg ∷ segs))

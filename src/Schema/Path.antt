-- ===== src/Schema/Path.antt =====
-- schema/path.go: dotted references, their parser and their codecs.
pub mod Split
pub mod Laws
mod Tests
use Prim.Native.Char.{code}
use Prim.Native.String
use skopos.Base.{
  ℕ, suc, ◌+◌, String, Bool, true, false, not, ◌&&◌, ◌||◌, List, [], ◌∷◌, Option, none, some, ◌==◌,
  leb, nat_beq, contains, lookup, if◌then◌else◌, Error, msg, Result, ok, err, context, ◌>>=◌, ◌>>◌,
}
use skopos.Any.{Any, nil, str, list, object, elems, entries, Elems, end, cons, Entries, done, entry}
use Split.{split_dot, join_dot, contains_dot}

pub record RefPath : Type 0 where
  pub parts : List String
  pub is_zero : Bool

abbrev pub zero_path : RefPath
zero_path = record { parts = []; is_zero = true }

abbrev pub of_parts : List String → RefPath
of_parts ps = record { parts = ps; is_zero = false }

-- pathClosedRoots
unfoldable pub closed_roots : List String
closed_roots = "state" ∷ "cache" ∷ "events" ∷ "extract" ∷ "steps" ∷ "response" ∷ []

-- The keys of pathRemovedRoots.
unfoldable pub removed_roots : List String
removed_roots = "cursor" ∷ "body" ∷ "item" ∷ []

abbrev is_letter : ℕ → Bool
is_letter c = nat_beq c b'_' || (leb b'a' c && leb c b'z') || (leb b'A' c && leb c b'Z')

abbrev is_digit : ℕ → Bool
is_digit c = leb b'0' c && leb c b'9'

-- The loop of isIdentifier, at index i.
identifier_from : ℕ → String → Bool
identifier_from i String.[] = true
identifier_from i (String.◌∷◌ r s) =
    let rest = identifier_from (suc i) s in
    if is_letter (code r)
    then rest
    else if is_digit (code r)
    then (if nat_beq i 0 then false else rest)
    else false

unfoldable pub is_identifier : String → Bool
unfolding identifier_from
is_identifier s = if s == "" then false else identifier_from 0 s

unfoldable pub validate_path_root : String → Result (Unit {0})
unfolding closed_roots removed_roots is_identifier
validate_path_root root =
    if contains root closed_roots
    then ok tt
    else if contains root removed_roots
    then err (msg "namespace root is not recognised: removed root")
    else if not (is_identifier root)
    then err (msg "namespace root is not recognised")
    else ok tt

-- Root
unfoldable pub root_of : RefPath → String
root_of p = elim p.parts [ [] ↦ "" | r ∷ ps ↦ r ]

abbrev no_parts : List String → Bool
no_parts [] = true
no_parts (x ∷ xs) = false

unfoldable pub is_empty : RefPath → Bool
is_empty p = p.is_zero || no_parts p.parts

-- String
unfoldable pub to_string : RefPath → String
unfolding join_dot
to_string p = join_dot p.parts

-- Segments that are not empty, behind a legal root: the checks that follow the split.
check_parts : List String → Result RefPath
unfolding validate_path_root
check_parts [] = err (msg "schema.Path: parts must be non-empty")
check_parts (r ∷ ps) =
    if contains "" (r ∷ ps)
    then err (msg "schema.Path: empty segment")
    else do context "schema.Path" (validate_path_root r); ok (of_parts (r ∷ ps))

unfoldable pub parse_path : String → Result RefPath
unfolding check_parts split_dot
parse_path s = if s == "" then ok zero_path else check_parts (split_dot s)

any_dot : List String → Bool
unfolding contains_dot
any_dot [] = false
any_dot (seg ∷ ps) = contains_dot seg || any_dot ps

unfoldable pub needs_escape : RefPath → Bool
unfolding any_dot
needs_escape p = any_dot p.parts

-- The list of strings in a `parts` array; an element that is no string, or empty, is an error.
string_parts : Elems → Result (List String)
string_parts end = ok []
string_parts (cons (str s) vs) =
    if s == ""
    then err (msg "schema.Path: 'parts' element must be a non-empty string")
    else do rest ← string_parts vs; ok (s ∷ rest)
string_parts (cons v vs) = err (msg "schema.Path: 'parts' element must be a non-empty string")

parts_of : Option Any → Result RefPath
unfolding string_parts check_parts
parts_of none = err (msg "schema.Path: JSON object must have a 'parts' key")
parts_of (some (list vs)) = do parts ← string_parts vs; check_parts parts
parts_of (some v) = err (msg "schema.Path: 'parts' must be an array")

-- UnmarshalJSON, on what json.Unmarshal makes of the bytes.
unfoldable pub unmarshal_json : Any → Result RefPath
unfolding parse_path parts_of lookup
unmarshal_json nil = ok zero_path
unmarshal_json (str s) = parse_path s
unmarshal_json (object m) = parts_of (lookup "parts" (entries m))
unmarshal_json v = err (msg "schema.Path: unexpected JSON type")

-- The kinds of a yaml.Node that UnmarshalYAML tells apart, a mapping with the outcome of its
-- node.Decode into the struct with the `parts` field.
pub data YamlNode : Type 0 where
  null_scalar : YamlNode
  scalar : String → YamlNode
  mapping : Result (List String) → YamlNode
  other_kind : YamlNode

unfoldable pub unmarshal_yaml : YamlNode → Result RefPath
unfolding parse_path check_parts
unmarshal_yaml null_scalar = ok zero_path
unmarshal_yaml (scalar s) = context "line" (parse_path s)
unmarshal_yaml (mapping m) = do parts ← context "schema.Path map" m; check_parts parts
unmarshal_yaml other_kind = err (msg "schema.Path: unsupported YAML node kind")

abbrev string_elems : List String → Elems
string_elems [] = end
string_elems (p ∷ ps) = cons (str p) (string_elems ps)

-- MarshalJSON, before json.Marshal writes the value out.
unfoldable pub marshal_json : RefPath → Any
unfolding is_empty needs_escape to_string
marshal_json p =
    if is_empty p
    then str ""
    else if needs_escape p
    then object (entry "parts" (list (string_elems p.parts)) done)
    else str (to_string p)

-- MarshalYAML, as the node that yaml.v3 reads back.
unfoldable pub marshal_yaml : RefPath → YamlNode
unfolding is_empty needs_escape to_string
marshal_yaml p =
    if is_empty p
    then scalar ""
    else if needs_escape p
    then mapping (ok p.parts)
    else scalar (to_string p)

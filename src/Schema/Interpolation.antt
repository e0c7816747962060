-- ===== src/Schema/Interpolation.antt =====
-- String interpolation in schema/value.go: how a string scalar becomes a value.
pub mod Laws
mod Tests
use Prim.Native.Char.{Char, code}
use Prim.Native.String
use skopos.Base.{
  ℕ, zero, suc, ℤ, String, Bool, true, false, ◌&&◌, ◌||◌, List, [], ◌∷◌, Option, none, some,
  nat_beq, ◌==◌, if◌then◌else◌, Result, ok, err, msg, context, ◌>>=◌,
}
use skopos.Schema.Path.{RefPath, parse_path}
use skopos.Schema.Value.{
  Value, Values, literal_string, literal_int, literal_bool, ref, concat, OptionalValue, absent,
  given, end, cons,
}
use skopos.Schema.Value as V

-- What the loop of desugarInterpolation appends to `segments` or parses: a piece of text, the body of
-- a segment, or an open segment, at which it fails.
pub data Piece : Type 0 where
  text : String → Piece
  segment : String → Piece
  unterminated : Piece

abbrev pub is_char : ℕ → Char → Bool
is_char n c = nat_beq (code c) n

-- lit.WriteByte, in front of what follows
abbrev pub add_char : Char → List Piece → List Piece
add_char c (text t ∷ ps) = text (String.◌∷◌ c t) ∷ ps
add_char c ps = text (String.◌∷◌ c "") ∷ ps

-- b.WriteByte, likewise
abbrev pub add_body : Char → List Piece → List Piece
add_body c (segment b ∷ ps) = segment (String.◌∷◌ c b) ∷ ps
add_body c ps = ps

unfoldable mutual
  -- The loop of desugarInterpolation. '\' is 92.
  pub pieces : String → List Piece
  pieces String.[] = []
  pieces (String.◌∷◌ c String.[]) = add_char c []
  pieces (String.◌∷◌ c (String.◌∷◌ d s)) = elim (is_char 92 c && is_char b'$' d) [
    | true ↦ add_char d (pieces s)
    | false ↦ elim (is_char b'$' c && is_char b'{' d) [
      | true ↦ body_pieces s
      | false ↦ add_char c (pieces (String.◌∷◌ d s))
    ]
  ]

  -- scanInterpSegment, and the loop behind its end
  pub body_pieces : String → List Piece
  body_pieces String.[] = unterminated ∷ []
  body_pieces (String.◌∷◌ c String.[]) =
      if is_char b'}' c then segment "" ∷ [] else unterminated ∷ []
  body_pieces (String.◌∷◌ c (String.◌∷◌ d s)) = elim (is_char 92 c && is_char b'{' d) [
    | true ↦ add_body d (body_pieces s)
    | false ↦ elim (is_char b'}' c) [
      | true ↦ segment "" ∷ pieces (String.◌∷◌ d s)
      | false ↦ add_body c (body_pieces (String.◌∷◌ d s))
    ]
  ]

-- strings.ContainsRune(s, '$')
unfoldable pub has_dollar : String → Bool
has_dollar String.[] = false
has_dollar (String.◌∷◌ c s) = is_char b'$' c || has_dollar s

abbrev ahead : Char → String × Option String → String × Option String
ahead c (before, after) = (String.◌∷◌ c before, after)

-- strings.Cut(body, "|")
unfoldable pub cut_bar : String → String × Option String
cut_bar String.[] = ("", none)
cut_bar (String.◌∷◌ c s) =
    let rest = cut_bar s in if is_char b'|' c then ("", some s) else ahead c rest

-- The YAML scalar behind a '|': its tag, with what node.Decode makes of it where the tag asks for it.
pub data YamlScalar : Type 0 where
  null : YamlScalar
  int : Option ℤ → YamlScalar
  bool : Option Bool → YamlScalar
  plain : String → YamlScalar

-- yaml.Unmarshal of a default: no content, a scalar, or a node of another kind.
pub data YamlDefault : Type 0 where
  nothing : YamlDefault
  scalar : YamlScalar → YamlDefault
  collection : YamlDefault

-- MarshalYAML of a scalar: yaml.Marshal quotes a string where it must to keep its tag.
unfoldable pub marshal_yaml_scalar : Value → Option YamlScalar
marshal_yaml_scalar V.zero = some null
marshal_yaml_scalar (literal_int n) = some (int (some n))
marshal_yaml_scalar (literal_bool b) = some (bool (some b))
marshal_yaml_scalar (literal_string s) = some (plain s)
marshal_yaml_scalar v = none

abbrev gather : List Value → Values
gather [] = end
gather (v ∷ vs) = cons v (gather vs)

-- The switch on len(segments).
abbrev pub value_of_segments : List Value → Value
value_of_segments [] = literal_string ""
value_of_segments (v ∷ []) = v
value_of_segments (v ∷ w ∷ vs) = concat (gather (v ∷ w ∷ vs))

abbrev decoded : {A : Type 0} → String → (A → Value) → Option A → Result Value
decoded label make none = err (msg label)
decoded label make (some a) = ok (make a)

-- strings.TrimSpace and yaml.Unmarshal are the arguments; an error of the latter is `none`. A default
-- may hold a segment of its own: `again` is desugarInterpolation on its text.
module _ (trim_space : String → String) (yaml : String → Option YamlDefault)
    (again : String → Result Value) where
  -- unmarshalYAMLScalar
  abbrev pub unmarshal_yaml_scalar : YamlScalar → Result Value
  unmarshal_yaml_scalar null = ok V.zero
  unmarshal_yaml_scalar (int n) = decoded "schema.Value int" literal_int n
  unmarshal_yaml_scalar (bool b) = decoded "schema.Value bool" literal_bool b
  unmarshal_yaml_scalar (plain s) = context "schema.Value" (again s)

  abbrev default_of_node : String → Option YamlDefault → Result Value
  default_of_node t none = err (msg "yaml")
  default_of_node t (some nothing) = ok (literal_string t)
  default_of_node t (some collection) = err (msg "default must be a scalar")
  default_of_node t (some (scalar node)) = unmarshal_yaml_scalar node

  -- parseInterpDefault
  abbrev pub parse_interp_default : String → Result Value
  parse_interp_default t = if t == "" then ok (literal_string "") else default_of_node t (yaml t)

  abbrev parse_fallback : Option String → Result OptionalValue
  parse_fallback none = ok absent
  parse_fallback (some t) = do v ← context "default" (parse_interp_default t); ok (given v)

  -- parseInterpSegment
  unfoldable pub parse_interp_segment : String → Result Value
  unfolding cut_bar parse_path
  parse_interp_segment body =
      let (before, after) = cut_bar body in
      if trim_space before == "" then err (msg "empty path") else do
        p ← parse_path (trim_space before)
        fallback ← parse_fallback after
        ok (ref p fallback)

  -- The values of the segments, up to the first error.
  unfoldable pub values_of : List Piece → Result (List Value)
  unfolding parse_interp_segment
  values_of [] = ok []
  values_of (text t ∷ ps) = do vs ← values_of ps; ok (literal_string t ∷ vs)
  values_of (segment b ∷ ps) = do
    v ← context "interpolation segment" (parse_interp_segment b)
    vs ← values_of ps
    ok (v ∷ vs)
  values_of (unterminated ∷ ps) = err (msg "unterminated ${...} segment")

-- desugarInterpolation, with fuel for the defaults.
unfoldable pub desugar_interpolation :
    (String → String) → (String → Option YamlDefault) → ℕ → String → Result Value
unfolding pieces has_dollar values_of
desugar_interpolation trim_space yaml zero s = err (msg "out of fuel")
desugar_interpolation trim_space yaml (suc fuel) s =
    let vs = values_of trim_space yaml (desugar_interpolation trim_space yaml fuel) (pieces s) in
    if has_dollar s then (do got ← vs; ok (value_of_segments got)) else ok (literal_string s)

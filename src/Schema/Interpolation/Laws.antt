-- ===== src/Schema/Interpolation/Laws.antt =====
-- A text in which every '$' is escaped is a literal.
use Prim.Native.Char.{Char}
use skopos.Base.{
  subst, Result, some, ℕ, suc, String, ◌≡◌, refl, ap, ◌∙◌, inl, inr, Bool, true, false, not, List,
  [], ◌∷◌, Option, if◌then◌else◌, ok, ◌>>=◌, arith, Bool-cases,
}
use skopos.Schema.Value.{Value, literal_string, literal_int, literal_bool}
use skopos.Schema.Value as V
use skopos.Schema.Interpolation.{
  marshal_yaml_scalar, unmarshal_yaml_scalar, YamlScalar, null, int, bool, Piece, text, is_char,
  add_char, pieces, has_dollar, values_of, value_of_segments, YamlDefault, desugar_interpolation,
}

-- A '\' in front of every '$'.
unfoldable pub escape_dollar : String → String
escape_dollar String.[] = ""
escape_dollar (String.◌∷◌ c s) =
    let rest = escape_dollar s in
    if is_char b'$' c then String.◌∷◌ "\\" (String.◌∷◌ c rest) else String.◌∷◌ c rest

abbrev whole : String → List Piece
whole String.[] = []
whole (String.◌∷◌ c s) = text (String.◌∷◌ c s) ∷ []

add_char-whole : (c : Char) (s : String) → add_char c (whole s) ≡ whole (String.◌∷◌ c s)
add_char-whole c String.[] = refl
add_char-whole c (String.◌∷◌ d s) = refl

-- No text behind a '\\' or a '$' begins with a '$'.
abbrev plain_head : String → Bool
plain_head String.[] = true
plain_head (String.◌∷◌ d t) = not (is_char b'$' d)

plain_head-escape_dollar : (s : String) → plain_head (escape_dollar s) ≡ true
unfolding escape_dollar
plain_head-escape_dollar String.[] = refl
plain_head-escape_dollar (String.◌∷◌ c s) = elim (Bool-cases (is_char b'$' c)) [
  | inl dollar ↦ rw dollar refl
  | inr other ↦ rw (other, other) refl
]

pieces-cons :
    (c : Char) (t : String)
    → is_char b'$' c ≡ false
    → plain_head t ≡ true
    → pieces (String.◌∷◌ c t) ≡ add_char c (pieces t)
unfolding pieces
pieces-cons c String.[] other h = refl
pieces-cons c (String.◌∷◌ d t) other h = elim (Bool-cases (is_char 92 c)) [
  | inl slash ↦
      let fine : is_char b'$' d ≡ false = ground arith in rw (slash, fine, other, pieces) refl
  | inr plain ↦ rw (plain, other, pieces) refl
]

pieces_escaped :
    (c : Char) (t : String)
    → is_char b'$' c ≡ true
    → pieces (String.◌∷◌ "\\" (String.◌∷◌ c t)) ≡ add_char c (pieces t)
unfolding pieces
pieces_escaped c t dollar = rw (pieces, dollar) refl

pieces-escape_dollar : (s : String) → pieces (escape_dollar s) ≡ whole s
unfolding pieces escape_dollar
pieces-escape_dollar String.[] = refl
pieces-escape_dollar (String.◌∷◌ c s) = elim (Bool-cases (is_char b'$' c)) [
  | inl dollar ↦ rw dollar (
      pieces_escaped c (escape_dollar s) dollar
      ∙ ap (add_char c) (pieces-escape_dollar s)
      ∙ add_char-whole c s)
  | inr other ↦ rw other (
      pieces-cons c (escape_dollar s) other (plain_head-escape_dollar s)
      ∙ ap (add_char c) (pieces-escape_dollar s)
      ∙ add_char-whole c s)
]

escape_dollar_of_plain : (s : String) → has_dollar (escape_dollar s) ≡ false → escape_dollar s ≡ s
unfolding has_dollar escape_dollar
escape_dollar_of_plain String.[] h = refl
escape_dollar_of_plain (String.◌∷◌ c s) h = elim (Bool-cases (is_char b'$' c)) [
  | inl dollar ↦ cc (rw (dollar, dollar) at h)
  | inr other ↦
      let rest : has_dollar (escape_dollar s) ≡ false = ground arith in
      rw (other, escape_dollar_of_plain s rest)
]

-- A text is the literal that its interpolation makes of it when every '$' in it has a '\\' in front: any
-- string can be written in a document.
pub desugar_interpolation-escape_dollar :
    (trim_space : String → String) (yaml : String → Option YamlDefault) (fuel : ℕ) (s : String)
    → desugar_interpolation trim_space yaml (suc fuel) (escape_dollar s) ≡ ok (literal_string s)
unfolding desugar_interpolation values_of
desugar_interpolation-escape_dollar trim_space yaml fuel s =
    elim (Bool-cases (has_dollar (escape_dollar s))) [
      | inr plain ↦ rw (plain, escape_dollar_of_plain s plain)
      | inl dollar ↦ rw (dollar, pieces-escape_dollar s) (one_literal s)
    ]
  where
    one_literal :
        (t : String)
        → (values_of trim_space yaml (desugar_interpolation trim_space yaml fuel) (whole t)
            >>= λ vs. ok (value_of_segments vs))
          ≡ ok (literal_string t)
    one_literal String.[] = refl
    one_literal (String.◌∷◌ c t) = refl

abbrev pub decode_again :
    (String → String) → (String → Option YamlDefault) → ℕ → YamlScalar → Result Value
decode_again trim_space yaml fuel node =
    unmarshal_yaml_scalar trim_space yaml (desugar_interpolation trim_space yaml (suc fuel)) node

-- A literal string that holds a '$'.
abbrev pub has_dollar_literal : Value → Bool
has_dollar_literal (literal_string s) = has_dollar s
has_dollar_literal v = false

-- A scalar that MarshalYAML writes is decoded as itself, unless it is a string with a '$'.
pub unmarshal_yaml_scalar-marshal :
    (trim_space : String → String) (yaml : String → Option YamlDefault) (fuel : ℕ) (v : Value)
    (node : YamlScalar)
    → marshal_yaml_scalar v ≡ some node
    → has_dollar_literal v ≡ false
    → decode_again trim_space yaml fuel node ≡ ok v
unfolding marshal_yaml_scalar desugar_interpolation
unmarshal_yaml_scalar-marshal trim_space yaml fuel V.zero node written clear =
    let e : null ≡ node = cc in subst (λ n. decode_again trim_space yaml fuel n ≡ ok V.zero) e refl
unmarshal_yaml_scalar-marshal trim_space yaml fuel (literal_int k) node written clear =
    let e : int (some k) ≡ node = cc in
    subst (λ n. decode_again trim_space yaml fuel n ≡ ok (literal_int k)) e refl
unmarshal_yaml_scalar-marshal trim_space yaml fuel (literal_bool b) node written clear =
    let e : bool (some b) ≡ node = cc in
    subst (λ n. decode_again trim_space yaml fuel n ≡ ok (literal_bool b)) e refl
unmarshal_yaml_scalar-marshal trim_space yaml fuel (literal_string s) node written clear =
    let e : YamlScalar.plain s ≡ node = cc in
    subst (λ n. decode_again trim_space yaml fuel n ≡ ok (literal_string s)) e (rw clear refl)
unmarshal_yaml_scalar-marshal trim_space yaml fuel v node written clear = cc

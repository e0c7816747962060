-- ===== src/Schema/Interpolation/Tests.antt =====
-- Interpolations of small texts.
use skopos.Base.{String, ◌≡◌, refl, [], ◌∷◌, Option, some, pos, ok, err, msg, ◌==◌, if◌then◌else◌}
use skopos.Schema.Path.{of_parts}
use skopos.Schema.Value.{literal_string, literal_int, ref, concat, absent, given, cons, end}
use skopos.Schema.Interpolation.{
  marshal_yaml_scalar, YamlDefault, int, plain, scalar, desugar_interpolation,
}
use skopos.Schema.Interpolation.Laws.{
  decode_again, escape_dollar, desugar_interpolation-escape_dollar,
}

abbrev yaml : String → Option YamlDefault
yaml t = some (scalar (if t == "5" then int (some (pos 5)) else plain t))

joins :
    desugar_interpolation (λ t. t) yaml 2 "a${state.x|5}"
    ≡ ok (
        concat (
          cons
            (literal_string "a")
            (cons (ref (of_parts ("state" ∷ "x" ∷ [])) (given (literal_int (pos 5)))) end)))
unfolding desugar_interpolation
joins = refl

single :
    desugar_interpolation (λ t. t) yaml 1 "${state.x}"
    ≡ ok (ref (of_parts ("state" ∷ "x" ∷ [])) absent)
unfolding desugar_interpolation
single = refl

open_segment :
    desugar_interpolation (λ t. t) yaml 1 "$${state.x" ≡ err (msg "unterminated ${...} segment")
unfolding desugar_interpolation
open_segment = refl

escaped : escape_dollar "${x}" ≡ "\\${x}"
unfolding escape_dollar
escaped = refl

-- A literal with a '$' is written as it is, and read back as a reference.
written : marshal_yaml_scalar (literal_string "${state.x}") ≡ some (plain "${state.x}")
unfolding marshal_yaml_scalar
written = refl

read_back :
    decode_again (λ t. t) yaml 0 (plain "${state.x}")
    ≡ ok (ref (of_parts ("state" ∷ "x" ∷ [])) absent)
unfolding desugar_interpolation
read_back = refl

desugar_interpolation-escape_dollar_example :
    desugar_interpolation (λ t. t) yaml 1 (escape_dollar "${x}") ≡ ok (literal_string "${x}")
desugar_interpolation-escape_dollar_example =
    desugar_interpolation-escape_dollar (λ t. t) yaml 0 "${x}"

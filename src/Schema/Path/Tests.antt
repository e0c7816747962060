-- ===== src/Schema/Path/Tests.antt =====
-- Runs of the path parser, and the theorems about it at concrete paths.
use skopos.Base.{String, ◌≡◌, refl, ◌⊎◌, false, List, [], ◌∷◌, ok}
use skopos.Any.{str}
use skopos.Schema.Path.{
  zero_path, of_parts, validate_path_root, to_string, parse_path, unmarshal_json, unmarshal_yaml,
  marshal_json, marshal_yaml,
}
use skopos.Schema.Path.Laws.{IsLegal, unmarshal-marshal, parse_path_sound}

parse_tests :
    (parse_path "events.last.timestamp" ≡ ok (of_parts ("events" ∷ "last" ∷ "timestamp" ∷ [])))
    × (unmarshal_json (str "") ≡ ok zero_path)
    × (validate_path_root "state" ≡ ok tt)
    × (validate_path_root "item9" ≡ ok tt)
unfolding parse_path unmarshal_json validate_path_root
parse_tests = (refl, refl, refl, refl)

abbrev escaped : List String
escaped = "steps" ∷ "my.weird.id" ∷ "body" ∷ []

escaped-IsLegal : IsLegal escaped
unfolding validate_path_root
escaped-IsLegal = (refl, refl)

unmarshal-marshal_example :
    (unmarshal_json (marshal_json (of_parts escaped)) ≡ ok (of_parts escaped))
    × (unmarshal_yaml (marshal_yaml (of_parts escaped)) ≡ ok (of_parts escaped))
unmarshal-marshal_example = unmarshal-marshal escaped escaped-IsLegal

parse_path_sound_example :
    (to_string (of_parts ("state" ∷ "x" ∷ [])) ≡ "state.x")
    × ((of_parts ("state" ∷ "x" ∷ []) ≡ zero_path)
        ⊎ ((◌≡◌ {A = _} false false) × IsLegal ("state" ∷ "x" ∷ [])))
unfolding parse_path
parse_path_sound_example = parse_path_sound "state.x" (of_parts ("state" ∷ "x" ∷ [])) refl

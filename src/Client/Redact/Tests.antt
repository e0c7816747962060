-- ===== src/Client/Redact/Tests.antt =====
-- A document with a secret field, and what is said of its values.
use skopos.Base.{Dict, pos, false, ◌≡◌, refl, [], ◌∷◌, none, lookup, arith, eq_iff}
use skopos.Any.{Any, str}
use skopos.Schema.Path.{of_parts}
use skopos.Schema.Value.{Value, literal_string, ref, concat, absent, cons, end}
use skopos.Schema.Doc.{Doc}
use skopos.Schema.Secret.{is_secret}
use skopos.Client.Eval.{eval_value}
use skopos.Client.Redact.{redact_value}
use skopos.Client.Redact.Laws.{AgreeOutsideSecrets, eval_value_of_not_secret}
use skopos.Client.Samples.{platform, doc, scope, page}

abbrev secret_doc : Doc
secret_doc = record doc {
  state =
      ("page", record { type_name = "int"; initial = none; values = []; format = "" })
      ∷ ("key", record { type_name = "secret"; initial = none; values = []; format = "" })
      ∷ [];
}

abbrev other_state : Dict Any
other_state = ("page", Any.int (pos 4)) ∷ ("since", Any.int (pos 5)) ∷ ("key", str "k2") ∷ []

abbrev with_key : Value
with_key =
    concat
      (cons (literal_string "Bearer ") (cons (ref (of_parts ("state" ∷ "key" ∷ [])) absent) end))

redacted : redact_value (λ t. t) secret_doc with_key ≡ "<redacted>"
unfolding redact_value
redacted = refl

shown : redact_value (λ t. t) secret_doc (ref page absent) ≡ "<ref state.page>"
unfolding redact_value
shown = refl

agree : AgreeOutsideSecrets secret_doc scope.state other_state
unfolding lookup
agree name h = ground (arith, eq_iff "page" name, eq_iff "key" name, eq_iff "since" name)

page_is_clear : is_secret secret_doc (ref page absent) ≡ false
unfolding is_secret
page_is_clear = refl

eval_value_of_not_secret_example :
    eval_value platform scope (ref page absent)
    ≡ eval_value platform (record scope { state = other_state }) (ref page absent)
eval_value_of_not_secret_example =
    eval_value_of_not_secret platform secret_doc scope other_state agree (ref page absent)
      page_is_clear

-- ===== src/Client/Http/Reads.antt =====
-- The steps that build a request, up to its credentials, write nothing to the scope.
use skopos.Base.{[], ◌∷◌, Option, none, some, Dict}
use skopos.Schema.Value.{Value}
use skopos.Schema.Doc.{Body, json, form, raw, no_variant}
use skopos.Client.Platform.{Platform}
use skopos.Client.Scope.{Scope, Header}
use skopos.Client.Exec.{Keeps, Keeps-pure, Keeps-reads, Keeps-bind, keeps_rules}
use skopos.Client.Wire.{Wire, Values}
use skopos.Client.Http.{
  build_url, eval_query, eval_headers, eval_json, eval_form, build_body, optional_body,
}

module _ (platform : Platform) (w : Wire) {P : Scope → Type 0} where
  pub Keeps-eval_query : (m : Dict Value) (q : Values) → Keeps P (eval_query platform w m q)
  unfolding eval_query
  Keeps-eval_query [] q = search keeps_rules
  Keeps-eval_query ((k, v) ∷ m) q = Keeps-bind _ _ (Keeps-reads _) (λ got. Keeps-eval_query m _)

  pub Keeps-eval_headers : (m : Dict Value) (h : Header) → Keeps P (eval_headers platform w m h)
  unfolding eval_headers
  Keeps-eval_headers [] h = search keeps_rules
  Keeps-eval_headers ((k, v) ∷ m) h = Keeps-bind _ _ (Keeps-reads _) (λ t. Keeps-eval_headers m _)

  pub Keeps-eval_form : (m : Dict Value) (vals : Values) → Keeps P (eval_form platform w m vals)
  unfolding eval_form
  Keeps-eval_form [] vals = search keeps_rules
  Keeps-eval_form ((k, v) ∷ m) vals = Keeps-bind _ _ (Keeps-reads _) (λ t. Keeps-eval_form m _)

  pub Keeps-eval_json : (m : Dict Value) → Keeps P (eval_json platform w m)
  unfolding eval_json
  Keeps-eval_json [] = search keeps_rules
  Keeps-eval_json ((k, v) ∷ m) =
      Keeps-bind _ _ (Keeps-reads _)
        λ got. Keeps-bind _ _ (Keeps-eval_json m) (λ rest. Keeps-pure _)

  pub Keeps-build_body : (b : Body) → Keeps P (build_body platform w b)
  unfolding build_body
  Keeps-build_body (json m) = search (keeps_rules, Keeps-eval_json)
  Keeps-build_body (form m) = search (keeps_rules, Keeps-eval_form)
  Keeps-build_body (raw v) = search keeps_rules
  Keeps-build_body no_variant = search keeps_rules

  pub Keeps-optional_body : (b : Option Body) → Keeps P (optional_body platform w b)
  Keeps-optional_body none = search keeps_rules
  Keeps-optional_body (some b) = search (keeps_rules, Keeps-build_body)

  pub Keeps-build_url : (v : Value) → Keeps P (build_url platform w v)
  unfolding build_url
  Keeps-build_url v = search keeps_rules

-- ===== src/Client/Trace/Body.antt =====
-- Two runs of the steps that read a text or a body.
use skopos.Base.{String, ◌≡◌, refl, Option, none, some}
use skopos.Schema.Value.{Value}
use skopos.Schema.Doc.{Body, json, form, raw, no_variant}
use skopos.Client.Platform.{Platform}
use skopos.Client.Scope.{Scope}
use skopos.Client.Exec.{Exec, pure, ◌>>=◌, Keeps-reads, Keeps-labelled}
use skopos.Client.Exec.Twin.{Twin, Twin-reads, Twin-pure, Twin-labelled, Twin-bind, Twin-after}
use skopos.Client.Wire.{Wire}
use skopos.Client.Auth.{text_of}
use skopos.Client.Http.{build_body, optional_body}
use skopos.Client.Http.Reads.{Keeps-eval_json, Keeps-eval_form, Keeps-build_body}

module _ (platform : Platform) (w : Wire) (s s' : Scope) where
  pub Twin-after_text :
      {B : Type 0} (Q : B → B → Type 0) (label : String) (v : Value) (f f' : String → Exec B)
      → ((t t' : String) → Twin s s' Q (f t) (f' t'))
      → Twin s s' Q (text_of platform w label v >>= f) (text_of platform w label v >>= f')
  Twin-after_text Q label v f f' k =
      Twin-after s s' Q (text_of platform w label v) (text_of platform w label v) f f'
        (Keeps-reads _) (Keeps-reads _) k

  -- The content type of a body depends on its variant alone.
  abbrev pub SameKind : {A : Type 0} → A × String → A × String → Type 0
  SameKind p p' = p.1 ≡ p'.1

  abbrev typed : String → String → Exec (String × String)
  typed kind t = pure (t, kind)

  Twin-build_body :
      (b : Body) → Twin s s' SameKind (build_body platform w b) (build_body platform w b)
  unfolding build_body
  Twin-build_body (json fields) =
      Twin-after s s' SameKind _ _ _ _ (Keeps-eval_json platform w fields)
        (Keeps-eval_json platform w fields)
        λ out out'.
          Twin-after {A = String} s s' SameKind _ _ (typed "application/json")
            (typed "application/json") (Keeps-reads _) (Keeps-reads _)
            λ t t'. Twin-pure s s' SameKind (t, "application/json") (t', "application/json") refl
  Twin-build_body (form fields) =
      Twin-after s s' SameKind _ _ _ _ (Keeps-eval_form platform w fields _)
        (Keeps-eval_form platform w fields _) λ out out'. Twin-pure s s' SameKind _ _ refl
  Twin-build_body (raw v) =
      Twin-after_text SameKind "body.raw" v (typed "") (typed "")
        λ t t'. Twin-pure s s' SameKind (t, "") (t', "") refl
  Twin-build_body no_variant = Twin-reads s s' SameKind _ _ (λ a a' h h'. cc)

  pub Twin-optional_body :
      (b : Option Body)
      → Twin s s' SameKind (optional_body platform w b) (optional_body platform w b)
  Twin-optional_body none = Twin-pure s s' SameKind _ _ refl
  Twin-optional_body (some b) =
      Twin-bind s s' SameKind SameKind _ _ _ _ (Keeps-labelled _ _ (Keeps-build_body platform w b))
        (Keeps-labelled _ _ (Keeps-build_body platform w b))
        (Twin-labelled s s' SameKind "body" _ _ (Twin-build_body b))
        λ p p' same. Twin-pure s s' SameKind _ _ same

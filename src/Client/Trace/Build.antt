-- ===== src/Client/Trace/Build.antt =====
-- Two runs that build the same request, with header sets that are alike outside hidden names.
use skopos.Base.{
  String, ◌≡◌, refl, ap, ◌∙◌, ◌⊎◌, inl, inr, Bool, true, false, List, [], ◌∷◌, Option, Dict,
  contains, Result, eq_refl, Bool-cases, Option-cases,
}
use skopos.Any.{Any, is_nil}
use skopos.Schema.Value.{Value}
use skopos.Schema.Doc.{
  Doc, Request, no_variant, Auth, no_auth, bearer, basic, api_key, custom, oauth2, sigv4,
  multi_mode, Oauth2Auth,
}
use skopos.Schema.Secret.{is_secret}
use skopos.Client.Platform.{Platform}
use skopos.Client.Scope.{Scope, Header}
use skopos.Client.Eval.{eval_value}
use skopos.Client.Exec.{
  Exec, pure, labelled, ◌>>=◌, Keeps-reads, Keeps-labelled, keeps_rules, bind-eq-ok,
}
use skopos.Client.Exec.Twin.{Twin, Twin-reads, Twin-pure, Twin-labelled, Twin-bind, Twin-after}
use skopos.Client.Redact.Laws.{AgreeOutsideSecrets, eval_value_of_not_secret}
use skopos.Client.Wire.{Wire, HttpRequest, Url}
use skopos.Client.Token.{set_header, apply_oauth2, oauth2_token, grant_of}
use skopos.Client.Auth.{text_of, with_header, with_query, apply_auth, bearer_header, basic_pair}
use skopos.Client.Http.{
  eval_headers, optional_body, build_request, build_url, eval_query, method_of, accepts,
  content_type,
}
use skopos.Client.Http.Reads.{
  Keeps-eval_query, Keeps-eval_headers, Keeps-optional_body, Keeps-build_url,
}
use skopos.Client.Trace.Alike.{Alike, Alike-refl, Alike-insert}
use skopos.Client.Trace.Body.{SameKind, Twin-after_text, Twin-optional_body}
use skopos.Client.Trace.{auth_names}

-- Every variant but sigv4, whose signer sets headers of its own, and multi_mode.
abbrev pub is_single : Auth → Bool
is_single (sigv4 a) = false
is_single (multi_mode bs fallback) = false
is_single a = true

module _ (platform : Platform) (to_lower : String → String)
    (lower : (k : String) → to_lower (platform.canonical_header k) ≡ to_lower k)
    (hidden : List String) where
  self_named : (header : String) → contains (to_lower header) (to_lower header ∷ []) ≡ true
  self_named header = rw (eq_refl (to_lower header)) refl

  abbrev AlikeSets : Header → Header → Type 0
  AlikeSets h h' = Alike to_lower hidden h h'

  Alike-set_header :
      (n v v' : String) (h h' : Header)
      → (contains (to_lower n) hidden ≡ true) ⊎ (v ≡ v')
      → AlikeSets h h'
      → AlikeSets (set_header platform n v h) (set_header platform n v' h')
  Alike-set_header n v v' h h' (inl covered) a =
      Alike-insert to_lower hidden (platform.canonical_header n) (v ∷ []) (v' ∷ []) h h'
        (inl (ap (λ k. contains k hidden) (lower n) ∙ covered)) a
  Alike-set_header n v v' h h' (inr same) a =
      Alike-insert to_lower hidden (platform.canonical_header n) (v ∷ []) (v' ∷ []) h h'
        (inr (ap (λ t. t ∷ []) same)) a

  module _ (w : Wire) (d : Doc) (s : Scope) (m : Dict Any)
      (agree : AgreeOutsideSecrets d s.state m) where
    abbrev twin_scope : Scope
    twin_scope = record s { state = m }

    abbrev Same : Value → String → String → Type 0
    Same v t t' = (is_secret d v ≡ true) ⊎ (t ≡ t')

    Twin-text_of :
        (label : String) (v : Value)
        → Twin s twin_scope (Same v) (text_of platform w label v) (text_of platform w label v)
    Twin-text_of label v = Twin-reads s twin_scope (Same v) _ _ λ t t' got got'.
        elim (Bool-cases (is_secret d v)) [
          | inl secret ↦ inl secret
          | inr clear ↦
              let e : eval_value platform s v ≡ eval_value platform twin_scope v =
                eval_value_of_not_secret platform d s m agree v clear in
              inr (cc (rw e at got))
        ]

    -- Every header with a secret value has a hidden name.
    abbrev pub Covered : Dict Value → Type 0
    Covered [] = Unit
    Covered ((k, v) ∷ hs) =
        (is_secret d v ≡ true → contains (to_lower k) hidden ≡ true) × Covered hs

    Twin-eval_headers :
        (hs : Dict Value) (h h' : Header)
        → Covered hs
        → AlikeSets h h'
        → Twin s twin_scope AlikeSets (eval_headers platform w hs h) (eval_headers platform w hs h')
    unfolding eval_headers
    Twin-eval_headers [] h h' c a = Twin-pure s twin_scope AlikeSets h h' a
    Twin-eval_headers ((k, v) ∷ hs) h h' (c, cs) a =
        Twin-bind s twin_scope (Same v) AlikeSets _ _ _ _ (search keeps_rules) (search keeps_rules)
          (Twin-text_of "headers" v)
          λ t t' same. Twin-eval_headers hs _ _ cs (Alike-set_header k t t' h h' (covers same) a)
      where
        covers : {t t' : String} → Same v t t' → (contains (to_lower k) hidden ≡ true) ⊎ (t ≡ t')
        covers (inl secret) = inl (c secret)
        covers (inr same) = inr same

    abbrev AlikeRequests : HttpRequest → HttpRequest → Type 0
    AlikeRequests r r' = AlikeSets r.header r'.header

    abbrev TwinRequests : Exec HttpRequest → Exec HttpRequest → Type 0
    TwinRequests n n' = Twin s twin_scope AlikeRequests n n'

    Twin-with_header :
        (n v v' : String) (r r' : HttpRequest)
        → contains (to_lower n) hidden ≡ true
        → AlikeRequests r r'
        → TwinRequests (pure (with_header platform w n v r)) (pure (with_header platform w n v' r'))
    Twin-with_header n v v' r r' covered a =
        Twin-pure s twin_scope AlikeRequests _ _
          (Alike-set_header n v v' r.header r'.header (inl covered) a)

    Twin-bearer_header :
        (tok tok' : Any) (r r' : HttpRequest)
        → contains (to_lower "Authorization") hidden ≡ true
        → AlikeRequests r r'
        → TwinRequests (bearer_header platform w tok r) (bearer_header platform w tok' r')
    Twin-bearer_header tok tok' r r' covered a = record {
      at = λ q q' t t' h h'. elim (Bool-cases (is_nil tok)) [
        | inl void ↦ cc (rw void at h)
        | inr set ↦ elim (Bool-cases (is_nil tok')) [
          | inl void ↦ cc (rw void at h')
          | inr set' ↦
              (Twin-with_header "Authorization" _ _ r r' covered a).at q q' t t' (rw set at h)
                (rw set' at h')
        ]
      ];
    }

    Twin-apply_oauth2 :
        (o : Oauth2Auth) (r r' : HttpRequest)
        → contains (to_lower "Authorization") hidden ≡ true
        → AlikeRequests r r'
        → TwinRequests (apply_oauth2 platform w o r) (apply_oauth2 platform w o r')
    unfolding apply_oauth2
    Twin-apply_oauth2 o r r' covered a = elim (Option-cases (grant_of o)) [
      | inl unset ↦
          rw (unset, apply_oauth2) (Twin-reads s twin_scope AlikeRequests _ _ (λ q q' h h'. cc))
      | inr (g, is_set) ↦
          rw (is_set, apply_oauth2)
            (record {
              at = λ q q' t t' h h'.
                  let (tok, u, got, rest) = bind-eq-ok (oauth2_token platform w g) _ s t q h in
                  let (tok', u', got', rest') =
                    bind-eq-ok (oauth2_token platform w g) _ twin_scope t' q' h' in
                  (Twin-with_header "Authorization" _ _ r r' covered a).at q q' s twin_scope
                    (ap (λ (p : Result HttpRequest × Scope). (p.0, s)) rest)
                    (ap (λ (p : Result HttpRequest × Scope). (p.0, twin_scope)) rest');
            })
    ]

    abbrev with_pair : HttpRequest → String → String → Exec HttpRequest
    with_pair q user pass =
        pure (with_header platform w "Authorization" (basic_pair platform w user pass) q)

    abbrev with_password : Value → HttpRequest → String → Exec HttpRequest
    with_password password q user =
        text_of platform w "auth.basic.password" password >>= with_pair q user

    abbrev headed : String → HttpRequest → String → Exec HttpRequest
    headed header q t = pure (with_header platform w header t q)

    abbrev queried : String → HttpRequest → String → Exec HttpRequest
    queried header q t = pure (with_query platform w header t q)

    -- An auth block whose own names the trace hides: one of one variant.
    Twin-apply_auth :
        (a : Auth) (r r' : HttpRequest)
        → is_single a ≡ true
        → ((k : String) → contains k (auth_names to_lower a) ≡ true → contains k hidden ≡ true)
        → contains (to_lower "Authorization") hidden ≡ true
        → AlikeRequests r r'
        → TwinRequests (apply_auth platform w a r) (apply_auth platform w a r')
    unfolding apply_auth
    Twin-apply_auth no_variant r r' single names covered e =
        Twin-reads s twin_scope AlikeRequests _ _ (λ q q' h h'. cc)
    Twin-apply_auth no_auth r r' single names covered e = Twin-pure s twin_scope AlikeRequests _ _ e
    Twin-apply_auth (bearer token) r r' single names covered e =
        Twin-after s twin_scope AlikeRequests _ _ _ _ (Keeps-reads _) (Keeps-reads _)
          λ t t'. Twin-bearer_header t t' r r' covered e
    Twin-apply_auth (basic username password) r r' single names covered e =
        Twin-after_text platform w s twin_scope AlikeRequests "auth.basic.username" username
          (with_password password r) (with_password password r')
          λ t t'.
            Twin-after_text platform w s twin_scope AlikeRequests "auth.basic.password" password
              (with_pair r t) (with_pair r' t')
              λ u u'. Twin-with_header "Authorization" _ _ r r' covered e
    Twin-apply_auth (api_key header v false) r r' single names covered e =
        Twin-after_text platform w s twin_scope AlikeRequests "auth.api_key.value" v
          (headed header r) (headed header r')
          λ t t'. Twin-with_header header t t' r r' (names (to_lower header) (self_named header)) e
    Twin-apply_auth (api_key header v true) r r' single names covered e =
        Twin-after_text platform w s twin_scope AlikeRequests "auth.api_key.value" v
          (queried header r) (queried header r')
          λ t t'.
            Twin-pure s twin_scope AlikeRequests (with_query platform w header t r)
              (with_query platform w header t' r') e
    Twin-apply_auth (custom header v) r r' single names covered e =
        Twin-after_text platform w s twin_scope AlikeRequests "auth.custom.value" v
          (headed header r) (headed header r')
          λ t t'. Twin-with_header header t t' r r' (names (to_lower header) (self_named header)) e
    Twin-apply_auth (oauth2 o) r r' single names covered e = Twin-apply_oauth2 o r r' covered e
    Twin-apply_auth (sigv4 a) r r' single names covered e = cc
    Twin-apply_auth (multi_mode bs fallback) r r' single names covered e = cc

    abbrev finished : Request → Option String × String → Url → Header → Exec HttpRequest
    finished req b target h = labelled "auth" (
        apply_auth platform w d.auth
          (record { method = method_of platform w req; url = target; header = h; body = b.0 }))

    abbrev with_headers : Request → Option String × String → Url → Exec HttpRequest
    with_headers req b target =
        eval_headers platform w req.headers (accepts platform w (content_type platform w b.1 []))
        >>= finished req b target

    -- The request from its content type on.
    Twin-headers :
        (req : Request) (b b' : Option String × String) (target target' : Url)
        → is_single d.auth ≡ true
        → ((k : String) → contains k (auth_names to_lower d.auth) ≡ true → contains k hidden ≡ true)
        → contains (to_lower "Authorization") hidden ≡ true
        → Covered req.headers
        → SameKind platform w s twin_scope b b'
        → TwinRequests (with_headers req b target) (with_headers req b' target')
    Twin-headers req b b' target target' single names covered hs same =
        Twin-bind s twin_scope AlikeSets AlikeRequests
          (eval_headers platform w req.headers
            (accepts platform w (content_type platform w b.1 [])))
          (eval_headers platform w req.headers
            (accepts platform w (content_type platform w b'.1 [])))
          (finished req b target) (finished req b' target')
          (Keeps-eval_headers platform w req.headers _)
          (Keeps-eval_headers platform w req.headers _)
          (Twin-eval_headers req.headers _ _ hs (rw same (Alike-refl to_lower hidden _)))
          λ h h' alike.
            Twin-labelled s twin_scope AlikeRequests "auth" _ _
              (Twin-apply_auth d.auth _ _ single names covered alike)

    pub Twin-build_request :
        (req : Request)
        → is_single d.auth ≡ true
        → ((k : String) → contains k (auth_names to_lower d.auth) ≡ true → contains k hidden ≡ true)
        → contains (to_lower "Authorization") hidden ≡ true
        → Covered req.headers
        → TwinRequests (build_request platform w d req) (build_request platform w d req)
    unfolding build_request
    Twin-build_request req single names covered hs =
        Twin-after s twin_scope AlikeRequests (labelled "url" (build_url platform w req.url))
          (labelled "url" (build_url platform w req.url)) _ _
          (Keeps-labelled _ _ (Keeps-build_url platform w req.url))
          (Keeps-labelled _ _ (Keeps-build_url platform w req.url))
          λ u u'.
            Twin-after s twin_scope AlikeRequests
              (eval_query platform w req.query (w.parse_query u.raw_query))
              (eval_query platform w req.query (w.parse_query u'.raw_query)) _ _
              (Keeps-eval_query platform w req.query _) (Keeps-eval_query platform w req.query _)
              λ q q'.
                Twin-bind s twin_scope (SameKind platform w s twin_scope) AlikeRequests
                  (optional_body platform w req.body) (optional_body platform w req.body) _ _
                  (Keeps-optional_body platform w req.body)
                  (Keeps-optional_body platform w req.body)
                  (Twin-optional_body platform w s twin_scope req.body)
                  λ b b' same.
                    Twin-after {A = Url} s twin_scope AlikeRequests _ _ (with_headers req b)
                      (with_headers req b') (Keeps-reads _) (Keeps-reads _)
                      λ target target'.
                        Twin-headers req b b' target target' single names covered hs same

-- ===== src/Client/Auth.antt =====
-- applyAuth and applyMultiMode of client/auth.go, and client/sigv4.go.
use Prim.Native.String
use skopos.Base.{
  String, [], ◌∷◌, Option, none, some, insert, ◌==◌, if◌then◌else◌, ok, err, msg, context,
}
use skopos.Any.{Any, is_nil}
use skopos.Schema.Value.{Value}
use skopos.Schema.Doc.{
  Auth, AuthBranches, no_variant, no_auth, bearer, basic, api_key, custom, oauth2, sigv4,
  multi_mode, end, branch, Sigv4Auth,
}
use skopos.Client.Platform.{Platform}
use skopos.Client.Coerce.{to_string, or_fail}
use skopos.Client.Eval.{eval_value, eval_predicate}
use skopos.Client.Exec.{Exec, pure, raise, reads, ◌>>=◌, ◌>>◌}
use skopos.Client.Wire.{Wire, HttpRequest, Credentials}
use skopos.Client.TokenForm.{eval_text}
use skopos.Client.Token.{set_header, apply_oauth2}

module _ (platform : Platform) (w : Wire) where
  -- A value that is evaluated to its text.
  abbrev pub text_of : String → Value → Exec String
  text_of label v = reads (λ s. eval_text platform s label v)

  abbrev pub with_header : String → String → HttpRequest → HttpRequest
  with_header name v r = record r { header = set_header platform name v r.header }

  -- q := req.URL.Query(); q.Set(name, v); req.URL.RawQuery = q.Encode()
  abbrev pub with_query : String → String → HttpRequest → HttpRequest
  with_query name v r = record r {
    url = record r.url {
      raw_query = w.encode_query (insert name (v ∷ []) (w.parse_query r.url.raw_query));
    };
  }

  abbrev pub optional_text : Option Value → Exec String
  optional_text none = pure ""
  optional_text (some v) = text_of "auth.sigv4.session_token" v

  -- sigv4Credentials. The ambient chain is the environment's.
  unfoldable pub sigv4_credentials : Sigv4Auth → Exec Credentials
  unfolding eval_value to_string
  sigv4_credentials a = elim a.access_key_id [
    | none ↦ reads (λ s. w.ambient_credentials s.exchanges)
    | some id ↦ elim a.secret_access_key [
      | none ↦ reads (λ s. w.ambient_credentials s.exchanges)
      | some secret ↦ do
        key ← text_of "auth.sigv4.access_key_id" id
        pass ← text_of "auth.sigv4.secret_access_key" secret
        token ← optional_text a.session_token
        reads (λ s. w.static_credentials key pass token)
    ]
  ]

  abbrev body_text : Option String → String
  body_text none = ""
  body_text (some t) = t

  -- sigv4PayloadHash: no body hashes as the empty one.
  unfoldable pub payload_hash : HttpRequest → String
  payload_hash r = w.sha256_hex (body_text r.body)

  -- if text == "" { return fmt.Errorf(label) }
  abbrev require : String → String → Exec (Unit {0})
  require label text = reads (λ s. if text == "" then err (msg label) else ok tt)

  abbrev sign : Credentials → String → String → HttpRequest → Exec HttpRequest
  sign c service region r = reads (λ s.
      or_fail "auth.sigv4: sign request"
        (w.sign_http s.exchanges c r (payload_hash r) service region))

  -- applySigV4
  unfoldable pub apply_sigv4 : Sigv4Auth → HttpRequest → Exec HttpRequest
  unfolding eval_value to_string sigv4_credentials payload_hash
  apply_sigv4 a r = do
    region ← text_of "auth.sigv4.region" a.region
    require "auth.sigv4.region resolved to empty" region
    service ← text_of "auth.sigv4.service" a.service
    require "auth.sigv4.service resolved to empty" service
    c ← sigv4_credentials a
    sign c service region r

  abbrev pub bearer_header : Any → HttpRequest → Exec HttpRequest
  bearer_header tok r =
      if is_nil tok
      then raise (msg "auth.bearer.token resolved to nil")
      else pure (with_header "Authorization" (String.◌++◌ "Bearer " (to_string platform tok)) r)

  abbrev pub basic_pair : String → String → String
  basic_pair user pass =
      String.◌++◌ "Basic " (platform.encode_base64 (String.◌++◌ user (String.◌++◌ ":" pass)))

  unfoldable mutual
    unfolding eval_value eval_predicate to_string apply_oauth2 apply_sigv4

    -- applyAuth
    pub apply_auth : Auth → HttpRequest → Exec HttpRequest
    apply_auth no_variant r = raise (msg "auth: no variant set")
    apply_auth no_auth r = pure r
    apply_auth (bearer token) r = do
      tok ← reads (λ s. context "auth.bearer.token" (eval_value platform s token))
      bearer_header tok r
    apply_auth (basic username password) r = do
      user ← text_of "auth.basic.username" username
      pass ← text_of "auth.basic.password" password
      pure (with_header "Authorization" (basic_pair user pass) r)
    apply_auth (api_key header v in_query) r = do
      t ← text_of "auth.api_key.value" v
      pure (if in_query then with_query header t r else with_header header t r)
    apply_auth (custom header v) r = do
      t ← text_of "auth.custom.value" v
      pure (with_header header t r)
    apply_auth (oauth2 o) r = apply_oauth2 platform w o r
    apply_auth (sigv4 a) r = apply_sigv4 a r
    apply_auth (multi_mode bs d) r = apply_multi_mode bs (apply_auth d r) r

    -- applyMultiMode, with what the default arm does.
    pub apply_multi_mode : AuthBranches → Exec HttpRequest → HttpRequest → Exec HttpRequest
    apply_multi_mode end fallback r = fallback
    apply_multi_mode (branch p a bs) fallback r = do
      holds ← reads (λ s. context "auth.multi_mode.branches.when" (eval_predicate platform s p))
      if holds then apply_auth a r else apply_multi_mode bs fallback r

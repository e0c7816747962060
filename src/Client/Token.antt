-- ===== src/Client/Token.antt =====
-- The oauth2 part of client/cache.go: the token exchange and the cached token.
pub mod Laws
mod Tests
use Prim.Native.String
use skopos.Base.{
  ℕ, suc, String, Bool, true, false, not, ◌&&◌, ◌||◌, List, [], ◌∷◌, Option, none, some, Dict,
  lookup, insert, ltb, leb, ◌==◌, if◌then◌else◌, Result, ok, err, msg, wrap, context,
}
use skopos.Any.{Any, nil, str, object, entries, as_object, as_str, of_dict}
use skopos.Schema.Doc.{Cache, Oauth2Auth}
use skopos.Client.Platform.{Platform}
use skopos.Client.Coerce.{or_fail}
use skopos.Client.Scope.{Scope, Header}
use skopos.Client.Exec.{Exec, pure, raise, reads, labelled, ◌>>=◌, ◌>>◌}
use skopos.Client.Cache.{cache_get, cache_store}
use skopos.Client.Wire.{Wire, Url, HttpRequest, HttpResponse}
use skopos.Client.TokenForm.{Grant, cc, pg, grant_cache_of, TokenRequest, build_token_request}

-- A failed call, with the label of its error.
abbrev pub attempt : {A : Type 0} → String → Option A → Exec A
attempt label found = reads (λ s. or_fail label found)

-- The body as a map[string]any: json.Unmarshal leaves a nil map for null.
abbrev pub token_body : Option Any → Result (Dict Any)
token_body none = err (msg "auth.oauth2: decode token response")
token_body (some nil) = ok []
token_body (some v) = or_fail "auth.oauth2: decode token response" (as_object v)

abbrev pub nonempty : String → Result String
nonempty t = if t == "" then err (msg "auth.oauth2: access_token is empty or non-string") else ok t

abbrev pub token_text : Any → Result String
token_text (str t) = nonempty t
token_text v = err (msg "auth.oauth2: access_token is empty or non-string")

abbrev pub access_token : Option Any → Result String
access_token none = err (msg "auth.oauth2: token response missing access_token field")
access_token (some v) = token_text v

abbrev pub set_header : Platform → String → String → Header → Header
set_header platform name v h = insert (platform.canonical_header name) (v ∷ []) h

-- The switch on the grant of applyOAuth2.
abbrev pub grant_of : Oauth2Auth → Option Grant
grant_of o = elim o.client_credentials [
  | some g ↦ some (cc g)
  | none ↦ elim o.password_grant [ some g ↦ some (pg g) | none ↦ none ]
]

module _ (platform : Platform) (w : Wire) where
  -- client.Do: one exchange, after which the clock reads anew.
  unfoldable pub send_request : String → HttpRequest → Exec HttpResponse
  send_request label r s = (
    or_fail label (w.send s.exchanges r),
    record s { exchanges = suc s.exchanges; now = w.clock (suc s.exchanges) },
  )

  abbrev pub basic_header : TokenRequest → Header → Header
  basic_header t h =
      if t.basic_user == "" && t.basic_pass == ""
      then h
      else set_header platform "Authorization"
          (String.◌++◌ "Basic "
            (platform.encode_base64 (String.◌++◌ t.basic_user (String.◌++◌ ":" t.basic_pass))))
          h

  abbrev pub token_request : TokenRequest → Url → HttpRequest
  token_request t u = record {
    method = "POST";
    url = u;
    header = basic_header t (
        set_header platform "Accept" "application/json"
          (set_header platform "Content-Type" "application/x-www-form-urlencoded" []));
    body = some (w.encode_query t.form);
  }

  -- The token and the decoded body in a response of the token endpoint.
  unfoldable pub read_token : HttpResponse → Result (String × Dict Any)
  unfolding lookup
  read_token resp =
      if resp.body.fails
      then err (msg "auth.oauth2: read token response")
      else if ltb resp.status 200 || leb 300 resp.status
      then err (msg "auth.oauth2: token endpoint returned status")
      else elim (token_body (w.parse_json resp.body.content)) [
        | err e ↦ err e
        | ok body ↦ elim (access_token (lookup "access_token" body)) [
          | err e ↦ err e
          | ok t ↦ ok (t, body)
        ]
      ]

  -- fetchOAuth2Token
  unfoldable pub fetch_token : Grant → Exec (String × Dict Any)
  unfolding build_token_request send_request read_token
  fetch_token g = do
    t ← reads (λ s. build_token_request platform s g)
    u ← attempt "auth.oauth2: build token request" (w.new_request_url "POST" t.url)
    resp ← send_request "auth.oauth2: token endpoint" (token_request t u)
    reads (λ s. read_token resp)

  -- cacheStore with scope.body bound to the response for the time of the call.
  unfoldable pub store_with_body : String → Cache → Any → Any → Exec (Unit {0})
  unfolding cache_store
  store_with_body label c body v s =
      let (r, s') = cache_store platform c v (record s { body = body }) in
      (context label r, record s' { body = s.body })

  abbrev pub usable : Option Any → Option String
  usable (some (str t)) = if t == "" then none else some t
  usable v = none

  abbrev pub cached_token : Option Cache → Scope → Option String
  cached_token none s = none
  cached_token (some c) s = usable (cache_get platform c s)

  abbrev pub store_token : Option Cache → String → Dict Any → Exec (Unit {0})
  store_token none t body = pure tt
  store_token (some c) t body =
      store_with_body "auth.oauth2 cache" c (object (of_dict body)) (str t)

  -- oauth2Token behind its look at the cache
  unfoldable pub renew_token : Grant → Exec String
  unfolding fetch_token store_with_body grant_cache_of
  renew_token g = do (t, body) ← fetch_token g; store_token (grant_cache_of g) t body; pure t

  -- oauth2Token
  unfoldable pub oauth2_token : Grant → Exec String
  unfolding renew_token cache_get grant_cache_of
  oauth2_token g s = elim (cached_token (grant_cache_of g) s) [
    | some t ↦ (ok t, s)
    | none ↦ renew_token g s
  ]

  -- applyOAuth2
  unfoldable pub apply_oauth2 : Oauth2Auth → HttpRequest → Exec HttpRequest
  unfolding oauth2_token
  apply_oauth2 o r = elim (grant_of o) [
    | none ↦ raise (msg "auth.oauth2: no grant variant set")
    | some g ↦ do
      t ← oauth2_token g
      pure (record r {
        header = set_header platform "Authorization" (String.◌++◌ "Bearer " t) r.header;
      })
  ]

-- ===== src/Client/TokenForm.antt =====
-- buildOAuth2TokenRequest of client/cache.go: what is posted to a token endpoint.
use Prim.Native.String
use skopos.Base.{
  String, List, [], ◌∷◌, Option, none, some, insert, ◌==◌, if◌then◌else◌, Result, ok, err, msg,
  context, ◌>>=◌,
}
use skopos.Schema.Value.{Value}
use skopos.Schema.Doc.{Cache, ClientCredentialsGrant, PasswordGrant}
use skopos.Client.Platform.{Platform}
use skopos.Client.Coerce.{to_string}
use skopos.Client.Scope.{Scope}
use skopos.Client.Eval.{eval_value}
use skopos.Client.Wire.{Values}

-- oauth2Grant
pub data Grant : Type 0 where
  cc : ClientCredentialsGrant → Grant
  pg : PasswordGrant → Grant

-- oauth2Grant.cache
unfoldable pub grant_cache_of : Grant → Option Cache
grant_cache_of (cc g) = g.cache
grant_cache_of (pg g) = g.cache

-- The parts that buildOAuth2TokenRequest returns.
pub record TokenRequest : Type 0 where
  pub url : String
  pub basic_user : String
  pub basic_pass : String
  pub form : Values

-- strings.Join(scopes, " ")
unfoldable pub join_space : List String → String
join_space [] = ""
join_space (s ∷ []) = s
join_space (s ∷ t ∷ ts) = String.◌++◌ s (String.◌++◌ " " (join_space (t ∷ ts)))

-- form.Set("scope", ...), if there are scopes
abbrev set_scopes : List String → Values → Values
set_scopes [] form = form
set_scopes (s ∷ ss) form = insert "scope" (join_space (s ∷ ss) ∷ []) form

abbrev set_unless_empty : String → String → Values → Values
set_unless_empty name v form = if v == "" then form else insert name (v ∷ []) form

abbrev pub set_client_id : Option String → Values → Values
set_client_id none form = form
set_client_id (some v) form = insert "client_id" (v ∷ []) form

module _ (platform : Platform) (s : Scope) where
  abbrev pub eval_text : String → Value → Result String
  eval_text label v = do got ← context label (eval_value platform s v); ok (to_string platform got)

  abbrev eval_client_id : Option Value → Result (Option String)
  eval_client_id none = ok none
  eval_client_id (some v) = do t ← eval_text "client_id" v; ok (some t)

  abbrev nonempty_url : TokenRequest → Result TokenRequest
  nonempty_url t = if t.url == "" then err (msg "token_url resolved to empty string") else ok t

  -- buildOAuth2TokenRequest
  unfoldable pub build_token_request : Grant → Result TokenRequest
  unfolding eval_value to_string insert join_space
  build_token_request (cc g) = do
    url ← eval_text "token_url" g.token_url
    user ← eval_text "client_id" g.client_id
    pass ← eval_text "client_secret" g.client_secret
    nonempty_url (record {
      url = url;
      basic_user = user;
      basic_pass = pass;
      form =
          set_unless_empty "audience" g.audience
            (set_scopes g.scopes (insert "grant_type" ("client_credentials" ∷ []) []));
    })
  build_token_request (pg g) = do
    url ← eval_text "token_url" g.token_url
    user ← eval_text "username" g.username
    pass ← eval_text "password" g.password
    id ← eval_client_id g.client_id
    nonempty_url (record {
      url = url;
      basic_user = "";
      basic_pass = "";
      form = set_scopes g.scopes (
          set_client_id id (
            insert "password" (pass ∷ [])
              (insert "username" (user ∷ []) (insert "grant_type" ("password" ∷ []) []))));
    })

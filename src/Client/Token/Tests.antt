-- ===== src/Client/Token/Tests.antt =====
-- A client-credentials grant with a cache block.
use skopos.Base.{
  suc, ◌≡◌, refl, false, [], ◌∷◌, none, some, Dict, ℤ, pos, ◌+ℤ◌, ltb_ℤ, ok, ◌==◌, if◌then◌else◌,
}
use skopos.Any.{Any, str, time, object, of_dict}
use skopos.Schema.Value.{literal_string}
use skopos.Client.Scope.{Scope}
use skopos.Client.Eval.{eval_value}
use skopos.Client.Cache.{cache_get, coerce_cache_expiry}
use skopos.Client.TokenForm.{Grant, cc, grant_cache_of, TokenRequest, build_token_request}
use skopos.Client.Wire.{Url, HttpResponse}
use skopos.Client.Token.{oauth2_token, renew_token, cached_token, read_token, token_request}
use skopos.Client.Token.Laws.{sent, oauth2_token-reused}
use skopos.Client.Samples.{platform, wire, scope, cache_block}

abbrev grant : Grant
grant = cc (record {
  token_url = literal_string "https://example.com/token";
  client_id = literal_string "id";
  client_secret = literal_string "secret";
  scopes = "read" ∷ "write" ∷ [];
  audience = "";
  cache = some cache_block;
})

abbrev left : Scope
left = record scope {
  cache = ("token", str "abc") ∷ ("__exp_token", time (pos 3601000000000)) ∷ [];
  now = pos 1000000000;
  exchanges = 1;
}

fetches : oauth2_token platform wire grant scope ≡ (ok "abc", left)
unfolding oauth2_token
fetches = refl

misses : cached_token platform wire (grant_cache_of grant) scope ≡ none
unfolding cache_get grant_cache_of
misses = refl

has_cache : grant_cache_of grant ≡ some cache_block
unfolding grant_cache_of
has_cache = refl

oauth2_token-reused_example :
    (("abc" == "") ≡ false)
    × ((form : TokenRequest) × (url : Url) × (resp : HttpResponse) × (body : Dict Any) × (raw : Any)
        × (expiry : ℤ) × (build_token_request platform scope grant ≡ ok form)
        × (wire.new_request_url "POST" form.url ≡ some url)
        × (wire.send scope.exchanges (token_request platform wire form url) ≡ some resp)
        × (read_token platform wire resp ≡ ok ("abc", body))
        × (eval_value platform
              (record (sent wire scope) { body = object (of_dict body) })
              cache_block.expires_at
            ≡ ok raw)
        × (coerce_cache_expiry platform raw (wire.clock (suc scope.exchanges)) ≡ ok expiry)
        × (let after : Scope = record left { now = pos 2000 } in
            oauth2_token platform wire grant after ≡ (
              if ltb_ℤ (pos 2000 +ℤ pos 60000000000) expiry
              then (ok "abc", after)
              else renew_token platform wire grant after)))
oauth2_token-reused_example =
    oauth2_token-reused platform wire grant cache_block scope left "abc" (pos 2000)
      (pos 60000000000) has_cache refl misses fetches

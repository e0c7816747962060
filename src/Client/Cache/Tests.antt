-- ===== src/Client/Cache/Tests.antt =====
-- A token that is stored and dropped.
use skopos.Base.{
  ◌⊎◌, ◌≡◌, refl, [], ◌∷◌, none, some, ℤ, pos, ◌+ℤ◌, ltb_ℤ, ok, lookup, if◌then◌else◌,
}
use skopos.Any.{Any, str, time}
use skopos.Client.Scope.{Scope}
use skopos.Client.Eval.{eval_value}
use skopos.Client.Cache.{
  drop_slots, cache_get, coerce_cache_expiry, cache_store, drop_reachable_caches,
}
use skopos.Client.Cache.Laws.{cache_get-store}
use skopos.Client.Cache.Reach.{Reaches, grant, in_default, Used}
use skopos.Client.Cache.Drop.{
  drop_reachable_caches-Used, drop_reachable_caches-renews, drop_reachable_caches-exchanges,
}
use skopos.Client.TokenForm.{Grant}
use skopos.Client.TokenForm as TokenForm
use skopos.Client.Token.{oauth2_token, renew_token}
use skopos.Client.Http.{execute_request, exchange}
use skopos.Schema.Value.{literal_string}
use skopos.Schema.Doc.{Doc, ClientCredentialsGrant, Oauth2Auth, oauth2, multi_mode, end}
use skopos.Client.Samples.{platform, wire, request, doc, scope, cache_block}

abbrev stored_scope : Scope
stored_scope = record scope {
  cache = ("token", str "xyz") ∷ ("__exp_token", time (pos 3600000001000)) ∷ [];
}

stores : cache_store platform cache_block (str "xyz") scope ≡ (ok tt, stored_scope)
unfolding cache_store
stores = refl

cache_get-store_example :
    (raw : Any) × (expiry : ℤ) × (eval_value platform scope cache_block.expires_at ≡ ok raw)
    × (coerce_cache_expiry platform raw scope.now ≡ ok expiry)
    × (cache_get platform cache_block (record stored_scope { now = pos 2000 })
        ≡ (if ltb_ℤ (pos 2000 +ℤ pos 60000000000) expiry then some (str "xyz") else none))
cache_get-store_example =
    cache_get-store platform cache_block (str "xyz") scope stored_scope (pos 2000) (pos 60000000000)
      refl stores

abbrev credentials : ClientCredentialsGrant
credentials = record {
  token_url = literal_string "https://example.com/token";
  client_id = literal_string "id";
  client_secret = literal_string "secret";
  scopes = [];
  audience = "";
  cache = some cache_block;
}

abbrev oauth2_block : Oauth2Auth
oauth2_block = record { client_credentials = some credentials; password_grant = none }

-- A document whose only cache block is that of the default of a multi_mode block.
abbrev modes : Doc
modes = record doc { auth = multi_mode end (oauth2 oauth2_block) }

drops :
    (drop_reachable_caches modes stored_scope).1
    ≡ record stored_scope { cache = ("__exp_token", time (pos 3600000001000)) ∷ [] }
unfolding drop_reachable_caches drop_slots
drops = refl

drop_reachable_caches-Used_example :
    ((Used modes "token"
        × (lookup "token" (drop_reachable_caches modes stored_scope).1.cache ≡ none))
      ⊎ ((¬ Used modes "token")
          × (lookup "token" (drop_reachable_caches modes stored_scope).1.cache
              ≡ lookup "token" stored_scope.cache)))
    × ((drop_reachable_caches modes stored_scope).1
        ≡ record stored_scope { cache = (drop_reachable_caches modes stored_scope).1.cache })
drop_reachable_caches-Used_example = drop_reachable_caches-Used modes stored_scope "token"

in_reach : Reaches (TokenForm.cc credentials) modes.auth
in_reach = in_default (grant oauth2_block refl)

drop_reachable_caches-renews_example :
    oauth2_token platform wire
      (TokenForm.cc credentials)
      (drop_reachable_caches modes stored_scope).1
    ≡ renew_token platform wire
        (TokenForm.cc credentials)
        (drop_reachable_caches modes stored_scope).1
drop_reachable_caches-renews_example =
    drop_reachable_caches-renews platform wire modes stored_scope (TokenForm.cc credentials)
      in_reach

abbrev cached_doc : Doc
cached_doc = record doc { requests = record request { cache = some cache_block } ∷ [] }

drop_reachable_caches-exchanges_example :
    execute_request platform wire cached_doc
      (record request { cache = some cache_block })
      (drop_reachable_caches cached_doc stored_scope).1
    ≡ exchange platform wire cached_doc
        (record request { cache = some cache_block })
        (drop_reachable_caches cached_doc stored_scope).1
drop_reachable_caches-exchanges_example =
    drop_reachable_caches-exchanges platform wire cached_doc stored_scope 0
      (record request { cache = some cache_block }) refl

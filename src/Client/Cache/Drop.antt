-- ===== src/Client/Cache/Drop.antt =====
-- What on_status: invalidate_cache takes from the cache, and what it makes of the next use of it.
use skopos.Base.{
  ℕ, String, ◌≡◌, ◌⊎◌, refl, ap, ◌∙◌, inl, inr, Bool, true, false, Option, none, some, lookup,
  contains, if◌then◌else◌, get_elem?, Option-cases, Bool-cases,
}
use skopos.Schema.Doc.{Doc, Cache, Request}
use skopos.Client.Platform.{Platform}
use skopos.Client.Scope.{Scope}
use skopos.Client.Wire.{Wire}
use skopos.Client.Cache.{cache_slot_name, cache_get, drop_reachable_caches}
use skopos.Client.Cache.Laws.{drop_slots-lookup}
use skopos.Client.TokenForm.{Grant, grant_cache_of}
use skopos.Client.Token.{oauth2_token, renew_token, cached_token, usable}
use skopos.Client.Http.{execute_request, exchange, cached_body}
use skopos.Client.Cache.Reach.{Reaches, StoresAs, Used, reached, Used-reached, reached-Used}

-- An invalidation removes the slots that a grant in reach of the auth block, in a branch or the
-- default of a multi_mode block too, or a request of the document stores under, and nothing else: of
-- every other name the cache holds what it held, and beside the cache the scope is the one from before.
pub drop_reachable_caches-Used :
    (doc : Doc) (s : Scope) (name : String)
    → let s' = (drop_reachable_caches doc s).1 in
      ((Used doc name × (lookup name s'.cache ≡ none))
        ⊎ ((¬ Used doc name) × (lookup name s'.cache ≡ lookup name s.cache)))
      × (s' ≡ record s { cache = s'.cache })
unfolding drop_reachable_caches
drop_reachable_caches-Used doc s name =
    let dropped = drop_slots-lookup (reached doc name) s.cache name in
    elim (Bool-cases (contains name (reached doc name))) [
      | inl found ↦ (inl (reached-Used doc name found, dropped ∙ rw found refl), refl)
      | inr other ↦ (inr (λ u. cc (Used-reached doc name u), dropped ∙ rw other refl), refl)
    ]

if_missing : {A : Type 0} (b : Bool) (m : Option A) → m ≡ none → (if b then m else none) ≡ none
if_missing true m h = h
if_missing false m h = refl

-- A slot that is not in the cache is not answered.
cache_get-missing :
    (platform : Platform) (c : Cache) (s : Scope)
    → ((name : String) → cache_slot_name c.to ≡ some name → lookup name s.cache ≡ none)
    → cache_get platform c s ≡ none
unfolding cache_get
cache_get-missing platform c s missing = elim (Option-cases (cache_slot_name c.to)) [
  | inl bad ↦ rw (bad, cache_get)
  | inr (name, good) ↦ rw (good, cache_get) (if_missing _ (lookup name s.cache) (missing name good))
]

module _ (platform : Platform) (w : Wire) (doc : Doc) (s : Scope) where
  abbrev dropped : Scope
  dropped = (drop_reachable_caches doc s).1

  Used-missing : (name : String) → Used doc name → lookup name dropped.cache ≡ none
  Used-missing name used = elim (drop_reachable_caches-Used doc s name).0 [
    | inl (u, missing) ↦ missing
    | inr (unused, same) ↦ absurd (unused used)
  ]

  cached_body-missing :
      (m : Option Cache)
      → ((name : String) → StoresAs m name → Used doc name)
      → cached_body platform w m dropped ≡ none
  cached_body-missing none used = refl
  cached_body-missing (some c) used =
      cache_get-missing platform c dropped
        λ name slot. Used-missing name (used name (c, refl, slot))

  cached_token-missing :
      (m : Option Cache)
      → ((name : String) → StoresAs m name → Used doc name)
      → cached_token platform w m dropped ≡ none
  cached_token-missing none used = refl
  cached_token-missing (some c) used = ap (usable platform w) (cached_body-missing (some c) used)

  -- After an invalidation, the next use of any grant in reach of the auth block fetches a new token.
  pub drop_reachable_caches-renews :
      (g : Grant)
      → Reaches g doc.auth
      → oauth2_token platform w g dropped ≡ renew_token platform w g dropped
  unfolding oauth2_token
  drop_reachable_caches-renews g r =
      rw (cached_token-missing (grant_cache_of g) (λ name st. inl (g, r, st)), oauth2_token)

  -- After an invalidation, the next execution of any request of the document makes an exchange.
  pub drop_reachable_caches-exchanges :
      (i : ℕ) (req : Request)
      → get_elem? doc.requests i ≡ some req
      → execute_request platform w doc req dropped ≡ exchange platform w doc req dropped
  unfolding execute_request
  drop_reachable_caches-exchanges i req at =
      rw (cached_body-missing req.cache (λ name st. inr (i, req, at, st)), execute_request)

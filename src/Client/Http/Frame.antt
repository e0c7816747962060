-- ===== src/Client/Http/Frame.antt =====
-- What an executed request may change of the scope: the cache, the clock's reading and the count of
-- exchanges.
use skopos.Base.{
  ◌≤◌, String, ◌≡◌, refl, sym, ap, ◌∙◌, inl, inr, Option, none, some, Dict, Result, ok, arith,
  Option-cases, Result-cases,
}
use skopos.Any.{Any}
use skopos.Schema.Value.{Value}
use skopos.Schema.Doc.{
  Doc, Request, Cache, no_variant, Auth, AuthBranches, no_auth, bearer, basic, api_key, custom,
  oauth2, sigv4, multi_mode, end, branch, Sigv4Auth, Oauth2Auth,
}
use skopos.Client.Platform.{Platform}
use skopos.Client.Scope.{Scope}
use skopos.Client.Eval.{eval_value}
use skopos.Client.Exec.{Exec, Keeps, Keeps-reads, Keeps-if, Keeps-labelled, Keeps-bind, keeps_rules}
use skopos.Client.Cache.{cache_slot_name, cache_store, coerce_cache_expiry}
use skopos.Client.Wire.{Wire, HttpRequest, HttpResponse}
use skopos.Client.TokenForm.{Grant, grant_cache_of}
use skopos.Client.Token.{
  send_request, fetch_token, cached_token, grant_of, store_with_body, store_token, renew_token,
  oauth2_token, apply_oauth2,
}
use skopos.Client.Auth.{apply_auth, apply_multi_mode, apply_sigv4, sigv4_credentials, optional_text}
use skopos.Client.Http.Reads.{
  Keeps-eval_query, Keeps-eval_headers, Keeps-optional_body, Keeps-build_url,
}
use skopos.Client.Http.{
  build_request, store_response, accept_response, exchange, execute_request, cached_body,
}

pub record Framed (before after : Scope) : Type 0 where
  pub same :
      after ≡ record before { cache = after.cache; now = after.now; exchanges = after.exchanges }
  pub grown : before.exchanges ≤ after.exchanges

pub Framed-refl : (s : Scope) → Framed s s
Framed-refl s = record { same = refl; grown = omega arith }

Framed-cache :
    (before s t : Scope) → Framed before s → t ≡ record s { cache = t.cache } → Framed before t
Framed-cache before s t f only = ground arith

module _ (platform : Platform) where
  cache_store-only :
      (c : Cache) (v : Any) (s : Scope)
      → (cache_store platform c v s).1 ≡ record s { cache = (cache_store platform c v s).1.cache }
  unfolding cache_store
  cache_store-only c v s = elim (Option-cases (cache_slot_name c.to)) [
    | inl bad ↦ rw (bad, cache_store)
    | inr (slot, good) ↦ elim (Result-cases (eval_value platform s c.expires_at)) [
      | inr (e, failed) ↦ rw (good, failed, cache_store)
      | inl (v', got) ↦ elim (Result-cases (coerce_cache_expiry platform v' s.now)) [
        | inr (e, failed) ↦ rw (good, got, failed, cache_store)
        | inl (expiry, coerced) ↦ rw (good, got, coerced, cache_store)
      ]
    ]
  ]

module _ (platform : Platform) (w : Wire) (before : Scope) where
  abbrev Kept : {A : Type 0} → Exec A → Type 0
  Kept m = Keeps (Framed before) m

  Kept-send_request : (label : String) (r : HttpRequest) → Kept (send_request platform w label r)
  unfolding send_request
  Kept-send_request label r = record {
    at = λ s f. record { same = ground arith; grown = omega (arith, f.grown) };
  }

  Kept-store_with_body :
      (label : String) (c : Cache) (body v : Any) → Kept (store_with_body platform w label c body v)
  unfolding store_with_body
  Kept-store_with_body label c body v = record {
    at = λ s f. Framed-cache before s (store_with_body platform w label c body v s).1 f (
        ap (λ (t : Scope). record t { body = s.body })
          (cache_store-only platform c v (record s { body = body })));
  }

  Kept-store_token :
      (c : Option Cache) (t : String) (body : Dict Any) → Kept (store_token platform w c t body)
  Kept-store_token none t body = search keeps_rules
  Kept-store_token (some c) t body = search Kept-store_with_body

  Kept-store_response : (c : Option Cache) (body : Any) → Kept (store_response platform w c body)
  Kept-store_response none body = search keeps_rules
  Kept-store_response (some c) body = search Kept-store_with_body

  Kept-renew_token : (g : Grant) → Kept (renew_token platform w g)
  unfolding renew_token fetch_token
  Kept-renew_token g = search (keeps_rules, Kept-send_request, Kept-store_token)

  Kept-oauth2_token : (g : Grant) → Kept (oauth2_token platform w g)
  unfolding oauth2_token
  Kept-oauth2_token g = record {
    at = λ s f. elim (Option-cases (cached_token platform w (grant_cache_of g) s)) [
      | inl stale ↦ rw (stale, oauth2_token) ((Kept-renew_token g).at s f)
      | inr (t, fresh) ↦ rw (fresh, oauth2_token) f
    ];
  }

  Kept-apply_oauth2 : (o : Oauth2Auth) (r : HttpRequest) → Kept (apply_oauth2 platform w o r)
  unfolding apply_oauth2
  Kept-apply_oauth2 o r = elim (Option-cases (grant_of o)) [
    | inl unset ↦ rw (unset, apply_oauth2) (search keeps_rules)
    | inr (g, is_set) ↦ rw (is_set, apply_oauth2) (search (keeps_rules, Kept-oauth2_token))
  ]

  Kept-optional_text : (v : Option Value) → Kept (optional_text platform w v)
  Kept-optional_text none = search keeps_rules
  Kept-optional_text (some v) = search keeps_rules

  Kept-sigv4_credentials : (a : Sigv4Auth) → Kept (sigv4_credentials platform w a)
  unfolding sigv4_credentials
  Kept-sigv4_credentials a = elim (Option-cases a.access_key_id) [
    | inl unset ↦ rw (unset, sigv4_credentials) (search keeps_rules)
    | inr (id, is_set) ↦ elim (Option-cases a.secret_access_key) [
      | inl unset ↦ rw (is_set, unset, sigv4_credentials) (search keeps_rules)
      | inr (secret, paired) ↦
          rw (is_set, paired, sigv4_credentials) (search (keeps_rules, Kept-optional_text))
    ]
  ]

  Kept-apply_sigv4 : (a : Sigv4Auth) (r : HttpRequest) → Kept (apply_sigv4 platform w a r)
  unfolding apply_sigv4
  Kept-apply_sigv4 a r = search (keeps_rules, Kept-sigv4_credentials) depth 12

  mutual
    unfolding apply_auth apply_multi_mode

    Kept-auth : (a : Auth) (r : HttpRequest) → Kept (apply_auth platform w a r)
    Kept-auth no_variant r = search keeps_rules
    Kept-auth no_auth r = search keeps_rules
    Kept-auth (bearer token) r = search keeps_rules
    Kept-auth (basic username password) r = search keeps_rules
    Kept-auth (api_key header v in_query) r = search keeps_rules
    Kept-auth (custom header v) r = search keeps_rules
    Kept-auth (oauth2 o) r = Kept-apply_oauth2 o r
    Kept-auth (sigv4 a) r = Kept-apply_sigv4 a r
    Kept-auth (multi_mode bs d) r = Kept-multi_mode bs (apply_auth platform w d r) r (Kept-auth d r)

    Kept-multi_mode :
        (bs : AuthBranches) (fallback : Exec HttpRequest) (r : HttpRequest)
        → Kept fallback
        → Kept (apply_multi_mode platform w bs fallback r)
    Kept-multi_mode end fallback r k = k
    Kept-multi_mode (branch p a bs) fallback r k =
        Keeps-bind _ _ (Keeps-reads _)
          λ holds. Keeps-if holds _ _ (Kept-auth a r) (Kept-multi_mode bs fallback r k)

  Kept-build_request : (doc : Doc) (req : Request) → Kept (build_request platform w doc req)
  unfolding build_request
  Kept-build_request doc req =
      Keeps-bind _ _ (Keeps-labelled _ _ (Keeps-build_url platform w req.url)) λ u.
        Keeps-bind _ _ (Keeps-eval_query platform w req.query _) λ q.
          Keeps-bind _ _ (Keeps-optional_body platform w req.body) λ b.
            Keeps-bind _ _ (Keeps-reads _) λ target.
              Keeps-bind _ _ (Keeps-eval_headers platform w req.headers _)
                λ h. Keeps-labelled _ _ (Kept-auth doc.auth _)

  Kept-accept_response :
      (req : Request) (resp : HttpResponse) → Kept (accept_response platform w req resp)
  unfolding accept_response
  Kept-accept_response req resp = search (keeps_rules, Kept-store_response)

  Kept-exchange : (doc : Doc) (req : Request) → Kept (exchange platform w doc req)
  unfolding exchange
  Kept-exchange doc req =
      search (keeps_rules, Kept-build_request, Kept-send_request, Kept-accept_response)

module _ (platform : Platform) (w : Wire) where
  pub build_request-grown :
      (doc : Doc) (req : Request) (s t : Scope) (r : HttpRequest)
      → build_request platform w doc req s ≡ (ok r, t)
      → s.exchanges ≤ t.exchanges
  build_request-grown doc req s t r built =
      let f = (Kept-build_request platform w s doc req).at s (Framed-refl s) in
      rw (ap (λ (p : Result HttpRequest × Scope). p.1) built) at f.grown

  pub store_response-exchanges :
      (c : Option Cache) (body : Any) (s t : Scope)
      → store_response platform w c body s ≡ (ok tt, t)
      → t.exchanges ≡ s.exchanges
  unfolding store_with_body
  store_response-exchanges none body s t h =
      ap (λ (p : Result (Unit {0}) × Scope). p.1.exchanges) (sym h)
  store_response-exchanges (some c) body s t h =
      ap (λ (p : Result (Unit {0}) × Scope). p.1.exchanges) (sym h)
      ∙ ap (λ (u : Scope). u.exchanges)
          (cache_store-only platform c body (record s { body = body }))

-- An executed request, whether it returns or fails, leaves every namespace of the scope but the cache
-- as it was, the body that the cache's expiry is evaluated with included, and takes no exchange
-- back.
pub execute_request-Framed :
    (platform : Platform) (w : Wire) (doc : Doc) (req : Request) (s : Scope)
    → Framed s (execute_request platform w doc req s).1
unfolding execute_request
execute_request-Framed platform w doc req s =
    elim (Option-cases (cached_body platform w req.cache s)) [
      | inl miss ↦
          rw (miss, execute_request) ((Kept-exchange platform w s doc req).at s (Framed-refl s))
      | inr (v, hit) ↦ rw (hit, execute_request) (Framed-refl s)
    ]

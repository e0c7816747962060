-- ===== src/Client/Token/Laws.antt =====
-- What a stored slot gives back, and the cached token.
use skopos.Base.{
  suc, Option-cases, String, ◌≡◌, refl, sym, ap, ◌∙◌, inl, inr, Bool, true, false, Option, none,
  some, Dict, ℤ, ◌+ℤ◌, ltb_ℤ, ltb, leb, ◌||◌, lookup, ◌==◌, if◌then◌else◌, Result, ok,
  context-eq-ok, Bool-cases, Result-cases,
}
use skopos.Any.{Any, str, object, of_dict}
use skopos.Schema.Doc.{Cache}
use skopos.Client.Platform.{Platform}
use skopos.Client.Scope.{Scope}
use skopos.Client.Eval.{eval_value}
use skopos.Client.Cache.{cache_get, cache_store, coerce_cache_expiry}
use skopos.Client.Cache.Laws.{cache_get-store}
use skopos.Client.Wire.{Wire, Url, HttpResponse}
use skopos.Client.TokenForm.{Grant, TokenRequest, grant_cache_of, build_token_request}
use skopos.Client.Token.{
  store_with_body, store_token, fetch_token, renew_token, oauth2_token, cached_token, read_token,
  usable, send_request, token_request, token_body, token_text, access_token,
}

-- The scope behind an exchange: it is counted, and the clock has been read anew.
abbrev pub sent : Wire → Scope → Scope
sent w s = record s { exchanges = suc s.exchanges; now = w.clock (suc s.exchanges) }

module _ (platform : Platform) (w : Wire) where
  cache_get-body :
      (c : Cache) (s : Scope) (body : Any) (later : ℤ)
      → cache_get platform c (record s { body = body; now = later })
        ≡ cache_get platform c (record s { now = later })
  unfolding cache_get
  cache_get-body c s body later = refl

  -- A slot that was stored while a body was bound is read back until its expiry.
  pub store_with_body-get :
      (label : String) (c : Cache) (body v : Any) (s s' : Scope) (later buffer : ℤ)
      → platform.parse_duration c.buffer ≡ some buffer
      → store_with_body platform w label c body v s ≡ (ok tt, s')
      → (raw : Any) × (expiry : ℤ) × (eval_value platform (record s { body = body }) c.expires_at
          ≡ ok raw)
        × (coerce_cache_expiry platform raw s.now ≡ ok expiry)
        × (cache_get platform c (record s' { now = later })
            ≡ (if ltb_ℤ (later +ℤ buffer) expiry then some v else none))
  unfolding store_with_body
  store_with_body-get label c body v s s' later buffer parsed h =
      let bound : Scope = record s { body = body } in
      let t = (cache_store platform c v bound).1 in
      let fine =
        context-eq-ok label (cache_store platform c v bound).0
          (ap (λ (p : Result (Unit {0}) × Scope). p.0) h) in
      let left : record t { body = s.body } ≡ s' = ap (λ (p : Result (Unit {0}) × Scope). p.1) h in
      let (raw, expiry, got, coerced, reads) =
        cache_get-store platform c v bound t later buffer parsed (cc fine) in
      (
        raw,
        expiry,
        got,
        coerced,
        ap (λ (u : Scope). cache_get platform c (record u { now = later })) (sym left)
            ∙ cache_get-body c t s.body later
            ∙ reads,
      )

  token_text-nonempty : (v : Any) (t : String) → token_text v ≡ ok t → (t == "") ≡ false
  token_text-nonempty (str u) t h = elim (Bool-cases (u == "")) [
    | inl empty ↦ cc (rw empty at h)
    | inr full ↦
        let h' : ◌≡◌ {A = Result String} (ok u) (ok t) = rw full at h in
        let e : u ≡ t = cc in ap (λ x. x == "") (sym e) ∙ full
  ]
  token_text-nonempty v t h = cc

  access_token-nonempty : (v : Option Any) (t : String) → access_token v ≡ ok t → (t == "") ≡ false
  access_token-nonempty none t h = cc
  access_token-nonempty (some v) t h = token_text-nonempty v t h

  read_token-nonempty :
      (resp : HttpResponse) (t : String) (body : Dict Any)
      → read_token platform w resp ≡ ok (t, body)
      → (t == "") ≡ false
  unfolding read_token
  read_token-nonempty resp t body h = elim (Bool-cases resp.body.fails) [
    | inl cut ↦ cc (rw (cut, read_token) at h)
    | inr whole ↦ elim (Bool-cases (ltb resp.status 200 || leb 300 resp.status)) [
      | inl bad ↦ cc (rw (whole, bad, read_token) at h)
      | inr good ↦ elim (Result-cases (token_body (w.parse_json resp.body.content))) [
        | inr (e, failed) ↦ cc (rw (whole, good, failed, read_token) at h)
        | inl (fields, decoded) ↦
            elim (Result-cases (access_token (lookup "access_token" fields))) [
              | inr (e, failed) ↦ cc (rw (whole, good, decoded, failed, read_token) at h)
              | inl (u, found) ↦
                  let h' : ◌≡◌ {A = Result (String × Dict Any)} (ok (u, fields)) (ok (t, body)) =
                    rw (whole, good, decoded, found, read_token) at h in
                  access_token-nonempty (lookup "access_token" fields) t (cc)
            ]
      ]
    ]
  ]

  -- What a successful fetch has sent, and the answer it has read.
  record Fetched (g : Grant) (s s' : Scope) (t : String) (body : Dict Any) : Type 0 where
    form : TokenRequest
    url : Url
    resp : HttpResponse
    made : build_token_request platform s g ≡ ok form
    parsed : w.new_request_url "POST" form.url ≡ some url
    answered : w.send s.exchanges (token_request platform w form url) ≡ some resp
    found : read_token platform w resp ≡ ok (t, body)
    behind : s' ≡ sent w s

  fetch_token-Fetched :
      (g : Grant) (s s' : Scope) (t : String) (body : Dict Any)
      → fetch_token platform w g s ≡ (ok (t, body), s')
      → Fetched g s s' t body
  unfolding fetch_token send_request
  fetch_token-Fetched g s s' t body h = elim (Result-cases (build_token_request platform s g)) [
    | inr (e, failed) ↦ cc (rw (failed, fetch_token) at h)
    | inl (form, made) ↦ elim (Option-cases (w.new_request_url "POST" form.url)) [
      | inl failed ↦ cc (rw (made, failed, fetch_token) at h)
      | inr (url, parsed) ↦
          elim (Option-cases (w.send s.exchanges (token_request platform w form url))) [
            | inl failed ↦ cc (rw (made, parsed, failed, fetch_token) at h)
            | inr (resp, answered) ↦
                let h' : ◌≡◌ {A = Result (String × Dict Any) × Scope}
                    (read_token platform w resp, sent w s) (ok (t, body), s') =
                  rw (made, parsed, answered, fetch_token) at h in
                record {
                  form = form;
                  url = url;
                  resp = resp;
                  made = made;
                  parsed = parsed;
                  answered = answered;
                  found = ap (λ (p : Result (String × Dict Any) × Scope). p.0) h';
                  behind = ap (λ (p : Result (String × Dict Any) × Scope). p.1) (sym h');
                }
          ]
    ]
  ]

  renew_token-ok :
      (g : Grant) (s s' : Scope) (t : String)
      → renew_token platform w g s ≡ (ok t, s')
      → (body : Dict Any) × (s₁ : Scope) × (fetch_token platform w g s ≡ (ok (t, body), s₁))
        × (store_token platform w (grant_cache_of g) t body s₁ ≡ (ok tt, s'))
  unfolding renew_token
  renew_token-ok g s s' t h = elim (Result-cases (fetch_token platform w g s).0) [
    | inr (e, failed) ↦ cc (rw (failed, renew_token) at h)
    | inl ((u, body), fetched) ↦
        let s₁ = (fetch_token platform w g s).1 in
        elim (Result-cases (store_token platform w (grant_cache_of g) u body s₁).0) [
          | inr (e, failed) ↦ cc (rw (fetched, failed, renew_token) at h)
          | inl (x, stored) ↦
              let h' : ◌≡◌ {A = Result String × Scope}
                  (ok u, (store_token platform w (grant_cache_of g) u body s₁).1) (ok t, s') =
                rw (fetched, stored, renew_token) at h in
              let e : u ≡ t = cc in (body, s₁, cc, rw (← e) (cc))
        ]
  ]

  answers_again :
      (g : Grant) (c : Cache) (after : Scope) (t : String) (b : Bool)
      → grant_cache_of g ≡ some c
      → (t == "") ≡ false
      → cache_get platform c after ≡ (if b then some (str t) else none)
      → oauth2_token platform w g after
        ≡ (if b then (ok t, after) else renew_token platform w g after)
  unfolding oauth2_token
  answers_again g c after t true has full got = rw (has, got, full, oauth2_token)
  answers_again g c after t false has full got =
      let miss : cached_token platform w (grant_cache_of g) after ≡ none =
        ap (λ m. cached_token platform w m after) has ∙ ap (usable platform w) got in
      rw (miss, oauth2_token)

  store_token-block :
      (m : Option Cache) (c : Cache) (t : String) (body : Dict Any) (s s₁ s' : Scope)
      → m ≡ some c
      → s₁ ≡ sent w s
      → store_token platform w m t body s₁ ≡ (ok tt, s')
      → store_with_body platform w "auth.oauth2 cache" c (object (of_dict body)) (str t) (sent w s)
        ≡ (ok tt, s')
  store_token-block m c t body s s₁ s' has behind h =
      ap (λ o. store_token platform w o t body (sent w s)) (sym has)
      ∙ ap (λ u. store_token platform w m t body u) (sym behind)
      ∙ h

  -- Where the grant has a cache block with a valid buffer and no usable token was cached, a token that
  -- was fetched is the one of the endpoint's response and is not empty. It is answered again at a later
  -- instant, with no exchange and no other effect, as long as that instant with the buffer added is
  -- before the expiry; from then on a new token is fetched. The expiry is expires_at in the scope from
  -- before, with the exchange counted, the clock read behind it and the endpoint's response bound as
  -- the body; a relative one counts from that reading.
  pub oauth2_token-reused :
      (g : Grant) (c : Cache) (s s' : Scope) (t : String) (later buffer : ℤ)
      → grant_cache_of g ≡ some c
      → platform.parse_duration c.buffer ≡ some buffer
      → cached_token platform w (grant_cache_of g) s ≡ none
      → oauth2_token platform w g s ≡ (ok t, s')
      → ((t == "") ≡ false)
        × ((form : TokenRequest) × (url : Url) × (resp : HttpResponse) × (body : Dict Any)
            × (raw : Any) × (expiry : ℤ) × (build_token_request platform s g ≡ ok form)
            × (w.new_request_url "POST" form.url ≡ some url)
            × (w.send s.exchanges (token_request platform w form url) ≡ some resp)
            × (read_token platform w resp ≡ ok (t, body))
            × (eval_value platform (record (sent w s) { body = object (of_dict body) }) c.expires_at
                ≡ ok raw)
            × (coerce_cache_expiry platform raw (w.clock (suc s.exchanges)) ≡ ok expiry)
            × (let after : Scope = record s' { now = later } in
                oauth2_token platform w g after ≡ (
                  if ltb_ℤ (later +ℤ buffer) expiry
                  then (ok t, after)
                  else renew_token platform w g after)))
  unfolding oauth2_token renew_token
  oauth2_token-reused g c s s' t later buffer has parsed miss h =
      let run : renew_token platform w g s ≡ (ok t, s') = rw (miss, oauth2_token) at h in
      let (body, s₁, fetched, stored) = renew_token-ok g s s' t run in
      let f = fetch_token-Fetched g s s₁ t body fetched in
      let full = read_token-nonempty f.resp t body f.found in
      let (raw, expiry, got, coerced, again) =
        store_with_body-get "auth.oauth2 cache" c (object (of_dict body)) (str t) (sent w s) s'
          later buffer parsed
          (store_token-block (grant_cache_of g) c t body s s₁ s' has f.behind stored) in
      (
        full,
        (
          f.form,
          f.url,
          f.resp,
          body,
          raw,
          expiry,
          f.made,
          f.parsed,
          f.answered,
          f.found,
          got,
          coerced,
          answers_again g c (record s' { now = later }) t (ltb_ℤ (later +ℤ buffer) expiry) has full
              again,
        ),
      )

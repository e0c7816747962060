-- ===== src/Client/Http/Laws.antt =====
-- What an executed request returns, and what a cached response saves.
use skopos.Base.{
  ℕ, suc, ◌+◌, ◌≤◌, String, ◌≡◌, ◌⊎◌, sym, ap, ◌∙◌, inl, inr, Bool, true, false, Option, none, some,
  ℤ, ◌+ℤ◌, ltb_ℤ, if◌then◌else◌, Result, ok, arith, Bool-cases, Option-cases, Result-cases,
}
use skopos.Any.{Any}
use skopos.Schema.Doc.{Doc, Request, Cache}
use skopos.Client.Platform.{Platform}
use skopos.Client.Scope.{Scope}
use skopos.Client.Eval.{eval_value}
use skopos.Client.Extract.{StepResult}
use skopos.Client.Cache.{cache_get, coerce_cache_expiry}
use skopos.Client.Wire.{Wire, HttpRequest, HttpResponse}
use skopos.Client.Decode.{decode_chain, effective_decode}
use skopos.Client.Token.{send_request, store_with_body}
use skopos.Client.Exec.{bind-eq-ok}
use skopos.Client.Token.Laws.{sent, store_with_body-get}
use skopos.Client.Http.Frame.{build_request-grown, store_response-exchanges}
use skopos.Client.Http.{
  expect_status_ok, build_request, store_response, accept_response, exchange, execute_request,
  cached_body,
}

module _ (platform : Platform) (w : Wire) where
  accepts_with :
      (resp : HttpResponse) (body : Any) (res : StepResult) (s s' : Scope)
      → ◌≡◌ {A = Result StepResult × Scope}
          (ok (record { headers = resp.header; body = body }), s)
          (ok res, s')
      → (res.body ≡ body) × (res.headers ≡ resp.header) × (s ≡ s')
  accepts_with resp body res s s' h = (cc, cc, cc)

  accept_response-ok :
      (req : Request) (resp : HttpResponse) (t s' : Scope) (res : StepResult)
      → accept_response platform w req resp t ≡ (ok res, s')
      → (expect_status_ok req.expect_status resp.status ≡ true)
        × (decode_chain w (effective_decode req) resp.body ≡ ok res.body)
        × (res.headers ≡ resp.header)
        × (store_response platform w req.cache res.body t ≡ (ok tt, s'))
  unfolding accept_response
  accept_response-ok req resp t s' res h =
      elim (Bool-cases (expect_status_ok req.expect_status resp.status)) [
        | inr bad ↦ cc (rw (bad, accept_response) at h)
        | inl good ↦ elim (Result-cases (decode_chain w (effective_decode req) resp.body)) [
          | inr (e, failed) ↦ cc (rw (good, failed, accept_response) at h)
          | inl (body, decoded) ↦
              elim (Result-cases (store_response platform w req.cache body t).0) [
                | inr (e, failed) ↦ cc (rw (good, decoded, failed, accept_response) at h)
                | inl (u, stored) ↦
                    let (same, hd, left) =
                      accepts_with resp body res (store_response platform w req.cache body t).1 s'
                        (rw (good, decoded, stored, accept_response) at h) in
                    (good, cc, hd, rw same (cc))
              ]
        ]
      ]

  send_request-ok :
      (label : String) (r : HttpRequest) (t t' : Scope) (resp : HttpResponse)
      → send_request platform w label r t ≡ (ok resp, t')
      → (w.send t.exchanges r ≡ some resp) × (t' ≡ sent w t)
  unfolding send_request
  send_request-ok label r t t' resp h = elim (Option-cases (w.send t.exchanges r)) [
    | inl failed ↦ cc (rw (failed, send_request) at h)
    | inr (got, answered) ↦
        let h' = rw (answered, send_request) at h in
        (answered ∙ cc h', ap (λ (p : Result HttpResponse × Scope). p.1) (sym h'))
  ]

  -- An executed request that returns has either read its cache slot, with no header, no exchange and no
  -- other effect, or it has made an exchange of its own: some request was answered with a status that
  -- expect_status allows, the body is what the decode chain gives for that response, and the headers
  -- are its headers.
  pub execute_request-accepted :
      (doc : Doc) (req : Request) (s s' : Scope) (res : StepResult)
      → execute_request platform w doc req s ≡ (ok res, s')
      → ((cached_body platform w req.cache s ≡ some res.body) × (res.headers ≡ none) × (s' ≡ s))
        ⊎ ((n : ℕ) × (r : HttpRequest) × (resp : HttpResponse) × (w.send n r ≡ some resp)
            × (s.exchanges ≤ n)
            × (n + 1 ≡ s'.exchanges)
            × (expect_status_ok req.expect_status resp.status ≡ true)
            × (decode_chain w (effective_decode req) resp.body ≡ ok res.body)
            × (res.headers ≡ resp.header))
  unfolding execute_request exchange send_request
  execute_request-accepted doc req s s' res h =
      elim (Option-cases (cached_body platform w req.cache s)) [
        | inr (v, hit) ↦
            let h' : ◌≡◌ {A = Result StepResult × Scope}
                (ok (record { headers = none; body = v }), s) (ok res, s') =
              rw (hit, execute_request) at h in
            inl (cc, cc, cc)
        | inl miss ↦
            let run : exchange platform w doc req s ≡ (ok res, s') =
              rw (miss, execute_request) at h in
            let (r, t, built, more) =
              bind-eq-ok (build_request platform w doc req) _ s s' res run in
            let (resp, t', got, last) =
              bind-eq-ok (send_request platform w "http.Do" r) _ t s' res more in
            let (good, decoded, hd, stored) = accept_response-ok req resp t' s' res last in
            let (answer, behind) = send_request-ok "http.Do" r t t' resp got in
            let counted : t'.exchanges ≡ suc t.exchanges = ap (λ (u : Scope). u.exchanges) behind in
            let same = store_response-exchanges platform w req.cache res.body t' s' stored in
            inr (
              t.exchanges,
              r,
              resp,
              answer,
              build_request-grown platform w doc req s t r built,
              omega (arith, same, counted),
              good,
              decoded,
              hd,
            )
      ]

  exchange-stored :
      (doc : Doc) (req : Request) (s s' : Scope) (res : StepResult)
      → exchange platform w doc req s ≡ (ok res, s')
      → (r : HttpRequest) × (t : Scope) × (build_request platform w doc req s ≡ (ok r, t))
        × (store_response platform w req.cache res.body (sent w t) ≡ (ok tt, s'))
  unfolding exchange
  exchange-stored doc req s s' res run =
      let (r, t, built, more) = bind-eq-ok (build_request platform w doc req) _ s s' res run in
      let (resp, t', got, last) =
        bind-eq-ok (send_request platform w "http.Do" r) _ t s' res more in
      let stored = (accept_response-ok req resp t' s' res last).3 in
      let behind : t' ≡ sent w t = (send_request-ok "http.Do" r t t' resp got).1 in
      (r, t, built, ap (λ u. store_response platform w req.cache res.body u) (sym behind) ∙ stored)

  store_response-block :
      (m : Option Cache) (c : Cache) (body : Any) (t s' : Scope)
      → m ≡ some c
      → store_response platform w m body t ≡ (ok tt, s')
      → store_with_body platform w "cache" c body body t ≡ (ok tt, s')
  store_response-block m c body t s' has h =
      ap (λ o. store_response platform w o body t) (sym has) ∙ h

  answers_again :
      (doc : Doc) (req : Request) (c : Cache) (after : Scope) (v : Any) (b : Bool)
      → req.cache ≡ some c
      → cache_get platform c after ≡ (if b then some v else none)
      → execute_request platform w doc req after ≡ (
          if b
          then (ok (record { headers = none; body = v }), after)
          else exchange platform w doc req after)
  unfolding execute_request
  answers_again doc req c after v true has got = rw (has, got, execute_request)
  answers_again doc req c after v false has got =
      let miss : cached_body platform w req.cache after ≡ none =
        ap (λ m. cached_body platform w m after) has ∙ got in
      rw (miss, execute_request)

  -- After a request whose cache slot was not fresh has returned, the same request executed at a later
  -- instant, with no write to the cache between, makes no exchange and returns the same body as long as
  -- that instant with the buffer added is before the expiry, and from then on it is exchanged anew. The
  -- expiry is expires_at in the scope in which the request was built, with the exchange counted, the
  -- clock read behind it and the response bound as the body; a relative one counts from that reading.
  pub execute_request-reused :
      (doc : Doc) (req : Request) (c : Cache) (s s' : Scope) (res : StepResult) (later buffer : ℤ)
      → req.cache ≡ some c
      → platform.parse_duration c.buffer ≡ some buffer
      → cached_body platform w req.cache s ≡ none
      → execute_request platform w doc req s ≡ (ok res, s')
      → (r : HttpRequest) × (t : Scope) × (raw : Any) × (expiry : ℤ) × (build_request platform w doc
            req s
          ≡ (ok r, t))
        × (eval_value platform (record (sent w t) { body = res.body }) c.expires_at ≡ ok raw)
        × (coerce_cache_expiry platform raw (w.clock (suc t.exchanges)) ≡ ok expiry)
        × (let after : Scope = record s' { now = later } in
            execute_request platform w doc req after ≡ (
              if ltb_ℤ (later +ℤ buffer) expiry
              then (ok (record { headers = none; body = res.body }), after)
              else exchange platform w doc req after))
  unfolding execute_request exchange
  execute_request-reused doc req c s s' res later buffer has parsed miss h =
      let run : exchange platform w doc req s ≡ (ok res, s') = rw (miss, execute_request) at h in
      let (r, t, built, stored) = exchange-stored doc req s s' res run in
      let (raw, expiry, got, coerced, again) =
        store_with_body-get platform w "cache" c res.body res.body (sent w t) s' later buffer parsed
          (store_response-block req.cache c res.body (sent w t) s' has stored) in
      (
        r,
        t,
        raw,
        expiry,
        built,
        got,
        coerced,
        answers_again doc req c (record s' { now = later }) res.body
            (ltb_ℤ (later +ℤ buffer) expiry) has again,
      )

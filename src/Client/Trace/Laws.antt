-- ===== src/Client/Trace/Laws.antt =====
-- What a trace says of a request's headers does not depend on secrets.
use skopos.Base.{
  String, ◌≡◌, refl, ap, inl, inr, true, List, [], ◌∷◌, ◌++◌, Dict, contains, ◌==◌, ok, arith,
  eq_refl, Bool-cases,
}
use skopos.Any.{Any}
use skopos.Schema.Value.{Value}
use skopos.Schema.Doc.{Doc, Request}
use skopos.Schema.Secret.{is_secret}
use skopos.Client.Platform.{Platform}
use skopos.Client.Scope.{Scope}
use skopos.Client.Redact.Laws.{AgreeOutsideSecrets}
use skopos.Client.Wire.{Wire, HttpRequest}
use skopos.Client.Http.{build_request}
use skopos.Client.Trace.Alike.{shown_headers-Alike}
use skopos.Client.Trace.Build.{is_single, Covered, Twin-build_request}
use skopos.Client.Trace.{
  sensitive_header_names, auth_names, secret_names, hidden_names, redacted_headers,
}

contains-append_right :
    (k : String) (xs ys : List String) → contains k ys ≡ true → contains k (xs ++ ys) ≡ true
contains-append_right k [] ys h = h
contains-append_right k (x ∷ xs) ys h = ground (arith, contains-append_right k xs ys h)

contains-append_left :
    (k : String) (xs ys : List String) → contains k xs ≡ true → contains k (xs ++ ys) ≡ true
contains-append_left k [] ys h = cc
contains-append_left k (x ∷ xs) ys h = elim (Bool-cases (x == k)) [
  | inl here ↦ ground arith
  | inr there ↦ ground (arith, contains-append_left k xs ys (ground arith))
]

module _ (platform : Platform) (to_lower : String → String) (w : Wire) (d : Doc) (req : Request)
    (s : Scope) (m : Dict Any) where
  secret_names-Covered :
      (lower : (k : String) → to_lower (platform.canonical_header k) ≡ to_lower k)
      (agree : AgreeOutsideSecrets d s.state m) (hidden : List String) (hs : Dict Value)
      → ((k : String) → contains k (secret_names to_lower d hs) ≡ true → contains k hidden ≡ true)
      → Covered platform to_lower lower hidden w d s m agree hs
  unfolding secret_names
  secret_names-Covered lower agree hidden [] hides = tt
  secret_names-Covered lower agree hidden ((k, v) ∷ hs) hides = (
    λ secret. hides (to_lower k) (rw (secret, eq_refl (to_lower k)) refl),
    secret_names-Covered lower agree hidden hs λ k' h. hides k' (below k' h),
  )
    where
      below :
          (k' : String)
          → contains k' (secret_names to_lower d hs) ≡ true
          → contains k' (secret_names to_lower d ((k, v) ∷ hs)) ≡ true
      below k' h = elim (Bool-cases (is_secret d v)) [
        | inl secret ↦ rw (secret, h) (ground arith)
        | inr clear ↦ rw (clear, h) refl
      ]

  -- The request that is built in two scopes which differ in secret fields only leaves the same headers
  -- in the trace, whatever else the two requests hold: where the auth block is neither sigv4 nor
  -- multi_mode, and lower case does not tell a header's name from its canonical form.
  pub build_request-redacted :
      (r r' : HttpRequest) (t t' : Scope)
      → ((k : String) → to_lower (platform.canonical_header k) ≡ to_lower k)
      → to_lower "Authorization" ≡ "authorization"
      → is_single d.auth ≡ true
      → AgreeOutsideSecrets d s.state m
      → build_request platform w d req s ≡ (ok r, t)
      → build_request platform w d req (record s { state = m }) ≡ (ok r', t')
      → redacted_headers to_lower d req d.auth r.header
        ≡ redacted_headers to_lower d req d.auth r'.header
  unfolding redacted_headers
  build_request-redacted r r' t t' lower authorization single agree built built' =
      let hidden = hidden_names to_lower d req d.auth in
      let own = auth_names to_lower d.auth in
      let secrets = secret_names to_lower d req.headers in
      let twin =
        Twin-build_request platform to_lower lower hidden w d s m agree req single
          (λ k h.
            contains-append_right k sensitive_header_names (own ++ secrets)
              (contains-append_left k own secrets h))
          (ap (λ k. contains k hidden) authorization)
          (secret_names-Covered lower agree hidden req.headers λ k h.
            contains-append_right k sensitive_header_names (own ++ secrets)
              (contains-append_right k own secrets h)) in
      let alike = twin.at r r' t t' built built' in
      rw (shown_headers-Alike to_lower hidden r.header r'.header alike)

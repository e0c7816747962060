-- ===== src/Schema/Validation/Document/Laws.antt =====
-- What a document with no error has passed, part by part.
use skopos.Base.{ℕ, suc, ℤ, String, ◌≡◌, Bool, true, List, [], ◌∷◌, ◌++◌, Option, All}
use skopos.Schema.Doc.{Doc, Request}
use skopos.Schema.Validation.Diag.{Context, no_errors, no_errors-append, at, ◌/+◌}
use skopos.Schema.Validation.Lifetimes.{check_lifetimes, check_state_declarations}
use skopos.Schema.Validation.Auth.{check_auth}
use skopos.Schema.Validation.Requests.{check_request, check_each_request, check_optional_chain}
use skopos.Schema.Validation.Document.{
  check_version, check_requests, check_pagination, check_writes, check_error, check_all_unique,
  initial_context, final_context, validate,
}

module _ (parse_duration : String → Option ℤ) (match_glob : String → String → Option Bool) (d : Doc)
    (valid : no_errors (validate parse_duration match_glob d) ≡ true) where
  behind_declarations :
      no_errors (
        check_lifetimes d (initial_context d)
        ++ (check_auth parse_duration "auth" d.auth (initial_context d)
            ++ (check_requests parse_duration match_glob d.requests (initial_context d)
                ++ (check_pagination "pagination" d.pagination (final_context d)
                    ++ (check_writes "progress" 0 d.progress (final_context d)
                        ++ check_error "error" d.error)))))
      ≡ true
  unfolding validate
  behind_declarations =
      let rest = (no_errors-append (check_version d.ir_version) _ valid).1 in
      (no_errors-append (check_state_declarations d.state (initial_context d)) _ rest).1

  pub validate-lifetimes : no_errors (check_lifetimes d (initial_context d)) ≡ true
  validate-lifetimes =
      (no_errors-append (check_lifetimes d (initial_context d)) _ behind_declarations).0

  behind_auth :
      no_errors (
        check_requests parse_duration match_glob d.requests (initial_context d)
        ++ (check_pagination "pagination" d.pagination (final_context d)
            ++ (check_writes "progress" 0 d.progress (final_context d)
                ++ check_error "error" d.error)))
      ≡ true
  behind_auth =
      let rest =
        (no_errors-append (check_lifetimes d (initial_context d)) _ behind_declarations).1 in
      (no_errors-append (check_auth parse_duration "auth" d.auth (initial_context d)) _ rest).1

  pub validate-requests :
      no_errors (check_requests parse_duration match_glob d.requests (initial_context d)) ≡ true
  validate-requests = (no_errors-append _ _ behind_auth).0

  pub validate-pagination :
      no_errors (check_pagination "pagination" d.pagination (final_context d)) ≡ true
  validate-pagination = (no_errors-append _ _ (no_errors-append _ _ behind_auth).1).0

module _ (parse_duration : String → Option ℤ) (match_glob : String → String → Option Bool) where
  -- The decode chain of a request without an error.
  request-chain :
      (path : String) (req : Request) (sc : Context)
      → no_errors (check_request parse_duration match_glob path req sc) ≡ true
      → no_errors (check_optional_chain parse_duration match_glob (path /+ ".decode") req.decode)
        ≡ true
  unfolding check_request
  request-chain path req sc h =
      let a = (no_errors-append _ _ h).0 in
      let b = (no_errors-append _ _ a).0 in
      let c = (no_errors-append _ _ b).0 in
      let d = (no_errors-append _ _ c).0 in
      let e = (no_errors-append _ _ d).0 in
      let f = (no_errors-append _ _ e).0 in
      let g = (no_errors-append _ _ f).0 in
      let i = (no_errors-append _ _ g).0 in (no_errors-append _ _ i).1

  abbrev pub ChainPassed : Request → Type 0
  ChainPassed req =
      (path : String) × (no_errors (check_optional_chain parse_duration match_glob path req.decode)
        ≡ true)

  each-chain :
      (i : ℕ) (reqs : List Request) (sc : Context)
      → no_errors (check_each_request parse_duration match_glob i reqs sc) ≡ true
      → All ChainPassed reqs
  unfolding check_each_request
  each-chain i [] sc h = tt
  each-chain i (r ∷ rs) sc h =
      let (here, rest) = no_errors-append _ _ h in
      ((_, request-chain (at "requests" i) r _ here), each-chain (suc i) rs _ rest)

  pub requests-chains :
      (reqs : List Request) (sc : Context)
      → no_errors (check_requests parse_duration match_glob reqs sc) ≡ true
      → All ChainPassed reqs
  unfolding check_requests
  requests-chains [] sc h = tt
  requests-chains (r ∷ rs) sc h =
      each-chain 0 (r ∷ rs) sc
        (no_errors-append _ _ (no_errors-append (check_all_unique 0 [] (r ∷ rs)) _ h).1).1

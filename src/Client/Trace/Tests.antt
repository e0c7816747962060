-- ===== src/Client/Trace/Tests.antt =====
-- What a trace shows of requests with a secret key.
use skopos.Base.{
  ◌≡◌, refl, true, false, [], ◌∷◌, none, some, ok, String, if◌then◌else◌, ◌==◌, Dict, arith, eq_iff,
  lookup,
}
use skopos.Any.{Any}
use skopos.Schema.Path.{of_parts}
use skopos.Schema.Value.{Value, ref, absent, constant}
use skopos.Schema.Doc.{Doc, Auth, api_key, multi_mode, branch, end, no_auth}
use skopos.Client.Scope.{Scope}
use skopos.Client.Coerce.{is_zero_runtime}
use skopos.Client.Wire.{HttpRequest}
use skopos.Client.Http.{build_request}
use skopos.Client.Redact.Laws.{AgreeOutsideSecrets}
use skopos.Client.Trace.{redacted_headers, body_meta}
use skopos.Client.Trace.Laws.{build_request-redacted}
use skopos.Client.Samples.{platform, wire, doc, request, scope}

-- strings.ToLower on the names at hand
abbrev to_lower : String → String
to_lower t = if t == "Authorization" then "authorization" else t

classified : body_meta 5 " {}  " ≡ "body 5 bytes, object-like"
unfolding body_meta
classified = refl

abbrev key : Value
key = ref (of_parts ("state" ∷ "key" ∷ [])) absent

abbrev by_key : Auth
by_key = api_key "X-Key" key false

abbrev secret_doc : Doc
secret_doc = record doc {
  state = ("key", record { type_name = "secret"; initial = none; values = []; format = "" }) ∷ [];
  auth = by_key;
}

abbrev keyed : String → Dict Any
keyed k = ("key", Any.str k) ∷ []

abbrev first_scope : Scope
first_scope = record scope { state = keyed "k1" }

abbrev built : String → HttpRequest
built k = record {
  method = "GET";
  url = record { base = "https://example.com/events"; raw_query = "" };
  header =
      ("Accept", "application/json, application/x-ndjson;q=0.9, */*;q=0.1" ∷ [])
      ∷ ("X-Key", k ∷ [])
      ∷ [];
  body = none;
}

builds : build_request platform wire secret_doc request first_scope ≡ (ok (built "k1"), first_scope)
unfolding build_request is_zero_runtime
builds = refl

builds_again :
    build_request platform wire secret_doc request (record first_scope { state = keyed "k2" })
    ≡ (ok (built "k2"), record first_scope { state = keyed "k2" })
unfolding build_request is_zero_runtime
builds_again = refl

agree : AgreeOutsideSecrets secret_doc (keyed "k1") (keyed "k2")
unfolding lookup
agree name h = ground (arith, eq_iff "key" name)

build_request-redacted_example :
    redacted_headers to_lower secret_doc request by_key (built "k1").header
    ≡ redacted_headers to_lower secret_doc request by_key (built "k2").header
build_request-redacted_example =
    build_request-redacted platform to_lower wire secret_doc request first_scope (keyed "k2")
      (built "k1") (built "k2") first_scope (record first_scope { state = keyed "k2" }) (λ k. refl)
      refl refl agree builds builds_again

-- Behind a branch of multi_mode the same key is shown.
abbrev branched : Auth
branched = multi_mode (branch (constant true) by_key end) no_auth

shows_key :
    redacted_headers to_lower
      (record secret_doc { auth = branched })
      request
      branched
      (built "k1").header
    ≡ some (
        ("Accept", "application/json, application/x-ndjson;q=0.9, */*;q=0.1")
        ∷ ("X-Key", "k1")
        ∷ [])
unfolding redacted_headers
shows_key = refl

-- ===== src/Client/Trace.antt =====
-- client/trace.go: the record of an exchange that a tracer is given, with what it hides.
pub mod Alike
pub mod Body
pub mod Build
pub mod Laws
mod Tests
use Prim.Native.Char.{Char, code}
use Prim.Native.String
use skopos.Base.{
  ℕ, ℤ, pos, String, Bool, true, false, not, ◌&&◌, ◌||◌, List, [], ◌∷◌, ◌++◌, Option, none, some,
  Dict, insert, contains, nat_beq, ◌==◌, if◌then◌else◌, Error,
}
use skopos.Schema.Value.{Value}
use skopos.Schema.Doc.{Doc, Request, Auth, api_key, custom}
use skopos.Schema.Secret.{is_secret}
use skopos.Client.Numerals.{format_int}
use skopos.Client.Scope.{Header}
use skopos.Client.Redact.{redact_value}

abbrev is_blank : Char → Bool
is_blank c =
    nat_beq (code c) b' ' || nat_beq (code c) 9 || nat_beq (code c) 10 || nat_beq (code c) 13

-- trimLeadingWhitespace
unfoldable pub trim_leading_whitespace : String → String
trim_leading_whitespace String.[] = ""
trim_leading_whitespace (String.◌∷◌ c s) =
    let rest = trim_leading_whitespace s in if is_blank c then rest else String.◌∷◌ c s

abbrev class_of : String → String
class_of String.[] = "whitespace-only"
class_of (String.◌∷◌ c s) =
    if nat_beq (code c) b'{'
    then "object-like"
    else if nat_beq (code c) b'['
    then "array-like"
    else if nat_beq (code c) b'<'
    then "html-like"
    else if nat_beq (code c) b'"'
    then "string-like"
    else "non-json"

-- bodyClassName
unfoldable pub body_class_name : String → String
unfolding trim_leading_whitespace
body_class_name raw = class_of (trim_leading_whitespace raw)

-- bodyMeta
unfoldable pub body_meta : ℕ → String → String
unfolding body_class_name format_int
body_meta n raw =
    if nat_beq n 0
    then "body empty"
    else String.◌++◌ "body "
        (String.◌++◌ (format_int (pos n)) (String.◌++◌ " bytes, " (body_class_name raw)))

-- url.URL, by the parts that safeURL tells apart.
pub record WireUrl : Type 0 where
  pub scheme : String
  pub userinfo : String
  pub host : String
  pub path : String
  pub raw_query : String

-- httpTrace
pub record HttpTrace : Type 0 where
  pub method : String
  pub final_url : Option WireUrl
  pub headers : Header
  pub req_body_meta : String
  pub status_code : ℕ
  pub resp_body_meta : String
  pub started_at : ℤ
  pub elapsed : ℤ

-- Exchange. The error is kept as it is, where the code writes its text with redactURLError.
pub record Exchange : Type 0 where
  pub iteration : ℕ
  pub step_id : String
  pub cache_hit : Bool
  pub method : String
  pub url : String
  pub query : Option (Dict String)
  pub request_headers : Option (Dict String)
  pub request_body : String
  pub status : ℕ
  pub response_body : String
  pub started_at : ℤ
  pub elapsed : ℤ
  pub error : Option Error

abbrev pub redacted_value : String
redacted_value = "<redacted>"

-- sensitiveHeaderNames
abbrev pub sensitive_header_names : List String
sensitive_header_names =
    "authorization" ∷ "proxy-authorization" ∷ "cookie" ∷ "set-cookie" ∷ "x-amz-security-token"
    ∷ "x-amz-date" ∷ []

abbrev or_absent : {A : Type 0} → List A → Option (List A)
or_absent [] = none
or_absent (a ∷ m) = some (a ∷ m)

-- strings.Join(vals, ", ")
unfoldable pub join_comma : List String → String
join_comma [] = ""
join_comma (v ∷ []) = v
join_comma (v ∷ w ∷ vs) = String.◌++◌ v (String.◌++◌ ", " (join_comma (w ∷ vs)))

abbrev pub with_api_key : Auth → Dict String → Dict String
with_api_key (api_key header v true) out = insert header redacted_value out
with_api_key a out = out

-- URL.String of a scheme, a host and a path is the argument.
module _ (url_text : String → String → String → String) where
  -- safeURL
  abbrev pub safe_url : Option WireUrl → String
  safe_url none = ""
  safe_url (some u) = url_text u.scheme u.host u.path

-- `quote` is fmt.Sprintf("%q", s).
module _ (quote : String → String) where
  -- The loop over req.Query.
  unfoldable pub shown_query : Doc → Dict Value → Dict String → Dict String
  unfolding redact_value insert
  shown_query doc [] out = out
  shown_query doc ((k, v) ∷ m) out = shown_query doc m (insert k (redact_value quote doc v) out)

  -- redactedQuery
  unfoldable pub redacted_query : Doc → Request → Option (Dict String)
  unfolding shown_query insert
  redacted_query doc req = or_absent (with_api_key doc.auth (shown_query doc req.query []))

-- strings.ToLower is the argument.
module _ (to_lower : String → String) where
  -- The header names, in lower case, that the auth block itself names.
  abbrev pub auth_names : Auth → List String
  auth_names (custom header v) = to_lower header ∷ []
  auth_names (api_key header v false) = to_lower header ∷ []
  auth_names a = []

  -- The declared headers with a secret value.
  unfoldable pub secret_names : Doc → Dict Value → List String
  unfolding is_secret
  secret_names doc [] = []
  secret_names doc ((k, v) ∷ m) =
      let rest = secret_names doc m in if is_secret doc v then to_lower k ∷ rest else rest

  -- redactByName
  abbrev pub hidden_names : Doc → Request → Auth → List String
  hidden_names doc req a = sensitive_header_names ++ (auth_names a ++ secret_names doc req.headers)

  -- The loop over the header set.
  unfoldable pub shown_headers : List String → Header → Dict String
  unfolding join_comma
  shown_headers hidden [] = []
  shown_headers hidden ((name, vals) ∷ h) =
      (name, if contains (to_lower name) hidden then redacted_value else join_comma vals)
      ∷ shown_headers hidden h

  -- redactedHeaders
  unfoldable pub redacted_headers : Doc → Request → Auth → Header → Option (Dict String)
  unfolding shown_headers secret_names
  redacted_headers doc req a h = or_absent (shown_headers (hidden_names doc req a) h)

module _ (to_lower quote : String → String) (url_text : String → String → String → String) where
  abbrev is_hit : String → Option Error → Bool
  is_hit method none = method == ""
  is_hit method (some e) = false

  -- The record of a cache hit.
  abbrev tombstone : Request → ℕ → Exchange
  tombstone req i = record {
    iteration = i;
    step_id = req.id;
    cache_hit = true;
    method = "";
    url = "";
    query = none;
    request_headers = none;
    request_body = "";
    status = 0;
    response_body = "";
    started_at = pos 0;
    elapsed = pos 0;
    error = none;
  }

  -- buildExchange
  unfoldable pub build_exchange : Doc → Request → HttpTrace → Option Error → ℕ → Exchange
  unfolding redacted_query redacted_headers
  build_exchange doc req t e i = if is_hit t.method e then tombstone req i else record {
    iteration = i;
    step_id = req.id;
    cache_hit = false;
    method = t.method;
    url = safe_url url_text t.final_url;
    query = redacted_query quote doc req;
    request_headers = redacted_headers to_lower doc req doc.auth t.headers;
    request_body = t.req_body_meta;
    status = t.status_code;
    response_body = t.resp_body_meta;
    started_at = t.started_at;
    elapsed = t.elapsed;
    error = e;
  }

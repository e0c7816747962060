-- ===== src/Client/Samples.antt =====
-- A small document, an environment and scopes for the tests of the client.
use skopos.Base.{
  ◌≡◌, refl, suc, ◌*◌, err, true, false, List, [], ◌∷◌, none, some, pos, leb, ◌==◌, if◌then◌else◌,
  ok, msg,
}
use skopos.Any.{Any, nil, int, str, list, of_list, object, entry, done}
use skopos.Schema.Path.{RefPath, of_parts}
use skopos.Schema.Value.{literal_int, literal_string, ref, absent, constant}
use skopos.Schema.Doc.{Doc, Request, Write, CounterPagination, Cache, bearer, gzip, json}
use skopos.Schema.Validation.Diag.{no_errors}
use skopos.Schema.Validation.Document.{validate}
use skopos.Client.Platform.{Platform}
use skopos.Client.Scope.{Scope}
use skopos.Client.Wire.{Wire}
use skopos.Client.Dispatch.{Environment}
use skopos.Client.Extract.{StepResult}
use skopos.Client.Runner.{Drain, Endpoints}
use skopos.Client.Iteration.{IterationResult, iter_accepted, iter_warn}

abbrev pub platform : Platform
platform = record {
  parse_rfc3339nano = λ t. none;
  parse_rfc3339 = λ t. none;
  format_rfc3339nano = λ t. "";
  format_rfc3339 = λ t. "";
  parse_duration = λ t. if t == "60s" then some (pos 60000000000) else none;
  format_duration = λ d. "";
  float_to_int = λ x. pos x;
  float_eq = λ x y. false;
  float_nonzero = λ x. true;
  float_seconds = λ x. pos x;
  float_time = λ x. pos x;
  format_float = λ x. "";
  sprint = λ v. "";
  find_submatch = λ p t. some none;
  encode_base64 = λ t. t;
  query_escape = λ t. t;
  canonical_header = λ t. t;
}

abbrev pub events : List Any
events = int (pos 7) ∷ int (pos 9) ∷ []

abbrev pub response : StepResult
response = record { headers = none; body = list (of_list events) }

-- An executor that always answers, under a context that ends at the hundredth check.
abbrev pub env : Environment
env = record {
  execute_request = λ req s. (ok response, record s { exchanges = suc s.exchanges });
  ctx_err = λ n. if leb 100 n then some (msg "context canceled") else none;
  emit_error = λ n. none;
}

abbrev pub page : RefPath
page = of_parts ("state" ∷ "page" ∷ [])

abbrev pub since : RefPath
since = of_parts ("state" ∷ "since" ∷ [])

abbrev pub last_event : RefPath
last_event = of_parts ("events" ∷ "last" ∷ [])

abbrev pub request : Request
request = record {
  id = "";
  method = "GET";
  url = literal_string "https://example.com/events";
  query = [];
  headers = [];
  body = none;
  decode = none;
  extract = [];
  fan_out = none;
  expect_status = [];
  gate = none;
  terminate_when = none;
  on_status = (404, "skip") ∷ [];
  events_at = some (of_parts ("response" ∷ "body" ∷ []));
  cache = none;
}

abbrev pub counter_block : CounterPagination
counter_block = record {
  to = page;
  start = none;
  step = none;
  terminate_when = some (constant false);
}

abbrev pub progress : List Write
progress = record { to = since; from = ref last_event absent; coerce = ""; regex = "" } ∷ []

abbrev pub doc : Doc
doc = record {
  ir_version = "1";
  state =
      ("page", record { type_name = "int"; initial = none; values = []; format = "" })
      ∷ (
        "since",
        record {
          type_name = "int";
          initial = some (literal_int (pos 0));
          values = [];
          format = "";
        },
      )
      ∷ [];
  auth = bearer (literal_string "token");
  requests = request ∷ [];
  pagination = record {
    single_page = false;
    cursor_token = none;
    next_url = none;
    counter = some counter_block;
    custom = none;
  };
  progress = progress;
  error = none;
}

abbrev pub scope : Scope
scope = record {
  state = ("page", int (pos 4)) ∷ ("since", int (pos 5)) ∷ [];
  cache = ("token", str "abc") ∷ [];
  extract = [];
  steps = [];
  events = list (of_list events);
  body = nil;
  response_headers = none;
  step_headers = [];
  item = nil;
  item_binding = "";
  now = pos 1000;
  exchanges = 0;
  checks = 0;
}

abbrev pub cache_block : Cache
cache_block = record {
  to = of_parts ("cache" ∷ "token" ∷ []);
  expires_at = literal_int (pos 3600);
  buffer = "60s";
}

abbrev pub start : Drain
start = record { scope = scope; pages = 0; delivered = [] }

abbrev pub accepted : IterationResult
accepted = record {
  kind = iter_accepted;
  producer_body = list (of_list events);
  producer_headers = none;
  events = some events;
  producer_ran = true;
}

abbrev pub warned : IterationResult
warned = record accepted { kind = iter_warn; events = none; producer_ran = false }

abbrev pub ends : Endpoints
ends = record {
  loaded = ok (("since", int (pos 5)) ∷ []);
  flush_error = none;
  save_error = λ m. none;
}

-- A network that answers a POST with a token and all else with a page, a second of the clock for each
-- exchange.
abbrev pub wire : Wire
wire = record {
  send = λ n r. some (record {
    status = 200;
    header = some [];
    body = record { content = if r.method == "POST" then "token" else "page"; fails = false };
  });
  clock = λ n. pos (1000000000 * n);
  parse_url = λ t. some (record { base = t; raw_query = "" });
  parse_query = λ t. [];
  encode_query = λ q. "";
  url_string = λ u. u.base;
  new_request_url = λ m t. some (record { base = t; raw_query = "" });
  to_upper = λ t. t;
  trim_space = λ t. t;
  parse_json = λ t.
      if t == "token"
      then some (object (entry "access_token" (str "abc") done))
      else some (list (of_list events));
  marshal_json = λ v. some "";
  gunzip = λ r. some r;
  scan_lines = λ r. ([], false);
  read_csv = λ r. ([], false);
  open_zip = λ t. none;
  match_glob = λ g t. some true;
  base_name = λ t. t;
  static_credentials =
      λ k p t. ok (record { access_key_id = k; secret_access_key = p; session_token = t });
  ambient_credentials = λ n. err (msg "no credentials");
  sign_http = λ n c r h s g. some r;
  sha256_hex = λ t. t;
}

-- A document that the validator accepts, with a decode chain of two stages.
abbrev pub valid_doc : Doc
valid_doc = record doc {
  requests =
      record request {
        events_at = some (of_parts ("response" ∷ "body" ∷ "items" ∷ []));
        decode = some (gzip ∷ json ∷ []);
      }
      ∷ [];
}

pub valid_doc-no_errors :
    no_errors (validate platform.parse_duration wire.match_glob valid_doc) ≡ true
unfolding validate no_errors
valid_doc-no_errors = refl

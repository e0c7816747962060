-- ===== src/Schema/Validation/Document.antt =====
-- Validate, and the checks of schema/validate.go over the whole document.
pub mod Laws
use Prim.Native.String
use skopos.Base.{
  ℕ, zero, suc, ◌+◌, ℤ, pos, negsuc, String, Bool, true, false, not, ◌&&◌, List, [], ◌∷◌, ◌++◌,
  Option, none, some, Dict, contains, nat_beq, ltb, ◌==◌, if◌then◌else◌,
}
use skopos.Schema.Path.{RefPath, is_empty}
use skopos.Schema.Value.{Value, Predicate}
use skopos.Schema.Doc.{
  Doc, Request, Write, Pagination, CursorTokenPagination, NextUrlPagination, CounterPagination,
  CustomPagination, ErrorBlock, FanOut, Cache,
}
use skopos.Schema.Validation.Diag.{Diagnostic, errorf, Context, ◌/+◌, at}
use skopos.Schema.Validation.Refs.{check_pagination_from_path}
use skopos.Schema.Validation.Values.{predicate_is_zero, check_value, check_predicate}
use skopos.Schema.Validation.Auth.{check_required, check_given, check_auth}
use skopos.Schema.Validation.Lifetimes.{
  collect_cache_slots, check_state_declarations, check_lifetimes,
}
use skopos.Schema.Validation.Requests.{check_given_predicate, extract_names, check_each_request}

abbrev seen_id : String → String → List String → List Diagnostic
seen_id path id seen =
    if not (id == "") && contains id seen then errorf path "duplicate step id" else []

abbrev is_set : Option RefPath → Bool
is_set none = false
is_set (some p) = true

abbrev both : Option Cache → Option FanOut → Bool
both (some c) (some f) = true
both c f = false

-- The body of the first loop of checkRequests, with the ids seen.
unfoldable pub check_unique : String → List String → Request → List Diagnostic
check_unique p seen req =
    seen_id (p /+ ".id") req.id seen
    ++ (if is_set req.events_at && req.method == "HEAD"
        then errorf (p /+ ".events_at") "HEAD has no response body"
        else [])
    ++ (if both req.cache req.fan_out
        then errorf p "cache and fan_out are mutually exclusive"
        else [])

unfoldable pub check_all_unique : ℕ → List String → List Request → List Diagnostic
unfolding check_unique at
check_all_unique i seen [] = []
check_all_unique i seen (r ∷ rs) =
    check_unique (at "requests" i) seen r
    ++ check_all_unique (suc i) (if r.id == "" then seen else r.id ∷ seen) rs

unfoldable pub producers : List Request → ℕ
producers [] = 0
producers (r ∷ rs) = (if is_set r.events_at then 1 else 0) + producers rs

abbrev check_producers : ℕ → List Diagnostic
check_producers n =
    if nat_beq n 0
    then errorf "requests" "exactly one request must set events_at; got 0"
    else if ltb 1 n
    then errorf "requests" "at most one request may set events_at"
    else []

abbrev pub check_from : String → RefPath → Context → List Diagnostic
check_from path p sc =
    if is_empty p
    then errorf path "from is required"
    else check_pagination_from_path path p.parts sc

abbrev check_url_capture : String → ℤ → List Diagnostic
check_url_capture path (pos n) = []
check_url_capture path (negsuc n) = errorf path "capture must be a non-negative 1-based group index"

-- The loops over advance and over progress, whose destinations checkLifetimes has checked.
unfoldable pub check_writes : String → ℕ → List Write → Context → List Diagnostic
unfolding check_value at
check_writes path i [] sc = []
check_writes path i (w ∷ ws) sc =
    check_required (at path i /+ ".from") "from is required" w.from sc
    ++ check_writes path (suc i) ws sc

abbrev check_cursor_token : String → CursorTokenPagination → Context → List Diagnostic
check_cursor_token path c sc =
    check_from (path /+ ".cursor_token.from") c.from sc
    ++ check_given_predicate (path /+ ".cursor_token.terminate_when") c.terminate_when sc

abbrev check_next_url : String → NextUrlPagination → Context → List Diagnostic
check_next_url path u sc =
    check_from (path /+ ".next_url.from") u.from sc
    ++ check_url_capture (path /+ ".next_url.capture") u.capture
    ++ check_given_predicate (path /+ ".next_url.terminate_when") u.terminate_when sc

abbrev check_counter : String → CounterPagination → Context → List Diagnostic
check_counter path c sc =
    check_given (path /+ ".counter.start") c.start sc
    ++ check_given (path /+ ".counter.step") c.step sc
    ++ check_given_predicate (path /+ ".counter.terminate_when") c.terminate_when sc

abbrev no_writes : List Write → Bool
no_writes [] = true
no_writes (w ∷ ws) = false

abbrev check_custom : String → CustomPagination → Context → List Diagnostic
check_custom path c sc =
    (if no_writes c.advance
      then errorf (path /+ ".custom.advance") "advance must contain at least one write"
      else [])
    ++ check_writes (path /+ ".custom.advance") 0 c.advance sc
    ++ (if predicate_is_zero c.terminate_when
        then errorf (path /+ ".custom.terminate_when") "terminate_when is required"
        else check_predicate (path /+ ".custom.terminate_when") c.terminate_when sc)

abbrev given_count : {A : Type 0} → Option A → ℕ
given_count none = 0
given_count (some a) = 1

-- len(p.VariantNames())
unfoldable pub variant_count : Pagination → ℕ
variant_count p =
    (if p.single_page then 1 else 0)
    + (given_count p.cursor_token
        + (given_count p.next_url + (given_count p.counter + given_count p.custom)))

-- The switch of checkPagination.
unfoldable pub check_variant : String → Pagination → Context → List Diagnostic
unfolding is_empty check_pagination_from_path check_writes check_predicate check_value
check_variant path p sc = if p.single_page then [] else elim p.cursor_token [
  | some c ↦ check_cursor_token path c sc
  | none ↦ elim p.next_url [
    | some u ↦ check_next_url path u sc
    | none ↦ elim p.counter [
      | some c ↦ check_counter path c sc
      | none ↦ elim p.custom [ some c ↦ check_custom path c sc | none ↦ [] ]
    ]
  ]
]

-- checkPagination
unfoldable pub check_pagination : String → Pagination → Context → List Diagnostic
unfolding variant_count check_variant
check_pagination path p sc =
    if nat_beq (variant_count p) 0
    then errorf path "pagination block must have exactly one variant"
    else if nat_beq (variant_count p) 1
    then check_variant path p sc
    else errorf path "pagination block must have exactly one variant; found more"

-- checkError
unfoldable pub check_error : String → Option ErrorBlock → List Diagnostic
check_error path none = []
check_error path (some e) =
    if contains e.mode ("standard" ∷ "warn" ∷ "fail" ∷ [])
    then []
    else errorf (path /+ ".mode") "mode is required, or unknown"

abbrev pub check_version : String → List Diagnostic
check_version v = if v == "1" then [] else errorf "ir_version" "unexpected version"

abbrev ids_of : List Request → List String
ids_of [] = []
ids_of (r ∷ rs) = if r.id == "" then ids_of rs else r.id ∷ ids_of rs

-- The context that run sets up.
unfoldable pub initial_context : Doc → Context
unfolding collect_cache_slots
initial_context d = record {
  state = d.state;
  step_ids = ids_of d.requests;
  extract = [];
  cache_slots = collect_cache_slots d;
  fan_out_alias = "";
}

abbrev all_extracts : List Request → List String → List String
all_extracts [] names = names
all_extracts (r ∷ rs) names = all_extracts rs (extract_names r.extract ++ names)

-- The context behind checkRequests: every extract is in scope.
unfoldable pub final_context : Doc → Context
unfolding initial_context
final_context d = record (initial_context d) { extract = all_extracts d.requests [] }

module _ (parse_duration : String → Option ℤ) (match_glob : String → String → Option Bool) where
  -- checkRequests
  unfoldable pub check_requests : List Request → Context → List Diagnostic
  unfolding check_all_unique producers check_each_request
  check_requests [] sc = errorf "requests" "at least one request is required"
  check_requests (r ∷ rs) sc =
      check_all_unique 0 [] (r ∷ rs)
      ++ (check_producers (producers (r ∷ rs))
          ++ check_each_request parse_duration match_glob 0 (r ∷ rs) sc)

  -- Validate, by run: the parts of the document in their order.
  unfoldable pub validate : Doc → List Diagnostic
  unfolding initial_context final_context check_state_declarations check_lifetimes check_auth
      check_requests check_pagination check_writes check_error
  validate d =
      check_version d.ir_version
      ++ (check_state_declarations d.state (initial_context d)
          ++ (check_lifetimes d (initial_context d)
              ++ (check_auth parse_duration "auth" d.auth (initial_context d)
                  ++ (check_requests d.requests (initial_context d)
                      ++ (check_pagination "pagination" d.pagination (final_context d)
                          ++ (check_writes "progress" 0 d.progress (final_context d)
                              ++ check_error "error" d.error))))))

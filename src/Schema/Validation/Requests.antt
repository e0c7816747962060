-- ===== src/Schema/Validation/Requests.antt =====
-- checkRequests to checkDecodeChain of schema/validate.go.
use skopos.Base.{
  ℕ, suc, ℤ, String, Bool, true, false, not, ◌&&◌, ◌||◌, List, [], ◌∷◌, ◌++◌, Option, none, some,
  Dict, lookup, contains, ltb, nat_beq, pos, ◌==◌, if◌then◌else◌,
}
use skopos.Schema.Path.{RefPath, is_empty, closed_roots}
use skopos.Schema.Value.{Value, Predicate}
use skopos.Schema.Doc.{
  Request, FanOut, Body, json, form, raw, no_variant, ExtractVar, DecodeStage, gzip, zip, csv,
  ndjson, unset,
}
use skopos.Client.Numerals.{format_int}
use skopos.Schema.Validation.Diag.{Diagnostic, errorf, warnf, Context, ◌/+◌, at}
use skopos.Schema.Validation.Refs.{check_events_at_path, check_extract_from_path, declared}
use skopos.Schema.Validation.Values.{
  is_absent, check_value, check_list_shaped_value, check_predicate,
}
use skopos.Schema.Validation.Auth.{check_required, check_optional_cache}

-- The loop over a map of values.
unfoldable pub check_values : String → Dict Value → Context → List Diagnostic
unfolding check_value
check_values path [] sc = []
check_values path ((k, v) ∷ m) sc = check_value (path /+ "." /+ k) v sc ++ check_values path m sc

-- checkBody
unfoldable pub check_body : String → Body → Context → List Diagnostic
unfolding check_values check_value
check_body path (json m) sc = check_values (path /+ ".json") m sc
check_body path (form m) sc = check_values (path /+ ".form") m sc
check_body path (raw v) sc = check_value (path /+ ".raw") v sc
check_body path no_variant sc = errorf path "body block must have exactly one variant"

abbrev check_over : String → Value → Context → List Diagnostic
check_over path v sc =
    if is_absent v
    then errorf path "over is required"
    else check_value path v sc ++ check_list_shaped_value path v

abbrev check_alias : String → String → Context → List Diagnostic
check_alias path alias sc =
    if alias == ""
    then errorf path "as is required"
    else (if contains alias closed_roots then errorf path "as shadows a namespace root" else [])
      ++ (if declared (lookup alias sc.state)
          then errorf path "as collides with a declared state field name"
          else [])
      ++ (if contains alias sc.step_ids then errorf path "as collides with a request id" else [])

-- checkFanOut
unfoldable pub check_fan_out : String → FanOut → Context → List Diagnostic
unfolding check_value check_list_shaped_value closed_roots lookup
check_fan_out path f sc =
    check_over (path /+ ".over") f.over sc
    ++ check_alias (path /+ ".as") f.alias sc
    ++ (if contains f.merge ("" ∷ "flatten" ∷ "wrap" ∷ [])
        then []
        else errorf (path /+ ".merge") "merge must be flatten or wrap")

abbrev status_range : String → ℕ → List Diagnostic
status_range path code =
    if ltb code 100 || ltb 599 code then errorf path "status is out of HTTP range" else []

-- The switch on an on_status action. `has_cache` is sc.hasCache.
abbrev check_action : String → String → Bool → List Diagnostic
check_action path action has_cache =
    if action == ""
    then errorf path "on_status action is required"
    else if contains action ("skip" ∷ "fail" ∷ "empty_events" ∷ [])
    then []
    else if action == "invalidate_cache"
    then (if has_cache then [] else warnf path "invalidate_cache has no reachable cache block")
    else errorf path "unknown on_status action"

abbrev pub has_cache : Context → Bool
has_cache sc = elim sc.cache_slots [ [] ↦ false | s ∷ ss ↦ true ]

-- checkOnStatus
unfoldable pub check_on_status : String → List (ℕ × String) → Context → List Diagnostic
unfolding format_int
check_on_status path [] sc = []
check_on_status path ((code, action) ∷ m) sc =
    let op = path /+ "." /+ format_int (pos code) in
    status_range op code ++ check_action op action (has_cache sc) ++ check_on_status path m sc

abbrev among : ℕ → List ℕ → Bool
among c [] = false
among c (d ∷ ds) = nat_beq d c || among c ds

-- The loop over expect_status, with the codes seen.
unfoldable pub check_expect_status : String → List ℕ → List ℕ → List Diagnostic
check_expect_status path seen [] = []
check_expect_status path seen (code ∷ codes) =
    status_range path code
    ++ (if among code seen then errorf path "status is duplicated" else [])
    ++ check_expect_status path (code ∷ seen) codes

-- isTerminalDecode, isByteTransformDecode
unfoldable pub is_terminal : DecodeStage → Bool
is_terminal (csv header) = true
is_terminal DecodeStage.json = true
is_terminal ndjson = true
is_terminal stage = false

unfoldable pub is_byte_transform : DecodeStage → Bool
is_byte_transform gzip = true
is_byte_transform (zip glob) = true
is_byte_transform stage = false

abbrev check_header : String → String → List Diagnostic
check_header path header =
    if header == "present" || header == "absent"
    then []
    else errorf path "csv.header must be present or absent"

-- path.Match is the argument; validGlob matches the empty name.
module _ (match_glob : String → String → Option Bool) where
  abbrev valid_glob : String → Option Bool → List Diagnostic
  valid_glob path none = errorf path "invalid glob"
  valid_glob path (some b) = []

  abbrev check_stage_args : String → DecodeStage → List Diagnostic
  check_stage_args op (csv header) = check_header (op /+ ".header") header
  check_stage_args op (zip glob) =
      if glob == "" then [] else valid_glob (op /+ ".glob") (match_glob glob "")
  check_stage_args op stage = []

  abbrev check_order : String → DecodeStage → List DecodeStage → List Diagnostic
  check_order op stage [] =
      if is_terminal stage then [] else errorf op "the last decode stage must be terminal"
  check_order op stage (s ∷ ss) =
      if is_byte_transform stage
      then []
      else errorf op "only byte-transform stages may precede the terminal decoder"

  -- The body of the loop of checkDecodeChain: a stage, with those behind it.
  unfoldable pub check_stage : String → DecodeStage → List DecodeStage → List Diagnostic
  unfolding is_terminal is_byte_transform
  check_stage op unset rest = errorf op "decode stage must have exactly one key"
  check_stage op stage rest = check_order op stage rest ++ check_stage_args op stage

  unfoldable pub check_stages : String → ℕ → List DecodeStage → List Diagnostic
  unfolding check_stage at
  check_stages path i [] = []
  check_stages path i (stage ∷ rest) =
      check_stage (at path i) stage rest ++ check_stages path (suc i) rest

  -- checkDecodeChain
  unfoldable pub check_decode_chain : String → List DecodeStage → List Diagnostic
  unfolding check_stages
  check_decode_chain path [] = errorf path "decode is required"
  check_decode_chain path (s ∷ ss) = check_stages path 0 (s ∷ ss)

abbrev terminal_is_csv : List DecodeStage → Bool
terminal_is_csv [] = false
terminal_is_csv (csv h ∷ []) = true
terminal_is_csv (s ∷ []) = false
terminal_is_csv (s ∷ t ∷ ss) = terminal_is_csv (t ∷ ss)

abbrev chain_of : Option (List DecodeStage) → List DecodeStage
chain_of none = []
chain_of (some c) = c

abbrev check_method : String → String → List Diagnostic
check_method path method =
    if method == ""
    then errorf path "method is required"
    else if contains method ("GET" ∷ "POST" ∷ "PUT" ∷ "PATCH" ∷ "DELETE" ∷ "HEAD" ∷ [])
    then []
    else errorf path "unknown HTTP method"

unfoldable pub check_extracts : String → ℕ → List ExtractVar → Context → List Diagnostic
unfolding is_empty check_extract_from_path at
check_extracts path j [] sc = []
check_extracts path j (ex ∷ exs) sc =
    (if is_empty ex.from
      then errorf (at path j /+ ".from") "from is required"
      else check_extract_from_path (at path j /+ ".from") ex.from.parts sc)
    ++ check_extracts path (suc j) exs sc

abbrev pub check_given_predicate : String → Option Predicate → Context → List Diagnostic
check_given_predicate path none sc = []
check_given_predicate path (some p) sc = check_predicate path p sc

abbrev check_events_at : String → Request → Option RefPath → Context → List Diagnostic
check_events_at path req none sc = []
check_events_at path req (some p) sc =
    check_events_at_path path p sc
    ++ (if terminal_is_csv (chain_of req.decode) && not (is_empty p)
        then errorf path "events_at must be empty for csv decode"
        else [])

abbrev check_optional_body : String → Option Body → Context → List Diagnostic
check_optional_body path none sc = []
check_optional_body path (some b) sc = check_body path b sc

abbrev check_optional_fan_out : String → Option FanOut → Context → List Diagnostic
check_optional_fan_out path none sc = []
check_optional_fan_out path (some f) sc = check_fan_out path f sc

abbrev extract_name : List String → List String
extract_name (root ∷ name ∷ []) = if root == "extract" && not (name == "") then name ∷ [] else []
extract_name parts = []

-- The names that the extracts of a request bring into scope.
abbrev pub extract_names : List ExtractVar → List String
extract_names [] = []
extract_names (ex ∷ exs) = extract_name ex.to.parts ++ extract_names exs

abbrev alias_of : Option FanOut → String → String
alias_of none alias = alias
alias_of (some f) alias = f.alias

module _ (parse_duration : String → Option ℤ) (match_glob : String → String → Option Bool) where
  abbrev pub check_optional_chain : String → Option (List DecodeStage) → List Diagnostic
  check_optional_chain path none = []
  check_optional_chain path (some c) = check_decode_chain match_glob path c

  -- checkRequest
  unfoldable pub check_request : String → Request → Context → List Diagnostic
  unfolding is_empty check_value check_values check_body check_decode_chain check_events_at_path
      check_extracts check_fan_out check_predicate check_on_status check_expect_status
  check_request path req sc =
      check_method (path /+ ".method") req.method
      ++ check_required (path /+ ".url") "url is required" req.url sc
      ++ check_values (path /+ ".query") req.query sc
      ++ check_values (path /+ ".headers") req.headers sc
      ++ check_optional_body (path /+ ".body") req.body sc
      ++ check_optional_chain (path /+ ".decode") req.decode
      ++ check_events_at (path /+ ".events_at") req req.events_at sc
      ++ check_extracts (path /+ ".extract") 0 req.extract sc
      ++ check_optional_cache parse_duration (path /+ ".cache") req.cache sc
      ++ check_optional_fan_out (path /+ ".fan_out") req.fan_out sc
      ++ check_given_predicate (path /+ ".if") req.gate sc
      ++ check_given_predicate (path /+ ".terminate_when") req.terminate_when sc
      ++ check_on_status (path /+ ".on_status") req.on_status sc
      ++ check_expect_status (path /+ ".expect_status") [] req.expect_status

  -- The second loop of checkRequests: the names extracted so far are in scope.
  unfoldable pub check_each_request : ℕ → List Request → Context → List Diagnostic
  unfolding check_request at
  check_each_request i [] sc = []
  check_each_request i (r ∷ rs) sc =
      check_request (at "requests" i) r
        (record sc { fan_out_alias = alias_of r.fan_out sc.fan_out_alias })
      ++ check_each_request (suc i) rs
          (record sc { extract = extract_names r.extract ++ sc.extract })

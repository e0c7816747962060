-- ===== src/Schema/Validation/Refs.antt =====
-- The checks of paths in schema/validate.go, from checkPathRef to checkExtractFromPath.
use Prim.Native.Char.{code}
use skopos.Base.{
  String, Bool, true, false, not, ◌&&◌, List, [], ◌∷◌, ◌++◌, Option, none, some, lookup, contains,
  nat_beq, ◌==◌, if◌then◌else◌,
}
use skopos.Schema.Path.{RefPath, is_empty}
use skopos.Schema.Doc.{FieldDecl}
use skopos.Client.Numerals.{parse_int}
use skopos.Schema.Validation.Diag.{Diagnostic, errorf, Context}

-- checkNoStarOutsideEvents
unfoldable pub check_no_star : String → List String → List Diagnostic
check_no_star path parts =
    if contains "*" parts
    then errorf path "the * projection segment is only legal in events"
    else []

abbrev pub declared : Option FieldDecl → Bool
declared none = false
declared (some fd) = true

-- checkStateRef, on the segments behind the root; `parts` are all of them.
unfoldable pub check_state_ref : String → List String → List String → Context → List Diagnostic
unfolding check_no_star lookup
check_state_ref path parts [] sc = errorf path "state ref requires a field name"
check_state_ref path parts (name ∷ rest) sc =
    (if declared (lookup name sc.state) then [] else errorf path "state field is not declared")
    ++ check_no_star path parts

-- checkCacheRef
unfoldable pub check_cache_ref : String → List String → List String → Context → List Diagnostic
unfolding check_no_star
check_cache_ref path parts [] sc = errorf path "cache ref requires a slot name"
check_cache_ref path parts (name ∷ rest) sc =
    (if contains name sc.cache_slots then [] else errorf path "cache slot is not declared")
    ++ check_no_star path parts

-- checkExtractRef
unfoldable pub check_extract_ref : String → List String → List String → Context → List Diagnostic
unfolding check_no_star
check_extract_ref path parts [] sc = errorf path "extract ref requires a name"
check_extract_ref path parts (name ∷ rest) sc =
    (if contains name sc.extract then [] else errorf path "extract is not in scope")
    ++ check_no_star path parts

-- strings.HasPrefix(seg, "-")
abbrev has_minus : String → Bool
has_minus String.[] = false
has_minus (String.◌∷◌ c s) = nat_beq (code c) b'-'

abbrev pub check_index : String → String → List Diagnostic
check_index path seg = elim (parse_int seg) [
  | none ↦ errorf path "events segment is not a non-negative integer literal"
  | some n ↦ if has_minus seg then errorf path "events segment must be non-negative" else []
]

-- The switch on the segment behind events.
unfoldable pub check_event_segment : String → String → List String → List Diagnostic
unfolding parse_int
check_event_segment path seg rest =
    if seg == "first"
    then []
    else if seg == "last"
    then []
    else if seg == "count"
    then elim rest [ [] ↦ [] | s ∷ ss ↦ errorf path "events.count has no sub-path" ]
    else if seg == "*"
    then []
    else check_index path seg

-- checkEventsRef
unfoldable pub check_events_ref : String → List String → List Diagnostic
unfolding check_event_segment
check_events_ref path [] = errorf path "events ref requires a sub-segment"
check_events_ref path (seg ∷ rest) =
    check_event_segment path seg rest
    ++ (if contains "*" rest
        then errorf path "the * projection segment is only legal at position 1"
        else [])

-- The kind segment of checkStepsRef.
unfoldable pub check_step_kind : String → List String → List String → List Diagnostic
unfolding check_no_star
check_step_kind path parts [] = errorf path "steps ref requires a kind segment"
check_step_kind path parts (kind ∷ rest) =
    (if kind == "body"
      then []
      else if kind == "header"
      then elim rest [ [] ↦ errorf path "steps header requires a header name" | n ∷ ns ↦ [] ]
      else errorf path "steps third segment must be body or header")
    ++ check_no_star path parts

-- checkStepsRef
unfoldable pub check_steps_ref : String → List String → List String → Context → List Diagnostic
unfolding check_step_kind
check_steps_ref path parts [] sc = errorf path "steps ref requires an id"
check_steps_ref path parts (id ∷ rest) sc =
    if contains id sc.step_ids
    then check_step_kind path parts rest
    else errorf path "step is not declared by any requests[].id"

-- checkResponseRef
unfoldable pub check_response_ref : String → List String → List String → List Diagnostic
unfolding check_no_star
check_response_ref path parts [] = errorf path "response ref requires a kind segment"
check_response_ref path parts (kind ∷ rest) =
    (if kind == "body"
      then []
      else if kind == "header"
      then elim rest [ [] ↦ errorf path "response.header requires a header name" | n ∷ ns ↦ [] ]
      else errorf path "response second segment must be body or header")
    ++ check_no_star path parts

-- The switch on the root, behind the fan_out alias.
unfoldable pub check_root : String → String → List String → Context → List Diagnostic
unfolding check_no_star check_state_ref check_cache_ref check_events_ref check_extract_ref
    check_steps_ref check_response_ref
check_root path root rest sc =
    if not (sc.fan_out_alias == "") && root == sc.fan_out_alias
    then check_no_star path (root ∷ rest)
    else if root == "state"
    then check_state_ref path (root ∷ rest) rest sc
    else if root == "cache"
    then check_cache_ref path (root ∷ rest) rest sc
    else if root == "events"
    then check_events_ref path rest
    else if root == "extract"
    then check_extract_ref path (root ∷ rest) rest sc
    else if root == "steps"
    then check_steps_ref path (root ∷ rest) rest sc
    else if root == "response"
    then check_response_ref path (root ∷ rest) rest
    else errorf path "unknown namespace root"

abbrev pub check_parts : String → List String → Context → List Diagnostic
check_parts path [] sc = errorf path "ref path is required"
check_parts path (root ∷ rest) sc = check_root path root rest sc

-- checkPathRef
unfoldable pub check_path_ref : String → RefPath → Context → List Diagnostic
unfolding is_empty check_root
check_path_ref path p sc =
    if is_empty p then errorf path "ref path is required" else check_parts path p.parts sc

-- The rest of a steps.<id>.body.<path> slot behind the id.
abbrev check_step_body : String → List String → List Diagnostic
check_step_body path [] = errorf path "the steps ref must be steps.<id>.body.<path>"
check_step_body path (kind ∷ rest) =
    if kind == "body"
    then elim rest [ [] ↦ errorf path "steps.<id>.body root requires a sub-path" | s ∷ ss ↦ [] ]
    else errorf path "the steps ref must be steps.<id>.body.<path>"

abbrev check_step_slot : String → List String → Context → List Diagnostic
check_step_slot path [] sc = errorf path "steps ref requires an id"
check_step_slot path (id ∷ rest) sc =
    if contains id sc.step_ids
    then check_step_body path rest
    else errorf path "step is not declared by any requests[].id"

abbrev check_response_body : String → List String → List Diagnostic
check_response_body path [] = errorf path "the response root must be response.body.<path>"
check_response_body path (kind ∷ rest) =
    if kind == "body"
    then elim rest [ [] ↦ errorf path "response.body root requires a sub-path" | s ∷ ss ↦ [] ]
    else errorf path "the response root must be response.body.<path>"

abbrev events_at_parts : String → List String → Context → List Diagnostic
events_at_parts path [] sc = []
events_at_parts path (root ∷ rest) sc =
    if root == "response"
    then check_response_body path rest
    else if root == "steps"
    then check_step_slot path rest sc
    else errorf path "events_at must be rooted at response.body or steps.<id>.body"

-- checkEventsAtPath
unfoldable pub check_events_at_path : String → RefPath → Context → List Diagnostic
unfolding is_empty
check_events_at_path path p sc = if is_empty p then [] else events_at_parts path p.parts sc

-- checkPaginationFromPath, whose callers test that the path is not empty
unfoldable pub check_pagination_from_path : String → List String → Context → List Diagnostic
unfolding check_response_ref
check_pagination_from_path path [] sc = []
check_pagination_from_path path (root ∷ rest) sc =
    if root == "response"
    then check_response_ref path (root ∷ rest) rest
    else if root == "steps"
    then check_step_slot path rest sc
    else errorf path "from must be rooted at response or steps.<id>.body"

-- checkExtractFromPath, likewise
unfoldable pub check_extract_from_path : String → List String → Context → List Diagnostic
unfolding check_response_ref check_steps_ref
check_extract_from_path path [] sc = []
check_extract_from_path path (root ∷ rest) sc =
    if root == "response"
    then check_response_ref path (root ∷ rest) rest
    else if root == "steps"
    then check_steps_ref path (root ∷ rest) rest sc
    else errorf path "from must be rooted at response or steps"

-- ===== src/Schema/Validation/Lifetimes.antt =====
-- collectCacheSlots, checkStateDeclarations and checkLifetimes of schema/validate.go.
use skopos.Base.{
  ℕ, suc, String, Bool, true, false, not, ◌&&◌, ◌||◌, List, [], ◌∷◌, ◌++◌, Option, none, some, Dict,
  lookup, contains, ◌==◌, if◌then◌else◌,
}
use skopos.Schema.Path.{RefPath, is_empty}
use skopos.Schema.Doc.{
  Doc, FieldDecl, Cache, Auth, AuthBranches, oauth2, multi_mode, end, branch,
  ClientCredentialsGrant, PasswordGrant, Request, ExtractVar, Write, Pagination,
}
use skopos.Schema.Validation.Diag.{Diagnostic, errorf, Context, ◌/+◌, at}
use skopos.Schema.Validation.Refs.{declared}
use skopos.Schema.Validation.Auth.{check_given}

-- The slot of a cache block: any path behind cache.<name>.
abbrev slot_parts : List String → List String
slot_parts (root ∷ name ∷ rest) = if root == "cache" then name ∷ [] else []
slot_parts parts = []

-- `add` of collectCacheSlots
abbrev block_slots : Option Cache → List String
block_slots none = []
block_slots (some c) = if is_empty c.to then [] else slot_parts c.to.parts

-- The same in collectAuthCache, which does not ask whether the path is empty.
abbrev arm_block_slots : Option Cache → List String
arm_block_slots none = []
arm_block_slots (some c) = slot_parts c.to.parts

abbrev cc_cache : Option ClientCredentialsGrant → Option Cache
cc_cache none = none
cc_cache (some g) = g.cache

abbrev pg_cache : Option PasswordGrant → Option Cache
pg_cache none = none
pg_cache (some g) = g.cache

-- collectAuthCache: no block behind a nested multi_mode.
unfoldable pub arm_slots : Auth → List String
arm_slots (oauth2 o) =
    arm_block_slots (cc_cache o.client_credentials) ++ arm_block_slots (pg_cache o.password_grant)
arm_slots a = []

unfoldable pub branches_slots : AuthBranches → List String
unfolding arm_slots
branches_slots end = []
branches_slots (branch p a bs) = arm_slots a ++ branches_slots bs

unfoldable pub doc_auth_slots : Auth → List String
unfolding is_empty branches_slots
doc_auth_slots (oauth2 o) =
    block_slots (cc_cache o.client_credentials) ++ block_slots (pg_cache o.password_grant)
doc_auth_slots (multi_mode bs d) = branches_slots bs ++ arm_slots d
doc_auth_slots a = []

unfoldable pub requests_slots : List Request → List String
unfolding is_empty
requests_slots [] = []
requests_slots (r ∷ rs) = block_slots r.cache ++ requests_slots rs

-- collectCacheSlots
unfoldable pub collect_cache_slots : Doc → List String
unfolding doc_auth_slots requests_slots
collect_cache_slots d = doc_auth_slots d.auth ++ requests_slots d.requests

-- validStateType
unfoldable pub valid_state_type : String → Bool
valid_state_type t =
    contains t
      ("string" ∷ "int" ∷ "bool" ∷ "secret" ∷ "duration" ∷ "timestamp" ∷ "url" ∷ "enum" ∷ [])

abbrev is_nil : List String → Bool
is_nil [] = true
is_nil (v ∷ vs) = false

-- The body of the loop of checkStateDeclarations.
unfoldable pub check_declaration : String → FieldDecl → Context → List Diagnostic
unfolding valid_state_type
check_declaration name fd sc =
    let path = "state." /+ name in
    (if valid_state_type fd.type_name then [] else errorf (path /+ ".type") "unknown type")
    ++ (if fd.type_name == "enum" && is_nil fd.values
        then errorf (path /+ ".values") "enum field must declare at least one value"
        else [])
    ++ (if not (fd.type_name == "enum") && not (is_nil fd.values)
        then errorf (path /+ ".values") "values is only valid when type: enum"
        else [])
    ++ (if fd.format == "" || fd.type_name == "timestamp" || fd.type_name == "duration"
        then []
        else errorf (path /+ ".format") "format is only valid on timestamp or duration")
    ++ check_given (path /+ ".default") fd.initial sc

-- checkStateDeclarations
unfoldable pub check_state_declarations : Dict FieldDecl → Context → List Diagnostic
unfolding check_declaration
check_state_declarations [] sc = []
check_state_declarations ((name, fd) ∷ decls) sc =
    check_declaration name fd sc ++ check_state_declarations decls sc

-- What one destination adds to the writers of a lifetime, and what is said of it.
pub record Noted : Type 0 where
  pub fields : List String
  pub diags : List Diagnostic

abbrev pub nothing_noted : Noted
nothing_noted = record { fields = []; diags = [] }

abbrev pub refused : String → String → Noted
refused path message = record { fields = []; diags = errorf path message }

abbrev pub also : Noted → Noted → Noted
also a b = record { fields = a.fields ++ b.fields; diags = a.diags ++ b.diags }

abbrev pub note_field : String → String → Context → Noted
note_field path name sc =
    if declared (lookup name sc.state)
    then record { fields = name ∷ []; diags = [] }
    else refused path "to targets an undeclared state field"

abbrev pub state_target : String → List String → Context → Noted
state_target path (root ∷ name ∷ []) sc =
    if root == "state" then note_field path name sc else refused path "to must be state.<name>"
state_target path parts sc = refused path "to must be state.<name>"

-- checkStateTo
unfoldable pub check_state_to : String → RefPath → Context → Noted
unfolding is_empty lookup
check_state_to path p sc =
    if is_empty p then refused path "to is required" else state_target path p.parts sc

-- The loops over pagination.custom.advance and over progress.
unfoldable pub note_writes : (ℕ → String) → ℕ → List Write → Context → Noted
unfolding check_state_to
note_writes path i [] sc = nothing_noted
note_writes path i (w ∷ ws) sc =
    also (check_state_to (path i) w.to sc) (note_writes path (suc i) ws sc)

-- The switch on the pagination variant.
unfoldable pub note_pagination : Pagination → Context → Noted
unfolding check_state_to note_writes at
note_pagination p sc = elim p.cursor_token [
  | some c ↦ check_state_to "pagination.cursor_token.to" c.to sc
  | none ↦ elim p.next_url [
    | some u ↦ check_state_to "pagination.next_url.to" u.to sc
    | none ↦ elim p.counter [
      | some c ↦ check_state_to "pagination.counter.to" c.to sc
      | none ↦ elim p.custom [
        | some c ↦ note_writes (λ i. at "pagination.custom.advance" i /+ ".to") 0 c.advance sc
        | none ↦ nothing_noted
      ]
    ]
  ]
]

abbrev pub extract_target : String → List String → Context → Noted
extract_target path (root ∷ name ∷ []) sc =
    if root == "state"
    then note_field path name sc
    else if root == "extract"
    then (if name == "" then refused path "extract destination name is required" else nothing_noted)
    else refused path "to must be state.<name> or extract.<name>"
extract_target path parts sc = refused path "to must be state.<name> or extract.<name>"

-- The body of the loop over a request's extracts.
unfoldable pub check_extract_to : String → RefPath → Context → Noted
unfolding is_empty lookup
check_extract_to path p sc =
    if is_empty p then refused path "to is required" else extract_target path p.parts sc

unfoldable pub note_extracts : String → ℕ → List ExtractVar → Context → Noted
unfolding check_extract_to at
note_extracts path j [] sc = nothing_noted
note_extracts path j (ex ∷ exs) sc =
    also (check_extract_to (at path j /+ ".to") ex.to sc) (note_extracts path (suc j) exs sc)

unfoldable pub note_requests : ℕ → List Request → Context → Noted
unfolding note_extracts at
note_requests i [] sc = nothing_noted
note_requests i (r ∷ rs) sc =
    also (note_extracts (at "requests" i /+ ".extract") 0 r.extract sc)
      (note_requests (suc i) rs sc)

abbrev pub conflict : String → List String → List String → List Diagnostic
conflict field later persistent =
    if contains field persistent && not (contains field later)
    then errorf ("state." /+ field) "state field is written by both lifetimes"
    else []

-- The last loop of checkLifetimes: the per-drain writers that are persistent writers too, each field
-- once.
unfoldable pub conflicts : List String → List String → List Diagnostic
conflicts [] persistent = []
conflicts (field ∷ fields) persistent =
    conflict field fields persistent ++ conflicts fields persistent

-- checkLifetimes
unfoldable pub check_lifetimes : Doc → Context → List Diagnostic
unfolding note_pagination note_writes note_requests conflicts at
check_lifetimes d sc =
    let scratch = note_pagination d.pagination sc in
    let progress = note_writes (λ i. at "progress" i /+ ".to") 0 d.progress sc in
    let extracts = note_requests 0 d.requests sc in
    scratch.diags
    ++ (progress.diags
        ++ (extracts.diags ++ conflicts scratch.fields (progress.fields ++ extracts.fields)))

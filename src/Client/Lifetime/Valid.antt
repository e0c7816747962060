-- ===== src/Client/Lifetime/Valid.antt =====
-- The lifetimes that the validator checks are those that the client derives.
use skopos.Base.{
  ℕ, suc, ℤ, String, ◌≡◌, refl, sym, ap, ◌∙◌, inl, inr, Bool, true, false, ◌||◌, List, [], ◌∷◌,
  ◌++◌, Option, none, some, lookup, contains, ◌==◌, arith, eq_iff, Bool-cases, Option-cases,
}
use mathlib.Core.List.{append_assoc}
use skopos.Schema.Path.{RefPath, is_empty}
use skopos.Schema.Doc.{Doc, Request, ExtractVar, Write, Pagination}
use skopos.Schema.Validation.Diag.{Context, no_errors, no_errors-append, at, ◌/+◌}
use skopos.Schema.Validation.Lifetimes.{
  Noted, also, check_state_to, note_writes, note_pagination, check_extract_to, note_extracts,
  note_requests, conflicts, check_lifetimes, note_field, state_target, extract_target, conflict,
}
use skopos.Schema.Validation.Document.{initial_context, validate}
use skopos.Schema.Validation.Document.Laws.{validate-lifetimes}
use skopos.Client.Lifetime.{
  state_field_name, name_behind, add_name, add_targets, pagination_targets, write_targets,
  extract_targets, request_targets, per_drain_scratch_fields, persistent_state_fields,
}

abbrev named : Option String → List String
named none = []
named (some n) = n ∷ []

-- The state fields that a list of destinations names.
abbrev target_names : List RefPath → List String
target_names [] = []
target_names (p ∷ ps) = named (state_field_name p) ++ target_names ps

contains-append :
    (name : String) (xs ys : List String)
    → contains name (xs ++ ys) ≡ (contains name xs || contains name ys)
contains-append name [] ys = refl
contains-append name (x ∷ xs) ys = ground (arith, contains-append name xs ys)

contains_of_eq :
    (n name : String) (ns : List String) → (n == name) ≡ true → contains n ns ≡ contains name ns
contains_of_eq n name ns h = ap (λ k. contains k ns) ((eq_iff n name).0 h)

contains-add_name :
    (name : String) (o : Option String) (ns : List String)
    → contains name (add_name o ns) ≡ (contains name ns || contains name (named o))
contains-add_name name none ns = ground arith
contains-add_name name (some n) ns = elim (Bool-cases (n == name)) [
  | inl same ↦ ground (arith, contains_of_eq n name ns same)
  | inr other ↦ ground arith
]

contains-add_targets :
    (name : String) (ps : List RefPath) (ns : List String)
    → contains name (add_targets ps ns) ≡ (contains name ns || contains name (target_names ps))
unfolding add_targets
contains-add_targets name [] ns = ground arith
contains-add_targets name (p ∷ ps) ns = ground (
  arith,
  contains-add_targets name ps (add_name (state_field_name p) ns),
  contains-add_name name (state_field_name p) ns,
  contains-append name (named (state_field_name p)) (target_names ps),
)

no_conflict_here :
    (f name : String) (fs persistent : List String)
    → no_errors (conflict f fs persistent) ≡ true
    → (f == name) ≡ true
    → contains name fs ≡ false
    → contains name persistent ≡ false
unfolding no_errors
no_conflict_here f name fs persistent h same last =
    ground (arith, contains_of_eq f name fs same, contains_of_eq f name persistent same)

no_conflict :
    (name : String) (fields persistent : List String)
    → no_errors (conflicts fields persistent) ≡ true
    → contains name fields ≡ true
    → contains name persistent ≡ false
unfolding conflicts
no_conflict name [] persistent h m = cc
no_conflict name (f ∷ fs) persistent h m =
    let (here, rest) = no_errors-append (conflict f fs persistent) (conflicts fs persistent) h in
    elim (Bool-cases (contains name fs)) [
      | inl later ↦ no_conflict name fs persistent rest later
      | inr last ↦ no_conflict_here f name fs persistent here (ground arith) last
    ]

-- A destination without an error adds exactly the field that the client reads off it.
abbrev Faithful : Noted → List String → Type 0
Faithful n names = no_errors n.diags ≡ true → n.fields ≡ names

note_field-Faithful :
    (path name : String) (sc : Context) → Faithful (note_field path name sc) (name ∷ [])
unfolding no_errors
note_field-Faithful path name sc h = ground arith

Faithful-also :
    (a b : Noted) (xs ys : List String)
    → Faithful a xs
    → Faithful b ys
    → Faithful (also a b) (xs ++ ys)
Faithful-also a b xs ys fa fb h =
    let (ha, hb) = no_errors-append a.diags b.diags h in rw (fa ha, fb hb)

state_target-Faithful :
    (path : String) (parts : List String) (sc : Context)
    → Faithful (state_target path parts sc) (named (name_behind "state" parts))
unfolding no_errors lookup
state_target-Faithful path [] sc h = cc
state_target-Faithful path (root ∷ []) sc h = cc
state_target-Faithful path (root ∷ name ∷ []) sc h = elim (Bool-cases (root == "state")) [
  | inl state ↦ rw state (note_field-Faithful path name sc (rw state at h))
  | inr other ↦ cc (rw other at h)
]
state_target-Faithful path (root ∷ name ∷ x ∷ xs) sc h = cc

extract_target-Faithful :
    (path : String) (parts : List String) (sc : Context)
    → Faithful (extract_target path parts sc) (named (name_behind "state" parts))
unfolding no_errors lookup
extract_target-Faithful path [] sc h = cc
extract_target-Faithful path (root ∷ []) sc h = cc
extract_target-Faithful path (root ∷ name ∷ []) sc h = elim (Bool-cases (root == "state")) [
  | inl state ↦ rw state (note_field-Faithful path name sc (rw state at h))
  | inr other ↦ elim (Bool-cases (root == "extract")) [
    | inl scratch ↦ ground arith
    | inr neither ↦ cc (rw (other, neither) at h)
  ]
]
extract_target-Faithful path (root ∷ name ∷ x ∷ xs) sc h = cc

check_state_to-Faithful :
    (path : String) (p : RefPath) (sc : Context)
    → Faithful (check_state_to path p sc) (named (state_field_name p))
unfolding check_state_to state_field_name no_errors
check_state_to-Faithful path p sc h = elim (Bool-cases (is_empty p)) [
  | inl empty ↦ cc (rw (empty, check_state_to) at h)
  | inr full ↦
      rw (full, check_state_to)
        (state_target-Faithful path p.parts sc (rw (full, check_state_to) at h))
]

check_extract_to-Faithful :
    (path : String) (p : RefPath) (sc : Context)
    → Faithful (check_extract_to path p sc) (named (state_field_name p))
unfolding check_extract_to state_field_name no_errors
check_extract_to-Faithful path p sc h = elim (Bool-cases (is_empty p)) [
  | inl empty ↦ cc (rw (empty, check_extract_to) at h)
  | inr full ↦
      rw (full, check_extract_to)
        (extract_target-Faithful path p.parts sc (rw (full, check_extract_to) at h))
]

note_writes-Faithful :
    (path : ℕ → String) (i : ℕ) (ws : List Write) (sc : Context)
    → Faithful (note_writes path i ws sc) (target_names (write_targets ws))
unfolding note_writes
note_writes-Faithful path i [] sc h = refl
note_writes-Faithful path i (w ∷ ws) sc h =
    Faithful-also (check_state_to (path i) w.to sc) (note_writes path (suc i) ws sc) _ _
      (check_state_to-Faithful (path i) w.to sc) (note_writes-Faithful path (suc i) ws sc) h

append_nil : (xs : List String) → xs ++ [] ≡ xs
append_nil [] = refl
append_nil (x ∷ xs) = ap (λ ys. x ∷ ys) (append_nil xs)

one : (n : Noted) (o : Option String) → Faithful n (named o) → Faithful n (named o ++ [])
one n o f h = f h ∙ sym (append_nil (named o))

note_pagination-Faithful :
    (p : Pagination) (sc : Context)
    → Faithful (note_pagination p sc) (target_names (pagination_targets p))
unfolding note_pagination
note_pagination-Faithful p sc h = elim (Option-cases p.cursor_token) [
  | inr (c, token) ↦
      rw (token, note_pagination)
        (one (check_state_to "pagination.cursor_token.to" c.to sc) _
          (check_state_to-Faithful _ c.to sc) (rw (token, note_pagination) at h))
  | inl no_token ↦ elim (Option-cases p.next_url) [
    | inr (u, url) ↦
        rw (no_token, url, note_pagination)
          (one (check_state_to "pagination.next_url.to" u.to sc) _
            (check_state_to-Faithful _ u.to sc) (rw (no_token, url, note_pagination) at h))
    | inl no_url ↦ elim (Option-cases p.counter) [
      | inr (c, count) ↦
          rw (no_token, no_url, count, note_pagination)
            (one (check_state_to "pagination.counter.to" c.to sc) _
              (check_state_to-Faithful _ c.to sc)
              (rw (no_token, no_url, count, note_pagination) at h))
      | inl no_count ↦ elim (Option-cases p.custom) [
        | inr (c, own) ↦
            rw (no_token, no_url, no_count, own, note_pagination)
              (note_writes-Faithful (λ i. at "pagination.custom.advance" i /+ ".to") 0 c.advance sc
                (rw (no_token, no_url, no_count, own, note_pagination) at h))
        | inl no_own ↦ rw (no_token, no_url, no_count, no_own, note_pagination) refl
      ]
    ]
  ]
]

target_names-append :
    (ps qs : List RefPath) → target_names (ps ++ qs) ≡ target_names ps ++ target_names qs
target_names-append [] qs = refl
target_names-append (p ∷ ps) qs =
    ap (λ ns. named (state_field_name p) ++ ns) (target_names-append ps qs)
    ∙ sym (append_assoc (named (state_field_name p)) (target_names ps) (target_names qs))

note_extracts-Faithful :
    (path : String) (j : ℕ) (exs : List ExtractVar) (sc : Context)
    → Faithful (note_extracts path j exs sc) (target_names (extract_targets exs))
unfolding note_extracts
note_extracts-Faithful path j [] sc h = refl
note_extracts-Faithful path j (ex ∷ exs) sc h =
    Faithful-also (check_extract_to (at path j /+ ".to") ex.to sc)
      (note_extracts path (suc j) exs sc) _ _ (check_extract_to-Faithful _ ex.to sc)
      (note_extracts-Faithful path (suc j) exs sc) h

note_requests-Faithful :
    (i : ℕ) (rs : List Request) (sc : Context)
    → Faithful (note_requests i rs sc) (target_names (request_targets rs))
unfolding note_requests
note_requests-Faithful i [] sc h = refl
note_requests-Faithful i (r ∷ rs) sc h =
    Faithful-also (note_extracts (at "requests" i /+ ".extract") 0 r.extract sc)
      (note_requests (suc i) rs sc) _ _ (note_extracts-Faithful _ 0 r.extract sc)
      (note_requests-Faithful (suc i) rs sc) h
    ∙ sym (target_names-append (extract_targets r.extract) (request_targets rs))

disjoint_targets :
    (name : String) (ps ws rs : List RefPath) (scratch progress extracts : List String)
    → scratch ≡ target_names ps
    → progress ≡ target_names ws
    → extracts ≡ target_names rs
    → no_errors (conflicts scratch (progress ++ extracts)) ≡ true
    → contains name (add_targets ps []) ≡ true
    → contains name (add_targets rs (add_targets ws [])) ≡ false
disjoint_targets name ps ws rs scratch progress extracts es ep ee free m =
    let written : contains name scratch ≡ true =
      ap (contains name) es ∙ sym (contains-add_targets name ps []) ∙ m in
    let kept = no_conflict name scratch (progress ++ extracts) free written in
    let both : contains name (target_names ws ++ target_names rs) ≡ false = rw (← ep, ← ee) kept in
    ground (
      arith,
      contains-add_targets name rs (add_targets ws []),
      contains-add_targets name ws [],
      contains-append name (target_names ws) (target_names rs),
    )

check_lifetimes-disjoint :
    (d : Doc) (sc : Context) (name : String)
    → no_errors (check_lifetimes d sc) ≡ true
    → contains name (per_drain_scratch_fields d) ≡ true
    → contains name (persistent_state_fields d) ≡ false
unfolding check_lifetimes per_drain_scratch_fields persistent_state_fields
check_lifetimes-disjoint d sc name h m =
    let scratch = note_pagination d.pagination sc in
    let progress = note_writes (λ i. at "progress" i /+ ".to") 0 d.progress sc in
    let extracts = note_requests 0 d.requests sc in
    let (fine, h₁) = no_errors-append scratch.diags _ h in
    let (fine', h₂) = no_errors-append progress.diags _ h₁ in
    let (fine'', free) = no_errors-append extracts.diags _ h₂ in
    disjoint_targets name (pagination_targets d.pagination) (write_targets d.progress)
      (request_targets d.requests) scratch.fields progress.fields extracts.fields
      (note_pagination-Faithful d.pagination sc fine) (note_writes-Faithful _ 0 d.progress sc fine')
      (note_requests-Faithful 0 d.requests sc fine'') free m

-- In a document for which Validate reports no error, no state field has two lifetimes: a field that the
-- client resets at the start of each drain, since it is a pagination target, is not one that it keeps
-- for a progress write or an extract.
pub validate-disjoint :
    (parse_duration : String → Option ℤ) (match_glob : String → String → Option Bool) (d : Doc)
    (name : String)
    → no_errors (validate parse_duration match_glob d) ≡ true
    → contains name (per_drain_scratch_fields d) ≡ true
    → contains name (persistent_state_fields d) ≡ false
validate-disjoint parse_duration match_glob d name h m =
    check_lifetimes-disjoint d (initial_context d) name
      (validate-lifetimes parse_duration match_glob d h) m

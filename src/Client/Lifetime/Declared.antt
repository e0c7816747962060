-- ===== src/Client/Lifetime/Declared.antt =====
-- The destinations that the validator accepts are declared state fields.
use skopos.Base.{
  ℕ, suc, String, ◌≡◌, refl, inl, inr, true, List, [], ◌∷◌, some, All, lookup, ◌==◌, arith,
  Bool-cases, Option-cases,
}
use skopos.Schema.Path.{RefPath, is_empty}
use skopos.Schema.Doc.{Doc, Write, Pagination}
use skopos.Schema.Validation.Diag.{Context, no_errors, no_errors-append, at, ◌/+◌}
use skopos.Schema.Validation.Refs.{declared}
use skopos.Schema.Validation.Lifetimes.{
  check_state_to, state_target, note_field, note_writes, note_pagination, check_lifetimes,
}
use skopos.Client.Lifetime.{state_field_name, name_behind, pagination_targets, write_targets}

-- The path is state.<name> of a declared field.
abbrev pub IsDeclared : Context → RefPath → Type 0
IsDeclared sc p =
    (name : String) × (state_field_name p ≡ some name) × (declared (lookup name sc.state) ≡ true)

note_field-declared :
    (path name : String) (sc : Context)
    → no_errors (note_field path name sc).diags ≡ true
    → declared (lookup name sc.state) ≡ true
unfolding no_errors
note_field-declared path name sc h = ground arith

state_target-declared :
    (path : String) (parts : List String) (sc : Context)
    → no_errors (state_target path parts sc).diags ≡ true
    → (name : String) × (name_behind "state" parts ≡ some name)
      × (declared (lookup name sc.state) ≡ true)
unfolding no_errors
state_target-declared path [] sc h = cc
state_target-declared path (root ∷ []) sc h = cc
state_target-declared path (root ∷ name ∷ []) sc h = elim (Bool-cases (root == "state")) [
  | inl state ↦ (name, rw state refl, note_field-declared path name sc (rw state at h))
  | inr other ↦ cc (rw other at h)
]
state_target-declared path (root ∷ name ∷ x ∷ xs) sc h = cc

check_state_to-IsDeclared :
    (path : String) (p : RefPath) (sc : Context)
    → no_errors (check_state_to path p sc).diags ≡ true
    → IsDeclared sc p
unfolding check_state_to state_field_name no_errors
check_state_to-IsDeclared path p sc h = elim (Bool-cases (is_empty p)) [
  | inl empty ↦ cc (rw (empty, check_state_to) at h)
  | inr full ↦ state_target-declared path p.parts sc (rw (full, check_state_to) at h)
]

note_writes-IsDeclared :
    (path : ℕ → String) (i : ℕ) (ws : List Write) (sc : Context)
    → no_errors (note_writes path i ws sc).diags ≡ true
    → All (IsDeclared sc) (write_targets ws)
unfolding note_writes
note_writes-IsDeclared path i [] sc h = tt
note_writes-IsDeclared path i (w ∷ ws) sc h =
    let (here, rest) =
      no_errors-append (check_state_to (path i) w.to sc).diags
        (note_writes path (suc i) ws sc).diags h in
    (
      check_state_to-IsDeclared (path i) w.to sc here,
      note_writes-IsDeclared path (suc i) ws sc rest,
    )

note_pagination-IsDeclared :
    (p : Pagination) (sc : Context)
    → no_errors (note_pagination p sc).diags ≡ true
    → All (IsDeclared sc) (pagination_targets p)
unfolding note_pagination
note_pagination-IsDeclared p sc h = elim (Option-cases p.cursor_token) [
  | inr (c, token) ↦
      rw token (check_state_to-IsDeclared _ c.to sc (rw (token, note_pagination) at h), tt)
  | inl no_token ↦ elim (Option-cases p.next_url) [
    | inr (u, url) ↦
        rw (no_token, url)
          (check_state_to-IsDeclared _ u.to sc (rw (no_token, url, note_pagination) at h), tt)
    | inl no_url ↦ elim (Option-cases p.counter) [
      | inr (c, count) ↦
          rw (no_token, no_url, count)
            (
              check_state_to-IsDeclared _ c.to sc
                  (rw (no_token, no_url, count, note_pagination) at h),
              tt,
            )
      | inl no_count ↦ elim (Option-cases p.custom) [
        | inr (c, own) ↦
            rw (no_token, no_url, no_count, own)
              (note_writes-IsDeclared (λ i. at "pagination.custom.advance" i /+ ".to") 0 c.advance
                sc (rw (no_token, no_url, no_count, own, note_pagination) at h))
        | inl no_own ↦ rw (no_token, no_url, no_count, no_own) tt
      ]
    ]
  ]
]

pub check_lifetimes-IsDeclared :
    (d : Doc) (sc : Context)
    → no_errors (check_lifetimes d sc) ≡ true
    → All (IsDeclared sc) (pagination_targets d.pagination)
      × All (IsDeclared sc) (write_targets d.progress)
unfolding check_lifetimes
check_lifetimes-IsDeclared d sc h =
    let (scratch, rest) = no_errors-append (note_pagination d.pagination sc).diags _ h in
    let (progress, more) =
      no_errors-append (note_writes (λ i. at "progress" i /+ ".to") 0 d.progress sc).diags _ rest in
    (
      note_pagination-IsDeclared d.pagination sc scratch,
      note_writes-IsDeclared (λ i. at "progress" i /+ ".to") 0 d.progress sc progress,
    )

-- ===== src/Client/Pagination/Valid.antt =====
-- The pagination block of a document that the validator accepts.
use skopos.Base.{
  ℤ, String, ◌≡◌, refl, inl, inr, Bool, true, Option, All, ok, Bool-cases, Option-cases,
}
use skopos.Schema.Doc.{Doc, Pagination}
use skopos.Schema.Validation.Diag.{no_errors, Context}
use skopos.Schema.Validation.Document.{
  validate, check_pagination, variant_count, initial_context, final_context,
}
use skopos.Schema.Validation.Document.Laws.{validate-pagination, validate-lifetimes}
use skopos.Client.Lifetime.{pagination_targets, write_targets}
use skopos.Client.Lifetime.Declared.{IsDeclared, check_lifetimes-IsDeclared}
use skopos.Client.Pagination.{Plan, make_pagination_plan}

make_plan :
    (path : String) (p : Pagination) (sc : Context)
    → no_errors (check_pagination path p sc) ≡ true
    → (plan : Plan) × (make_pagination_plan p ≡ ok plan)
unfolding check_pagination variant_count make_pagination_plan no_errors
make_plan path p sc h = elim (Bool-cases p.single_page) [
  | inl alone ↦ rw (alone, make_pagination_plan) (_, refl)
  | inr paged ↦ elim (Option-cases p.cursor_token) [
    | inr (c, token) ↦ rw (paged, token, make_pagination_plan) (_, refl)
    | inl no_token ↦ elim (Option-cases p.next_url) [
      | inr (u, url) ↦ rw (paged, no_token, url, make_pagination_plan) (_, refl)
      | inl no_url ↦ elim (Option-cases p.counter) [
        | inr (c, count) ↦ rw (paged, no_token, no_url, count, make_pagination_plan) (_, refl)
        | inl no_count ↦ elim (Option-cases p.custom) [
          | inr (c, own) ↦
              rw (paged, no_token, no_url, no_count, own, make_pagination_plan) (_, refl)
          | inl no_own ↦ cc (rw (paged, no_token, no_url, no_count, no_own, check_pagination) at h)
        ]
      ]
    ]
  ]
]

-- In a document for which Validate reports no error, the pagination plan is made, and every path that
-- the pagination or a progress write stores to is state.<name> of a declared field.
pub validate-plan :
    (parse_duration : String → Option ℤ) (match_glob : String → String → Option Bool) (d : Doc)
    → no_errors (validate parse_duration match_glob d) ≡ true
    → ((plan : Plan) × (make_pagination_plan d.pagination ≡ ok plan))
      × All (IsDeclared (initial_context d)) (pagination_targets d.pagination)
      × All (IsDeclared (initial_context d)) (write_targets d.progress)
validate-plan parse_duration match_glob d valid =
    let (scratch, progress) =
      check_lifetimes-IsDeclared d (initial_context d)
        (validate-lifetimes parse_duration match_glob d valid) in
    (
      make_plan "pagination" d.pagination (final_context d)
          (validate-pagination parse_duration match_glob d valid),
      scratch,
      progress,
    )

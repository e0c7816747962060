-- ===== src/Client/Pagination/Tests.antt =====
-- Advances of a counter.
use skopos.Base.{
  inl, none, lookup, ◌≡◌, refl, true, false, [], ◌∷◌, some, pos, ok, contains, All, ℤ,
}
use skopos.Any.{int}
use skopos.Schema.Value.{literal_int, constant}
use skopos.Schema.Doc.{CounterPagination}
use skopos.Schema.Validation.Document.{initial_context}
use skopos.Client.Lifetime.Declared.{IsDeclared}
use skopos.Client.Pagination.Valid.{validate-plan}
use skopos.Client.Scope.{Scope}
use skopos.Client.Lifetime.{
  pagination_targets, write_targets, per_drain_scratch_fields, state_field_name,
}
use skopos.Client.Progress.Frame.{Frame}
use skopos.Client.Pagination.{Plan, counter, make_pagination_plan, advance, advance_counter}
use skopos.Client.Pagination.Laws.{advance-Frame}
use skopos.Client.Pagination.Counts.{Advances, begins, counts_on, number, advance_counter-number}
use skopos.Client.Samples.{
  platform, doc, scope, counter_block, valid_doc, valid_doc-no_errors, wire,
}

planned : make_pagination_plan doc.pagination ≡ ok (counter counter_block)
unfolding make_pagination_plan
planned = refl

since_kept : contains "since" (per_drain_scratch_fields doc) ≡ false
unfolding per_drain_scratch_fields
since_kept = refl

advance-Frame_example : Frame scope "since" (advance platform (counter counter_block) scope).1
advance-Frame_example =
    advance-Frame platform doc (counter counter_block) scope "since" planned since_kept

abbrev last_page : CounterPagination
last_page = record counter_block { terminate_when = some (constant true) }

finishes : advance platform (counter last_page) scope ≡ (ok true, scope)
unfolding advance
finishes = refl

validate-plan_example :
    ((plan : Plan) × (make_pagination_plan valid_doc.pagination ≡ ok plan))
    × All (IsDeclared (initial_context valid_doc)) (pagination_targets valid_doc.pagination)
    × All (IsDeclared (initial_context valid_doc)) (write_targets valid_doc.progress)
validate-plan_example =
    validate-plan platform.parse_duration wire.match_glob valid_doc valid_doc-no_errors

abbrev by_three : CounterPagination
by_three = record counter_block {
  start = some (literal_int (pos 7));
  step = some (literal_int (pos 3));
}

abbrev numbered : ℤ → Scope
numbered n = record scope { state = ("since", int (pos 5)) ∷ ("page", int n) ∷ [] }

abbrev unnumbered : Scope
unnumbered = record scope { state = ("since", int (pos 5)) ∷ [] }

first_page : advance_counter platform by_three unnumbered ≡ (ok false, numbered (pos 10))
unfolding advance_counter
first_page = refl

second_page : advance_counter platform by_three (numbered (pos 10)) ≡ (ok false, numbered (pos 13))
unfolding advance_counter
second_page = refl

two_pages : Advances platform by_three "page" 2 unnumbered (numbered (pos 13))
two_pages =
    counts_on (numbered (pos 10)) (numbered (pos 10))
      (counts_on unnumbered unnumbered begins refl first_page) refl second_page

page_target : state_field_name by_three.to ≡ some "page"
unfolding state_field_name
page_target = refl

page_unset : lookup "page" unnumbered.state ≡ none
unfolding lookup
page_unset = refl

advance_counter-number_example :
    lookup "page" (numbered (pos 13)).state ≡ some (int (number (pos 7) (pos 3) 2))
advance_counter-number_example =
    advance_counter-number platform by_three "page" (pos 7) (pos 3) page_target (inl refl)
      (inl refl) 1 unnumbered (numbered (pos 13)) (inl page_unset) two_pages

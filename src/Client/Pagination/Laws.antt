-- ===== src/Client/Pagination/Laws.antt =====
-- What an advance may change, and the values that it writes.
use skopos.Base.{
  String, ◌≡◌, ap, subst, ◌∙◌, inl, inr, Bool, true, false, List, [], ◌∷◌, Option, none, some, ℤ,
  ◌+ℤ◌, wrap64, lookup, contains, ok, context, Option-cases,
}
use skopos.Any.{Any, int}
use skopos.Schema.Path.{RefPath}
use skopos.Schema.Doc.{
  Doc, Pagination, CursorTokenPagination, NextUrlPagination, CounterPagination, CustomPagination,
}
use skopos.Client.Platform.{Platform}
use skopos.Client.Scope.{Scope}
use skopos.Client.Exec.{
  Keeps, keeps_rules, pure, reads, modify, ◌>>◌, Keeps-bind, Keeps-bind_value, Keeps-reads,
}
use skopos.Client.Lifetime.{
  state_field_name, pagination_targets, write_targets, per_drain_scratch_fields,
}
use skopos.Client.Lifetime.Targets.{names_path, Untargeted, Untargeted-of_persistent}
use skopos.Client.Progress.Frame.{Frame, Frame-refl, Frame-insert, apply_progress-Frame}
use skopos.Client.Pagination.{
  Plan, single_page, cursor_token, next_url, counter, custom, make_pagination_plan,
  pagination_state_field, put_state, advance_to, advance_cursor_token, advance_next_url, count_on,
  current, advance_counter, advance_custom, write_advance, advance,
}

-- The destinations of a plan.
abbrev plan_targets : Plan → List RefPath
plan_targets single_page = []
plan_targets (cursor_token c) = c.to ∷ []
plan_targets (next_url u) = u.to ∷ []
plan_targets (counter c) = c.to ∷ []
plan_targets (custom c) = write_targets c.advance

pub target_of_field :
    (label : String) (to : RefPath) (n : String)
    → context label (pagination_state_field to) ≡ ok n
    → state_field_name to ≡ some n
unfolding pagination_state_field
target_of_field label to n h = elim (Option-cases (state_field_name to)) [
  | inl bad ↦ cc (rw (bad, pagination_state_field) at h)
  | inr (m, good) ↦ good ∙ ap some (cc (rw (good, pagination_state_field) at h))
]

module _ {s : Scope} {name : String} (platform : Platform) where
  advance_to-Frame :
      (to : RefPath) (got : Any)
      → names_path to name ≡ false
      → Keeps (Frame s name) (advance_to platform to got)
  unfolding advance_to
  advance_to-Frame to got h =
      Keeps-bind_value (context "to" (pagination_state_field to)) _ λ n found. record {
        at = λ t k. Frame-insert to n got t (target_of_field "to" to n found) h k;
      }

  count_on-Frame :
      (c : CounterPagination) (step : ℤ)
      → names_path c.to name ≡ false
      → Keeps (Frame s name) (count_on platform c step)
  unfolding count_on
  count_on-Frame c step h = Keeps-bind _ _ (Keeps-reads _) λ start.
      Keeps-bind_value (context "pagination.counter.to" (pagination_state_field c.to)) _ λ n found.
        Keeps-bind (reads (λ t. current platform (lookup n t.state) start))
          (λ v. modify (put_state n (int (wrap64 (v +ℤ step)))) >> pure false) (Keeps-reads _)
          λ v. record {
            at = λ t k.
                Frame-insert c.to n (int (wrap64 (v +ℤ step))) t
                  (target_of_field "pagination.counter.to" c.to n found) h k;
          }

  advance_plan-Frame :
      (plan : Plan)
      → Untargeted (plan_targets plan) name
      → Keeps (Frame s name) (advance platform plan)
  unfolding advance advance_cursor_token advance_next_url advance_counter advance_custom
      write_advance
  advance_plan-Frame single_page h = search keeps_rules
  advance_plan-Frame (cursor_token c) (h, _) = search (keeps_rules, advance_to-Frame)
  advance_plan-Frame (next_url c) (h, _) = search (keeps_rules, advance_to-Frame)
  advance_plan-Frame (counter c) (h, _) = search (keeps_rules, count_on-Frame)
  advance_plan-Frame (custom c) h = search (keeps_rules, apply_progress-Frame)

Untargeted-of_plan :
    (chosen plan : Plan) (name : String)
    → ok chosen ≡ ok plan
    → Untargeted (plan_targets chosen) name
    → Untargeted (plan_targets plan) name
Untargeted-of_plan chosen plan name same h =
    let eq : chosen ≡ plan = cc in subst (λ p. Untargeted (plan_targets p) name) eq h

-- The destination of the plan is one of the block's.
plan_targets-Untargeted :
    (single : Bool) (ct : Option CursorTokenPagination) (nu : Option NextUrlPagination)
    (co : Option CounterPagination) (cu : Option CustomPagination) (plan : Plan) (name : String)
    → let p : Pagination = record {
      single_page = single;
      cursor_token = ct;
      next_url = nu;
      counter = co;
      custom = cu;
    } in
      make_pagination_plan p ≡ ok plan
      → Untargeted (pagination_targets p) name
      → Untargeted (plan_targets plan) name
unfolding make_pagination_plan
plan_targets-Untargeted true ct nu co cu plan name made h =
    Untargeted-of_plan single_page plan name made tt
plan_targets-Untargeted false (some c) nu co cu plan name made h =
    Untargeted-of_plan (cursor_token c) plan name made h
plan_targets-Untargeted false none (some u) co cu plan name made h =
    Untargeted-of_plan (next_url u) plan name made h
plan_targets-Untargeted false none none (some c) cu plan name made h =
    Untargeted-of_plan (counter c) plan name made h
plan_targets-Untargeted false none none none (some c) plan name made h =
    Untargeted-of_plan (custom c) plan name made h
plan_targets-Untargeted false none none none none plan name made h = absurd (cc made)

-- An advance of the plan that the document's pagination gives keeps the value of every field that is
-- no pagination target, and everything beside the state, whether it ends the loop, goes on or fails.
pub advance-Frame :
    (platform : Platform) (doc : Doc) (plan : Plan) (s : Scope) (name : String)
    → make_pagination_plan doc.pagination ≡ ok plan
    → contains name (per_drain_scratch_fields doc) ≡ false
    → Frame s name (advance platform plan s).1
advance-Frame platform doc plan s name made kept =
    (advance_plan-Frame platform plan (
        plan_targets-Untargeted doc.pagination.single_page doc.pagination.cursor_token
          doc.pagination.next_url doc.pagination.counter doc.pagination.custom plan name made
          (Untargeted-of_persistent doc name kept))).at
      s (Frame-refl s name)

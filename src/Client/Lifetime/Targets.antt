-- ===== src/Client/Lifetime/Targets.antt =====
-- Which state fields a list of destinations names.
use skopos.Base.{
  String, ◌≡◌, ◌∙◌, inl, inr, All, Bool, false, List, [], ◌∷◌, none, some, contains, ◌==◌, arith,
  eq_iff, Option-cases,
}
use skopos.Schema.Path.{RefPath}
use skopos.Schema.Doc.{Doc}
use skopos.Client.Lifetime.{
  state_field_name, add_name, add_targets, pagination_targets, per_drain_scratch_fields,
}

abbrev pub names_path : RefPath → String → Bool
names_path p name = elim (state_field_name p) [ none ↦ false | some n ↦ n == name ]

pub names_path_of_target :
    (p : RefPath) (n name : String) → state_field_name p ≡ some n → names_path p name ≡ (n == name)
names_path_of_target p n name e = rw (e, names_path)

names_path_of_other :
    (p : RefPath) (name : String) → state_field_name p ≡ none → names_path p name ≡ false
names_path_of_other p name e = rw (e, names_path)

-- No path of the list is state.<name>.
abbrev pub Untargeted : List RefPath → String → Type 0
Untargeted ps name = All (λ p. names_path p name ≡ false) ps

contains-add_name :
    (n : String) (ns : List String) (name : String)
    → contains name (add_name (some n) ns) ≡ false
    → (contains name ns ≡ false) × ((n == name) ≡ false)
contains-add_name n ns name h = ground (arith, eq_iff n name)

Untargeted-of_add_targets :
    (ps : List RefPath) (ns : List String) (name : String)
    → contains name (add_targets ps ns) ≡ false
    → (contains name ns ≡ false) × Untargeted ps name
unfolding add_targets
Untargeted-of_add_targets [] ns name h = (h, tt)
Untargeted-of_add_targets (p ∷ ps) ns name h =
    let (before, rest) = Untargeted-of_add_targets ps (add_name (state_field_name p) ns) name h in
    elim (Option-cases (state_field_name p)) [
      | inl other ↦ (rw other at before, (names_path_of_other p name other, rest))
      | inr (n, target) ↦
          let (kept, ne) = contains-add_name n ns name (rw target at before) in
          (kept, (names_path_of_target p n name target ∙ ne, rest))
    ]

-- A field that a drain does not reset is no pagination target.
pub Untargeted-of_persistent :
    (doc : Doc) (name : String)
    → contains name (per_drain_scratch_fields doc) ≡ false
    → Untargeted (pagination_targets doc.pagination) name
unfolding per_drain_scratch_fields
Untargeted-of_persistent doc name h =
    (Untargeted-of_add_targets (pagination_targets doc.pagination) [] name h).1

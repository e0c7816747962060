-- ===== src/Client/Extract/Fields.antt =====
-- Which state fields a list of extracts can change.
use skopos.Base.{
  String, ◌≡◌, sym, ap, ◌∙◌, inl, inr, Bool, false, pos, List, [], ◌∷◌, some, lookup, Result, ok,
  err, arith, lookup-insert, Result-cases,
}
use skopos.Any.{Any}
use skopos.Schema.Path.{RefPath}
use skopos.Schema.Doc.{ExtractVar}
use skopos.Client.Platform.{Platform}
use skopos.Client.Scope.{Scope}
use skopos.Client.Lifetime.{state_field_name, extract_targets}
use skopos.Client.Lifetime.Targets.{names_path, names_path_of_target, Untargeted}
use skopos.Client.Progress.{with_regex, with_coerce}
use skopos.Client.Extract.{
  resolve_extract_from, StepResult, Dest, to_state, to_extract, extract_dest, extract_one, put,
  run_extracts,
}

-- The field reads in `t` as it does in `s`.
abbrev pub Same : String → Scope → Scope → Type 0
Same name s t = lookup name t.state ≡ lookup name s.state

extract_parts-state :
    (parts : List String) (is_zero : Bool) (n : String)
    → let p : RefPath = record { parts = parts; is_zero = is_zero } in
      extract_dest p ≡ ok (to_state, n) → state_field_name p ≡ some n
unfolding extract_dest state_field_name
extract_parts-state [] z n h = cc
extract_parts-state (root ∷ []) z n h = cc
extract_parts-state (root ∷ field ∷ []) z n h = ground arith
extract_parts-state (root ∷ field ∷ more ∷ rest) z n h = cc

extract_dest-state :
    (p : RefPath) (n : String) → extract_dest p ≡ ok (to_state, n) → state_field_name p ≡ some n
extract_dest-state p n h = extract_parts-state p.parts p.is_zero n h

abbrev dest_of : Result (Dest × String × Any) → Result (Dest × String)
dest_of (err e) = err e
dest_of (ok (dest, n, v)) = ok (dest, n)

module _ (platform : Platform) (name : String) (s : Scope) where
  put-Same :
      (dest : Dest) (n : String) (v : Any) (p : RefPath) (t : Scope)
      → extract_dest p ≡ ok (dest, n)
      → names_path p name ≡ false
      → Same name s t
      → Same name s (put dest n v t)
  put-Same to_extract n v p t target other h = h
  put-Same to_state n v p t target other h =
      rw (lookup-insert n name v t.state)
        (rw (sym (names_path_of_target p n name (extract_dest-state p n target)) ∙ other) h)

  extract_one-dest :
      (res : StepResult) (ev : ExtractVar) (t : Scope) (dest : Dest) (n : String) (v : Any)
      → extract_one platform res ev t ≡ ok (dest, n, v)
      → extract_dest ev.to ≡ ok (dest, n)
  unfolding extract_one
  extract_one-dest res ev t dest n v h = elim (Result-cases (extract_dest ev.to)) [
    | inr (e, failed) ↦ cc (rw (failed, extract_one) at h)
    | inl ((d, m), found) ↦ elim (Result-cases (resolve_extract_from platform res ev.from t)) [
      | inr (e, failed) ↦ cc (rw (found, failed, extract_one) at h)
      | inl (raw, read) ↦ elim (Result-cases (with_regex platform ev.regex (pos 0) raw)) [
        | inr (e, failed) ↦ cc (rw (found, read, failed, extract_one) at h)
        | inl (cut, matched) ↦ elim (Result-cases (with_coerce platform ev.coerce cut)) [
          | inr (e, failed) ↦ cc (rw (found, read, matched, failed, extract_one) at h)
          | inl (w, coerced) ↦
              let left : ok (d, m, w) ≡ ok (dest, n, v) =
                rw (found, read, matched, coerced, extract_one) at h in
              found ∙ ap dest_of left
        ]
      ]
    ]
  ]

  pub run_extracts-Same :
      (res : StepResult) (evs : List ExtractVar) (t : Scope)
      → Untargeted (extract_targets evs) name
      → Same name s t
      → Same name s (run_extracts platform res evs t).1
  unfolding run_extracts
  run_extracts-Same res [] t free h = h
  run_extracts-Same res (ev ∷ evs) t (free, rest) h =
      elim (Result-cases (extract_one platform res ev t)) [
        | inr (e, failed) ↦ rw (failed, run_extracts) h
        | inl ((dest, n, v), got) ↦
            rw (got, run_extracts)
              (run_extracts-Same res evs (put dest n v t) rest
                (put-Same dest n v ev.to t (extract_one-dest res ev t dest n v got) free h))
      ]

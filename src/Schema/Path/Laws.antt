-- ===== src/Schema/Path/Laws.antt =====
-- What the parser of a dotted path accepts, and the round trips of its codecs.
use skopos.Base.{
  String, ◌≡◌, refl, sym, ap, ◌∙◌, ◌⊎◌, inl, inr, true, false, List, [], ◌∷◌, ◌==◌, All, arith,
  contains, if◌then◌else◌, ok, eq_iff, Bool-cases, >>=-eq-ok, context-eq-ok, lookup,
}
use skopos.Schema.Path.{
  RefPath, zero_path, of_parts, validate_path_root, is_empty, to_string, check_parts, parse_path,
  any_dot, needs_escape, string_parts, string_elems, parts_of, unmarshal_json, unmarshal_yaml,
  marshal_json, marshal_yaml,
}
use skopos.Schema.Path.Split.{
  contains_dot, split_dot, join_dot, split_dot-join_dot, join_dot-split_dot,
}

-- Parts that name something: at least one, none empty, behind a legal root.
abbrev pub IsLegal : List String → Type 0
IsLegal [] = ⊥
IsLegal (r ∷ ps) = (contains "" (r ∷ ps) ≡ false) × (validate_path_root r ≡ ok tt)

check_parts_of_IsLegal : (ps : List String) → IsLegal ps → check_parts ps ≡ ok (of_parts ps)
unfolding check_parts
check_parts_of_IsLegal [] h = absurd h
check_parts_of_IsLegal (r ∷ ps) (h, k) = rw (h, k)

IsLegal-of_check_parts :
    (ps : List String) (p : RefPath) → check_parts ps ≡ ok p → (p ≡ of_parts ps) × IsLegal ps
unfolding check_parts
IsLegal-of_check_parts [] p h = cc
IsLegal-of_check_parts (r ∷ ps) p h = elim (Bool-cases (contains "" (r ∷ ps))) [
  | inl empty ↦ cc (rw empty at h)
  | inr full ↦
      let (u, legal, same) = >>=-eq-ok _ _ (rw full at h) in (cc, (full, context-eq-ok _ _ legal))
]

All-of_any_dot : (ps : List String) → any_dot ps ≡ false → All (λ q. contains_dot q ≡ false) ps
unfolding any_dot
All-of_any_dot [] h = tt
All-of_any_dot (p ∷ ps) h = (ground arith, All-of_any_dot ps (ground arith))

split_dot-empty : contains "" (split_dot "") ≡ true
unfolding split_dot
split_dot-empty = refl

-- The empty text is no joined legal path: it splits into one empty part.
join_dot-ne-empty :
    (p : String) (ps : List String)
    → IsLegal (p ∷ ps)
    → any_dot (p ∷ ps) ≡ false
    → (join_dot (p ∷ ps) == "") ≡ false
join_dot-ne-empty p ps (h, _) k = elim (Bool-cases (join_dot (p ∷ ps) == "")) [
  | inl empty ↦
      let parts = split_dot-join_dot p ps (All-of_any_dot (p ∷ ps) k) in
      let split : split_dot (join_dot (p ∷ ps)) ≡ split_dot "" =
        ap split_dot ((eq_iff _ _).0 empty) in
      cc (sym h ∙ ap (contains "") (sym parts ∙ split) ∙ split_dot-empty)
  | inr full ↦ full
]

string_parts-string_elems :
    (ps : List String) → contains "" ps ≡ false → string_parts (string_elems ps) ≡ ok ps
unfolding string_parts
string_parts-string_elems [] h = refl
string_parts-string_elems (p ∷ ps) h = ground (arith, string_parts-string_elems ps)

parse_path-to_string :
    (ps : List String)
    → IsLegal ps
    → any_dot ps ≡ false
    → parse_path (join_dot ps) ≡ ok (of_parts ps)
unfolding parse_path
parse_path-to_string [] h k = absurd h
parse_path-to_string (p ∷ ps) h k =
    rw (join_dot-ne-empty p ps h k)
      (rw (split_dot-join_dot p ps (All-of_any_dot (p ∷ ps) k)) (check_parts_of_IsLegal (p ∷ ps) h))

-- What a codec reads back: every empty path is the zero path.
abbrev canonical : RefPath → RefPath
canonical p = if is_empty p then zero_path else p

-- Both codecs read back what they wrote: for legal parts, with or without dots in them.
pub unmarshal-marshal :
    (ps : List String)
    → IsLegal ps
    → (unmarshal_json (marshal_json (of_parts ps)) ≡ ok (of_parts ps))
      × (unmarshal_yaml (marshal_yaml (of_parts ps)) ≡ ok (of_parts ps))
unfolding unmarshal_json unmarshal_yaml marshal_json marshal_yaml is_empty needs_escape to_string
    parts_of lookup
unmarshal-marshal [] h = absurd h
unmarshal-marshal (p ∷ ps) h = elim (Bool-cases (any_dot (p ∷ ps))) [
  | inl dots ↦ rw dots (
    rw (string_parts-string_elems (p ∷ ps) h.0) (check_parts_of_IsLegal (p ∷ ps) h),
    check_parts_of_IsLegal (p ∷ ps) h,
  )
  | inr plain ↦
      rw plain
        (parse_path-to_string (p ∷ ps) h plain, rw (parse_path-to_string (p ∷ ps) h plain) refl)
]

-- The parser accepts a text exactly as its own canonical form: printing what was parsed gives the
-- text back, and what was parsed is the zero path or has legal parts.
pub parse_path_sound :
    (s : String) (p : RefPath)
    → parse_path s ≡ ok p
    → (to_string p ≡ s) × ((p ≡ zero_path) ⊎ ((p.is_zero ≡ false) × IsLegal p.parts))
unfolding parse_path to_string join_dot
parse_path_sound s p h = elim (Bool-cases (s == "")) [
  | inl empty ↦
      let zero : p ≡ zero_path = cc (rw empty at h) in
      rw zero (sym ((eq_iff s "").0 empty), inl refl)
  | inr full ↦
      let (same, legal) = IsLegal-of_check_parts (split_dot s) p (rw full at h) in
      rw same (join_dot-split_dot s, inr (refl, legal))
]

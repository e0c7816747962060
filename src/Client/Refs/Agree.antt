-- ===== src/Client/Refs/Agree.antt =====
-- References that read the same in two scopes whose state differs.
use skopos.Base.{
  String, ◌≡◌, refl, ap, if◌then◌else◌, err, msg, inl, inr, true, List, [], ◌∷◌, Dict, lookup, ◌==◌,
  Bool-cases,
}
use skopos.Any.{Any}
use skopos.Schema.Path.{RefPath, is_empty}
use skopos.Client.Platform.{Platform}
use skopos.Client.Scope.{Scope}
use skopos.Client.Refs.{resolve_namespace_ref, resolve_root, resolve_slot, resolve_parts}

-- Two states have the same field where the path names one.
abbrev pub AgreeAt : Dict Any → Dict Any → List String → Type 0
AgreeAt m m' (root ∷ name ∷ rest) = (root == "state") ≡ true → lookup name m ≡ lookup name m'
AgreeAt m m' parts = Unit

module _ (platform : Platform) (s : Scope) (m : Dict Any) where
  resolve_root-agree :
      (root : String) (rest : List String)
      → AgreeAt s.state m (root ∷ rest)
      → resolve_root platform s root rest ≡ resolve_root platform (record s { state = m }) root rest
  unfolding resolve_root resolve_slot
  resolve_root-agree root [] h = refl
  resolve_root-agree root (name ∷ rest) h = elim (Bool-cases (root == "state")) [
    | inl state ↦ rw (h state)
    | inr other ↦ rw other
  ]

  resolve_parts-agree :
      (parts : List String)
      → AgreeAt s.state m parts
      → resolve_parts platform s parts ≡ resolve_parts platform (record s { state = m }) parts
  unfolding resolve_root
  resolve_parts-agree [] h = refl
  resolve_parts-agree (root ∷ rest) h = resolve_root-agree root rest h

  pub resolve_namespace_ref-agree :
      (p : RefPath)
      → AgreeAt s.state m p.parts
      → resolve_namespace_ref platform s p
        ≡ resolve_namespace_ref platform (record s { state = m }) p
  unfolding resolve_namespace_ref
  resolve_namespace_ref-agree p h =
      ap (λ r. if is_empty p then err (msg "empty path") else r) (resolve_parts-agree p.parts h)

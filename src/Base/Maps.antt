-- ===== src/Base/Maps.antt =====
-- A Go map with string keys as an association list. The order of the entries stands for the order
-- in which Go happens to range over the map.
use Prim.Native.String.{String}
use mathlib.Core.Path.{◌≡◌, refl}
use mathlib.Core.Option.{Option, none, some}
use mathlib.Core.List.{List, [], ◌∷◌}
use native.Mathlib.Omega.{arith}
use text.Mathlib.Text.{◌==◌}
use text.Mathlib.TextEquality.{eq_iff}
use skopos.Base.Tests.{if◌then◌else◌}

abbrev pub Dict {ℓ} : Type ℓ → Type ℓ
Dict V = List (String × V)

module _ {ℓ} {V : Type ℓ} where
  -- v, ok := m[name]
  unfoldable pub lookup : String → Dict V → Option V
  lookup name [] = none
  lookup name ((key, v) ∷ rest) = if key == name then some v else lookup name rest

  -- m[name] = v
  unfoldable pub insert : String → V → Dict V → Dict V
  insert name v [] = (name, v) ∷ []
  insert name v ((key, old) ∷ rest) =
      if key == name then (name, v) ∷ rest else (key, old) ∷ insert name v rest

  -- delete(m, k)
  unfoldable pub remove : String → Dict V → Dict V
  remove k [] = []
  remove k ((j, v) ∷ m) = let rest = remove k m in if j == k then rest else (j, v) ∷ rest

  -- maps.Copy(dst, src)
  unfoldable pub copy_into : Dict V → Dict V → Dict V
  unfolding insert
  copy_into dst [] = dst
  copy_into dst ((k, v) ∷ src) = copy_into (insert k v dst) src

  pub lookup-insert :
      (name other : String) (v : V) (m : Dict V)
      → lookup other (insert name v m) ≡ (if name == other then some v else lookup other m)
  unfolding lookup insert
  lookup-insert name other v [] = refl
  lookup-insert name other v ((key, old) ∷ rest) =
      ground (
        arith,
        lookup-insert name other v rest,
        eq_iff name other,
        eq_iff key name,
        eq_iff key other,
      )

  pub lookup-remove :
      (k j : String) (m : Dict V) → lookup j (remove k m) ≡ (if k == j then none else lookup j m)
  unfolding lookup remove
  lookup-remove k j [] = ground arith
  lookup-remove k j ((i, w) ∷ m) =
      ground (arith, eq_iff k j, eq_iff i k, eq_iff i j, lookup-remove k j m)

pub ruleset dict_laws = (lookup-insert, lookup-remove)

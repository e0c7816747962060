-- ===== src/Client/Refs/Valid.antt =====
-- A reference that the validator accepts resolves or is absent, and never errors.
use skopos.Base.{String, ◌≡◌, Bool, not, ◌&&◌, Option, ◌==◌, Result, ok}
use skopos.Any.{Any}
use skopos.Client.Platform.{Platform}
use skopos.Client.Scope.{Scope}
use skopos.Schema.Validation.Diag.{Context}

abbrev pub Resolves : Result (Option Any) → Type 0
Resolves r = (v : Option Any) × (r ≡ ok v)

module _ (platform : Platform) (s : Scope) (path : String) (sc : Context)
    (bound : s.item_binding ≡ sc.fan_out_alias) where
  abbrev is_alias : String → String → Bool
  is_alias alias root = not (alias == "") && root == alias

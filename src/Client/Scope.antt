-- ===== src/Client/Scope.antt =====
-- The scope of client/state.go: every namespace that a reference can name, and the readings of the
-- environment that a drain has made.
use skopos.Base.{ℕ, ℤ, String, List, [], ◌∷◌, Option, none, some, Dict, lookup}
use skopos.Any.{Any, str}

-- http.Header: canonical names with their values.
abbrev pub Header : Type 0
Header = Dict (List String)

pub record Scope : Type 0 where
  pub state : Dict Any
  -- A slot's value, and under cacheExpiryKey its expiry.
  pub cache : Dict Any
  pub extract : Dict Any
  pub steps : Dict Any
  pub events : Any
  pub body : Any
  pub response_headers : Option Header
  pub step_headers : Dict (Option Header)
  pub item : Any
  pub item_binding : String
  -- What nowFn answers, from one HTTP exchange to the next.
  pub now : ℤ
  -- HTTP exchanges made, and calls of ctx.Err answered, so far.
  pub exchanges : ℕ
  pub checks : ℕ

module _ (canonical_header : String → String) where
  abbrev first_value : Option (List String) → Option Any
  first_value none = none
  first_value (some []) = none
  first_value (some (v ∷ vs)) = some (str v)

  -- headerLookup: h.Get answers the first value, and an empty one is looked up once more.
  unfoldable pub header_lookup : Option Header → String → Option Any
  unfolding lookup
  header_lookup none name = none
  header_lookup (some h) name = first_value (lookup (canonical_header name) h)

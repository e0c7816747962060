-- ===== src/Schema/Validation/Diag.antt =====
-- Diagnostics, and the namespace context that the checks of schema/validate.go carry. A message is
-- the label of its place, its formatted operands are left out; the path is written in full.
use Prim.Native.String
use skopos.Base.{
  ℕ, String, ◌≡◌, refl, arith, Bool, true, false, ◌&&◌, List, [], ◌∷◌, ◌++◌, Dict, pos,
}
use skopos.Schema.Doc.{FieldDecl}
use skopos.Client.Numerals.{format_int}

pub data Severity : Type 0 where
  error warning : Severity

pub record Diagnostic : Type 0 where
  pub path : String
  pub message : String
  pub severity : Severity

-- v.errorf and v.warnf: the one diagnostic that is appended.
abbrev pub errorf : String → String → List Diagnostic
errorf path message = record { path = path; message = message; severity = error } ∷ []

abbrev pub warnf : String → String → List Diagnostic
warnf path message = record { path = path; message = message; severity = warning } ∷ []

abbrev pub is_warning : Severity → Bool
is_warning error = false
is_warning warning = true

-- No diagnostic is an error.
unfoldable pub no_errors : List Diagnostic → Bool
no_errors [] = true
no_errors (d ∷ ds) = is_warning d.severity && no_errors ds

-- scope
pub record Context : Type 0 where
  pub state : Dict FieldDecl
  pub step_ids : List String
  pub extract : List String
  pub cache_slots : List String
  pub fan_out_alias : String

infixl 66 ◌/+◌
abbrev pub ◌/+◌ : String → String → String
a /+ b = String.◌++◌ a b

-- path[i]
unfoldable pub at : String → ℕ → String
unfolding format_int
at path i = path /+ "[" /+ format_int (pos i) /+ "]"

-- Two runs of checks have no error exactly if neither has.
pub no_errors-append :
    (ds es : List Diagnostic)
    → no_errors (ds ++ es) ≡ true
    → (no_errors ds ≡ true) × (no_errors es ≡ true)
unfolding no_errors
no_errors-append [] es h = (refl, h)
no_errors-append (d ∷ ds) es h = ground (arith, no_errors-append ds es)

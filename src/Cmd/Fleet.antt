-- ===== src/Cmd/Fleet.antt =====
-- cmd/skopos/cmd_run_fleet.go: the entries of a fleet, and the loop that drives one of them.
pub mod Laws
mod Tests
use Prim.Native.String
use skopos.Base.{
  ℕ, zero, suc, ◌+◌, ℤ, pos, beq_ℤ, String, Bool, true, false, not, ◌&&◌, ◌||◌, List, [], ◌∷◌,
  Option, none, some, contains, ◌==◌, if◌then◌else◌, Error, Result, ok, err, msg, ◌>>=◌,
}

-- RunEntry of cmd/skopos/config.go, and resolvedEntry, which has the same fields.
pub record RunEntry : Type 0 where
  pub input : String
  pub state : String
  pub out : String
  pub trace : String
  pub once : Bool
  pub interval : ℤ
  pub http_timeout : ℤ
  pub max_pages : ℤ
  pub sink_buffer : ℤ

-- The fields of Config that a fleet reads.
pub record Config : Type 0 where
  pub out : String
  pub once : Bool
  pub interval : ℤ
  pub http_timeout : ℤ
  pub max_pages : ℤ
  pub sink_buffer : ℤ
  pub state_dir : String
  pub runs : List RunEntry

abbrev inherited : ℤ → ℤ → ℤ
inherited n top = if beq_ℤ n (pos 0) then top else n

-- What an entry inherits: all but the trace.
abbrev inherit : Config → RunEntry → String → RunEntry
inherit cfg r state = record r {
  state = state;
  once = r.once || cfg.once;
  interval = inherited r.interval cfg.interval;
  http_timeout = inherited r.http_timeout cfg.http_timeout;
  max_pages = inherited r.max_pages cfg.max_pages;
  sink_buffer = inherited r.sink_buffer cfg.sink_buffer;
}

abbrev require_input : RunEntry → Result (Unit {0})
require_input r =
    if r.input == ""
    then err (msg "input is required")
    else if r.once && not (beq_ℤ r.interval (pos 0))
    then err (msg "once is incompatible with interval")
    else ok tt

abbrev unseen : String → String → List String → Result (Unit {0})
unseen label name seen = if contains name seen then err (msg label) else ok tt

abbrev pub nonempty_list : List RunEntry → Result (List RunEntry)
nonempty_list [] = err (msg "runs: empty list")
nonempty_list (e ∷ es) = ok (e ∷ es)

-- filepath.Base, filepath.Ext, strings.TrimSuffix and filepath.Join are the arguments.
module _ (base ext : String → String) (trim_suffix join : String → String → String) where
  abbrev stem : String → String
  stem name = if ext name == "" then name else trim_suffix name (ext name)

  -- deriveStateName
  unfoldable pub derive_state_name : String → String
  derive_state_name input = String.◌++◌ (stem (base input)) ".json"

  abbrev state_of : Config → RunEntry → Result String
  state_of cfg r =
      if not (r.state == "")
      then ok r.state
      else if cfg.state_dir == ""
      then err (msg "state is unset and top-level state_dir is empty")
      else ok (join cfg.state_dir (derive_state_name r.input))

  -- The loop over cfg.Runs, with the states and the inputs seen so far.
  unfoldable pub resolve_entries :
      Config → List String → List String → List RunEntry → Result (List RunEntry)
  unfolding derive_state_name
  resolve_entries cfg states inputs [] = ok []
  resolve_entries cfg states inputs (r ∷ rs) = do
    checked ← require_input r
    state ← state_of cfg r
    new_state ← unseen "state files must be unique" state states
    new_input ← unseen "both reference one input" r.input inputs
    more ← resolve_entries cfg (state ∷ states) (r.input ∷ inputs) rs
    ok (inherit cfg r state ∷ more)

  -- resolveFleetEntries
  unfoldable pub resolve_fleet_entries : Config → Result (List RunEntry)
  unfolding resolve_entries
  resolve_fleet_entries cfg = do out ← resolve_entries cfg [] [] cfg.runs; nonempty_list out

-- The counters of a fleetRun.
pub record Counters : Type 0 where
  pub drains : ℕ
  pub errors : ℕ

-- What a driver meets: the result of its n-th drain, and behind it whether the context is done, at the
-- look behind an error, at the next one, and in the select.
pub record Outlook : Type 0 where
  pub drain : ℕ → Option Error
  pub done_at_error : ℕ → Bool
  pub done_after : ℕ → Bool
  pub done_in_select : ℕ → Bool

abbrev has_failed : Option Error → Bool
has_failed none = false
has_failed (some e) = true

module _ (o : Outlook) (entry : RunEntry) where
  abbrev pub one_shot : Bool
  one_shot = entry.once || beq_ℤ entry.interval (pos 0)

  -- driveFleetRun: the counters when it returns, `none` where the fuel runs out.
  unfoldable pub drive_fleet_run : ℕ → Counters → Option Counters
  drive_fleet_run zero c = none
  drive_fleet_run (suc fuel) c =
      let n = c.drains in
      let begun : Counters = record c { drains = suc n } in
      let failed = has_failed (o.drain n) in
      let counted : Counters = if failed then record begun { errors = suc c.errors } else begun in
      let again = drive_fleet_run fuel counted in
      if failed && o.done_at_error n
      then some begun
      else if o.done_after n || one_shot || o.done_in_select n
      then some counted
      else again

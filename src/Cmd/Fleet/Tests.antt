-- ===== src/Cmd/Fleet/Tests.antt =====
-- A fleet of two entries.
use Prim.Native.String
use skopos.Base.{
  arith, ◌⊎◌, leb, ◌≤◌, String, ◌≡◌, ◌<◌, refl, false, List, [], ◌∷◌, some, pos, ok, err, msg,
  length,
}
use skopos.Cmd.Fleet.{
  one_shot, RunEntry, Config, resolve_fleet_entries, Counters, Outlook, drive_fleet_run,
}
use skopos.Cmd.Fleet.Laws.{
  Distinct, states_of, inputs_of, resolve_fleet_entries-Distinct, drive_fleet_run_total,
}

abbrev entry : String → RunEntry
entry input = record {
  input = input;
  state = "";
  out = "";
  trace = "";
  once = false;
  interval = pos 0;
  http_timeout = pos 0;
  max_pages = pos 0;
  sink_buffer = pos 0;
}

abbrev fleet : Config
fleet = record {
  out = "";
  once = false;
  interval = pos 60;
  http_timeout = pos 0;
  max_pages = pos 3;
  sink_buffer = pos 0;
  state_dir = "s/";
  runs = entry "a" ∷ entry "b" ∷ [];
}

abbrev resolved : String → RunEntry
resolved input = record (entry input) {
  state = String.◌++◌ "s/" (String.◌++◌ input ".json");
  interval = pos 60;
  max_pages = pos 3;
}

abbrev entries : List RunEntry
entries = resolved "a" ∷ resolved "b" ∷ []

resolves :
    resolve_fleet_entries (λ t. t) (λ t. "") (λ t x. t) (λ d t. String.◌++◌ d t) fleet ≡ ok entries
unfolding resolve_fleet_entries
resolves = refl

abbrev twice : Config
twice = record fleet { runs = entry "a" ∷ entry "a" ∷ [] }

refuses :
    resolve_fleet_entries (λ t. t) (λ t. "") (λ t x. t) (λ d t. String.◌++◌ d t) twice
    ≡ err (msg "state files must be unique")
unfolding resolve_fleet_entries
refuses = refl

resolve_fleet_entries-Distinct_example :
    Distinct (states_of entries)
    × Distinct (inputs_of entries)
    × (length entries ≡ length fleet.runs)
    × (0 < length entries)
resolve_fleet_entries-Distinct_example =
    resolve_fleet_entries-Distinct (λ t. t) (λ t. "") (λ t x. t) (λ d t. String.◌++◌ d t) fleet
      entries resolves

abbrev failing : Outlook
failing = record {
  drain = λ n. some (msg "down");
  done_at_error = λ n. false;
  done_after = λ n. leb 5 n;
  done_in_select = λ n. false;
}

drive_fleet_run_total_example :
    (c : Counters) × (drive_fleet_run failing (entry "a") 6 (record { drains = 0; errors = 0 })
      ≡ some c)
    × (0 < c.drains)
    × (c.drains ≤ 6)
    × (c.errors ≤ c.drains)
    × ((one_shot failing (entry "a") ≡ false) ⊎ (c.drains ≡ 1))
drive_fleet_run_total_example =
    drive_fleet_run_total failing (entry "a") 6 5 (record { drains = 0; errors = 0 }) (omega arith)
      (omega arith) (omega arith) refl

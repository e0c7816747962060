-- ===== src/Client/FileStore/Tests.antt =====
-- A save over an older file.
use skopos.Base.{◌==◌, ◌≡◌, ◌⊎◌, refl, true, false, [], ◌∷◌, All, none, some, pos, Dict, lookup, ok}
use skopos.Any.{Any, int}
use skopos.Client.FileStore.{Disk, Host, save, load, crash}
use skopos.Client.FileStore.Laws.{Settled, loads_new, final, Ends, save-crash, save-result}

abbrev host : Host
host = record {
  temp = "state.json.tmp-1";
  mkdir_fails = false;
  create_fails = false;
  write_fails = false;
  sync_fails = false;
  close_fails = false;
  rename_fails = false;
  remove_fails = false;
  read_fails = false;
  encode = λ m. some "new\n";
  decode = λ t. some (("text", Any.str t) ∷ []);
}

abbrev disk : Disk
disk = ("state.json", record { text = "old"; synced = true }) ∷ []

abbrev snap : Dict Any
snap = ("since", int (pos 5)) ∷ []

loads_saved :
    load host "state.json" (final disk (save host "state.json" snap disk).trail)
    ≡ ok (("text", Any.str "new") ∷ [])
unfolding save load
loads_saved = refl

apart : (host.temp == "state.json") ≡ false
apart = refl

fresh : lookup host.temp disk ≡ none
unfolding lookup
fresh = refl

settled : Settled (lookup "state.json" disk)
unfolding lookup
settled = refl

save-crash_example :
    All
      (λ d.
        (load host "state.json" (crash (λ n. "torn") d) ≡ load host "state.json" disk)
        ⊎ (load host "state.json" (crash (λ n. "torn") d) ≡ loads_new host "state.json" "new\n"))
      (save host "state.json" snap disk).trail
save-crash_example =
    save-crash host "state.json" snap disk apart fresh (λ n. "torn") host "new\n" settled refl

save-result_example :
    Ends host "state.json" snap disk apart fresh host
      (save host "state.json" snap disk).result
      (final disk (save host "state.json" snap disk).trail)
save-result_example = save-result host "state.json" snap disk apart fresh host

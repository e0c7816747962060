-- ===== src/Client/FileStore.antt =====
-- FileStore of client/filestore.go: a snapshot in one file, written to a temporary file beside it and
-- renamed. Save answers with every state of the disk that it goes through, since the process may stop
-- at any of them. The mutex makes Save and Load one after the other; a second writer of the path is
-- excluded by the type's contract.
pub mod Laws
mod Tests
use Prim.Native.Char.{Char}
use Prim.Native.String
use skopos.Base.{
  String, Bool, true, false, ◌&&◌, List, [], ◌∷◌, Option, none, some, Dict, lookup, insert, remove,
  ◌==◌, if◌then◌else◌, Result, ok, err, msg,
}
use skopos.Any.{Any}
use skopos.Client.Coerce.{or_fail}

-- A file's content, and whether it has been flushed to the medium.
pub record File : Type 0 where
  pub text : String
  pub synced : Bool

abbrev pub Disk : Type 0
Disk = Dict File

-- What the operating system and encoding/json answer to one call of Save or Load: the name that
-- CreateTemp picks, which calls fail, and the two codecs of a Snapshot.
pub record Host : Type 0 where
  pub temp : String
  pub mkdir_fails : Bool
  pub create_fails : Bool
  pub write_fails : Bool
  pub sync_fails : Bool
  pub close_fails : Bool
  pub rename_fails : Bool
  pub remove_fails : Bool
  pub read_fails : Bool
  pub encode : Dict Any → Option String
  pub decode : String → Option (Dict Any)

abbrev is_newline : Char → Bool
is_newline c = String.◌∷◌ c "" == "\n"

-- bytes.TrimRight(data, "\n")
unfoldable pub trim_newlines : String → String
trim_newlines String.[] = ""
trim_newlines (String.◌∷◌ c s) =
    let rest = trim_newlines s in if is_newline c && rest == "" then "" else String.◌∷◌ c rest

-- os.Rename: in one step, the target's content is the source's.
abbrev pub rename_file : Option File → String → String → Disk → Disk
rename_file none source target d = d
rename_file (some f) source target d = insert target f (remove source d)

abbrev pub sync_file : Option File → String → Disk → Disk
sync_file none name d = d
sync_file (some f) name d = insert name (record f { synced = true }) d

-- Save's result, and the states of the disk behind the first, in order.
pub record Saved : Type 0 where
  pub result : Result (Unit {0})
  pub trail : List Disk

abbrev pub behind : Disk → Saved → Saved
behind d r = record r { trail = d ∷ r.trail }

abbrev pub failed : String → Saved
failed label = record { result = err (msg label); trail = [] }

module _ (host : Host) (path : String) where
  -- cleanup(), and the error: that of os.Remove is ignored, and then the temporary file stays.
  abbrev cleaned : String → Disk → Saved
  cleaned label d = behind (if host.remove_fails then d else remove host.temp d) (failed label)

  rename_step : Disk → Saved
  unfolding lookup insert remove
  rename_step d =
      if host.rename_fails
      then cleaned "rename" d
      else behind (rename_file (lookup host.temp d) host.temp path d)
          (record { result = ok tt; trail = [] })

  close_step : Disk → Saved
  unfolding rename_step
  close_step d = if host.close_fails then cleaned "close temp" d else rename_step d

  sync_step : Disk → Saved
  unfolding close_step
  sync_step d =
      if host.sync_fails
      then cleaned "sync temp" d
      else let d' = sync_file (lookup host.temp d) host.temp d in behind d' (close_step d')

  -- The content is on the disk, flushed or not, also where the write fails half-way: what a stop
  -- leaves of a file that is not synced is open anyhow.
  write_step : String → Disk → Saved
  unfolding sync_step
  write_step content d =
      let d' = insert host.temp (record { text = content; synced = false }) d in
      behind d' (if host.write_fails then cleaned "write temp" d' else sync_step d')

  create_step : String → Disk → Saved
  unfolding write_step
  create_step content d =
      if host.create_fails
      then failed "create temp"
      else let d' = insert host.temp (record { text = ""; synced = false }) d in
        behind d' (write_step content d')

  -- Save
  unfoldable pub save : Dict Any → Disk → Saved
  unfolding create_step trim_newlines
  save snap d = elim (host.encode snap) [
    | none ↦ failed "marshal"
    | some raw ↦ if host.mkdir_fails then failed "mkdir" else create_step (trim_newlines raw) d
  ]

  -- Load from the file's content.
  unfoldable pub load_text : String → Result (Dict Any)
  load_text text = if text == "" then ok [] else or_fail "parse" (host.decode text)

  abbrev pub load_file : Option File → Result (Dict Any)
  load_file none = ok []
  load_file (some f) = if host.read_fails then err (msg "read") else load_text f.text

  -- Load
  unfoldable pub load : Disk → Result (Dict Any)
  unfolding load_text lookup
  load d = load_file (lookup path d)

-- A stop of the machine: a file that is not synced is left with some other content.
unfoldable pub crash : (String → String) → Disk → Disk
crash torn [] = []
crash torn ((name, f) ∷ d) =
    (name, if f.synced then f else record { text = torn name; synced = true }) ∷ crash torn d

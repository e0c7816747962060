-- ===== src/Client/FileStore/Laws.antt =====
-- Whatever stops a save, the file holds one whole snapshot.
use skopos.Base.{
  String, ◌≡◌, ◌⊎◌, refl, ap, ◌∙◌, inl, inr, true, false, List, [], ◌∷◌, All, Option, none, some,
  Dict, lookup, insert, remove, lookup-insert, lookup-remove, eq_refl, ◌==◌, if◌then◌else◌, Result,
  ok, err, arith, Bool-cases, Option-cases, eq_iff,
}
use skopos.Any.{Any}
use skopos.Client.FileStore.{
  File, Disk, Host, Saved, save, load, load_file, crash, trim_newlines, rename_step, close_step,
  sync_step, write_step, create_step, cleaned,
}

-- What is found under a name after a stop.
abbrev survives : (String → String) → String → Option File → Option File
survives torn name none = none
survives torn name (some f) =
    some (if f.synced then f else record { text = torn name; synced = true })

lookup-crash :
    (torn : String → String) (name : String) (d : Disk)
    → lookup name (crash torn d) ≡ survives torn name (lookup name d)
unfolding lookup crash
lookup-crash torn name [] = refl
lookup-crash torn name ((n, f) ∷ d) = elim (Bool-cases (n == name)) [
  | inl same ↦ rw same (
      ap (λ k. some (if f.synced then f else record { text = torn k; synced = true }))
        ((eq_iff n name).0 same))
  | inr other ↦ rw other (lookup-crash torn name d)
]

-- The file is absent or flushed, so a stop does not touch it.
abbrev pub Settled : Option File → Type 0
Settled none = Unit
Settled (some f) = f.synced ≡ true

survives_of_Settled :
    (torn : String → String) (name : String) (o : Option File)
    → Settled o
    → survives torn name o ≡ o
survives_of_Settled torn name none h = refl
survives_of_Settled torn name (some f) h = rw h

All-map {ℓ κ μ} :
    {A : Type ℓ} {P : A → Type κ} {Q : A → Type μ}
    → ((a : A) → P a → Q a)
    → (xs : List A) → All P xs
    → All Q xs
All-map f [] h = tt
All-map f (x ∷ xs) (h, hs) = (f x h, All-map f xs hs)

-- The disk that a save ends with.
abbrev pub final : Disk → List Disk → Disk
final d [] = d
final d (e ∷ es) = final e es

module _ (host : Host) (path : String) (apart : (host.temp == path) ≡ false) (old : Option File)
    (content : String) where
  abbrev written : File
  written = record { text = content; synced = true }

  abbrev Old : Disk → Type 0
  Old d = lookup path d ≡ old

  abbrev Whole : Disk → Type 0
  Whole d = Old d ⊎ (lookup path d ≡ some written)

  abbrev Outcome : Result (Unit {0}) → Disk → Type 0
  Outcome (ok u) d = (lookup path d ≡ some written) × (lookup host.temp d ≡ none)
  Outcome (err e) d = Old d × ((host.remove_fails ≡ true) ⊎ (lookup host.temp d ≡ none))

  abbrev Safe : Disk → Saved → Type 0
  Safe d r = All Whole r.trail × Outcome r.result (final d r.trail)

  apart' : (path == host.temp) ≡ false
  apart' = ground (arith, eq_iff path host.temp, eq_iff host.temp path)

  other_path : (d : Disk) (f : File) → lookup path (insert host.temp f d) ≡ lookup path d
  other_path d f = rw (lookup-insert, apart)

  Safe-cleaned : (label : String) (d e : Disk) → Old d → Safe e (cleaned host path label d)
  Safe-cleaned label d e h = elim (Bool-cases host.remove_fails) [
    | inl stays ↦ rw stays ((inl h, tt), (h, inl refl))
    | inr removes ↦
        let gone : Old (remove host.temp d) = rw (lookup-remove, apart) h in
        rw removes ((inl gone, tt), (gone, inr (rw (lookup-remove, eq_refl))))
  ]

  rename_step-Safe :
      (d e : Disk) → Old d → lookup host.temp d ≡ some written → Safe e (rename_step host path d)
  unfolding rename_step
  rename_step-Safe d e h t = elim (Bool-cases host.rename_fails) [
    | inl fails ↦ rw fails (Safe-cleaned "rename" d e h)
    | inr works ↦
        let new : lookup path (insert path written (remove host.temp d)) ≡ some written =
          rw (lookup-insert, eq_refl) in
        rw (works, t) ((inr new, tt), (new, rw (lookup-insert, apart', lookup-remove, eq_refl)))
  ]

  close_step-Safe :
      (d e : Disk) → Old d → lookup host.temp d ≡ some written → Safe e (close_step host path d)
  unfolding close_step
  close_step-Safe d e h t = elim (Bool-cases host.close_fails) [
    | inl fails ↦ rw fails (Safe-cleaned "close temp" d e h)
    | inr works ↦ rw works (rename_step-Safe d e h t)
  ]

  abbrev unsynced : File
  unsynced = record { text = content; synced = false }

  sync_step-Safe :
      (d e : Disk) → Old d → lookup host.temp d ≡ some unsynced → Safe e (sync_step host path d)
  unfolding sync_step
  sync_step-Safe d e h t = elim (Bool-cases host.sync_fails) [
    | inl fails ↦ rw fails (Safe-cleaned "sync temp" d e h)
    | inr works ↦
        let d' = insert host.temp written d in
        let h' : Old d' = other_path d written ∙ h in
        let (all, out) = close_step-Safe d' d' h' (rw (lookup-insert, eq_refl)) in
        rw (works, t) ((inl h', all), out)
  ]

  write_step-Safe : (d e : Disk) → Old d → Safe e (write_step host path content d)
  unfolding write_step
  write_step-Safe d e h =
      let d' = insert host.temp unsynced d in
      let h' : Old d' = other_path d unsynced ∙ h in
      elim (Bool-cases host.write_fails) [
        | inl fails ↦
            let (all, out) = Safe-cleaned "write temp" d' d' h' in rw fails ((inl h', all), out)
        | inr works ↦
            let (all, out) = sync_step-Safe d' d' h' (rw (lookup-insert, eq_refl)) in
            rw works ((inl h', all), out)
      ]

  create_step-Safe :
      (d : Disk) → Old d → lookup host.temp d ≡ none → Safe d (create_step host path content d)
  unfolding create_step
  create_step-Safe d h fresh = elim (Bool-cases host.create_fails) [
    | inl fails ↦ rw fails (tt, (h, inr fresh))
    | inr works ↦
        let empty : File = record { text = ""; synced = false } in
        let d' = insert host.temp empty d in
        let h' : Old d' = other_path d empty ∙ h in
        let (all, out) = write_step-Safe d' d' h' in rw works ((inl h', all), out)
  ]

-- What a later Load, with a host of its own, finds of a saved content.
abbrev pub loads_new : Host → String → String → Result (Dict Any)
loads_new after path raw =
    load_file after path (some (record { text = trim_newlines raw; synced = true }))

module _ (host : Host) (path : String) (snap : Dict Any) (d : Disk)
    (apart : (host.temp == path) ≡ false) (fresh : lookup host.temp d ≡ none) where
  save-Safe :
      (raw : String)
      → host.encode snap ≡ some raw
      → Safe host path apart (lookup path d) (trim_newlines raw) d (save host path snap d)
  unfolding save
  save-Safe raw e = elim (Bool-cases host.mkdir_fails) [
    | inl fails ↦ rw (e, fails, save) (tt, (refl, inr fresh))
    | inr works ↦
        rw (e, works, save)
          (create_step-Safe host path apart (lookup path d) (trim_newlines raw) d refl fresh)
  ]

  loads-Whole :
      (torn : String → String) (after : Host) (raw : String)
      → Settled (lookup path d)
      → (d' : Disk) → Whole host path apart (lookup path d) (trim_newlines raw) d'
      → (load after path (crash torn d') ≡ load after path d)
        ⊎ (load after path (crash torn d') ≡ loads_new after path raw)
  unfolding load
  loads-Whole torn after raw settled d' (inl old) = inl (
      ap (load_file after path) (
        lookup-crash torn path d'
        ∙ ap (survives torn path) old
        ∙ survives_of_Settled torn path (lookup path d) settled))
  loads-Whole torn after raw settled d' (inr new) =
      inr (ap (load_file after path) (lookup-crash torn path d' ∙ ap (survives torn path) new))

  -- If the machine stops at any state of the disk that a save goes through, whichever of its calls
  -- fails and whatever the stop leaves of files that are not flushed, a later Load finds what it would
  -- have found before the save or what it finds after a save that succeeds; the temporary file's name
  -- is new and is not the path, and the file in place was flushed.
  pub save-crash :
      (torn : String → String) (after : Host) (raw : String)
      → Settled (lookup path d)
      → host.encode snap ≡ some raw
      → All
          (λ d'.
            (load after path (crash torn d') ≡ load after path d)
            ⊎ (load after path (crash torn d') ≡ loads_new after path raw))
          (save host path snap d).trail
  save-crash torn after raw settled e =
      All-map (loads-Whole torn after raw settled) (save host path snap d).trail (save-Safe raw e).0

  abbrev pub Ends : Host → Result (Unit {0}) → Disk → Type 0
  Ends after (ok u) d' =
      (raw : String) × (host.encode snap ≡ some raw)
      × (load after path d' ≡ loads_new after path raw)
      × (lookup host.temp d' ≡ none)
  Ends after (err e) d' =
      (load after path d' ≡ load after path d)
      × ((host.remove_fails ≡ true) ⊎ (lookup host.temp d' ≡ none))

  Ends-of_Outcome :
      (after : Host) (raw : String) (r : Result (Unit {0})) (d' : Disk)
      → host.encode snap ≡ some raw
      → Outcome host path apart (lookup path d) (trim_newlines raw) r d'
      → Ends after r d'
  unfolding load
  Ends-of_Outcome after raw (ok u) d' e (new, gone) = (raw, e, ap (load_file after path) new, gone)
  Ends-of_Outcome after raw (err x) d' e (old, gone) = (ap (load_file after path) old, gone)

  -- A save that returns no error leaves the encoded snapshot to a later Load; one that returns an error
  -- leaves what was there before, whichever call failed. After a success no temporary file stays
  -- behind, and after an error none does unless os.Remove fails.
  pub save-result :
      (after : Host)
      → Ends after (save host path snap d).result (final d (save host path snap d).trail)
  unfolding save
  save-result after = elim (Option-cases (host.encode snap)) [
    | inl fails ↦ rw (fails, save) (refl, inr fresh)
    | inr (raw, e) ↦
        Ends-of_Outcome after raw (save host path snap d).result
          (final d (save host path snap d).trail) e (save-Safe raw e).1
  ]

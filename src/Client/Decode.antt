-- ===== src/Client/Decode.antt =====
-- The decode pipeline of client/http.go, from a response's bytes to a body.
pub mod Laws
mod Tests
use Prim.Native.Char.{Char, code}
use Prim.Native.String
use skopos.Base.{
  ℕ, String, Bool, true, false, List, [], ◌∷◌, ◌++◌, Option, none, some, Dict, insert, ltb, nat_beq,
  ◌==◌, if◌then◌else◌, Result, ok, err, msg, context, ◌>>=◌,
}
use skopos.Any.{Any, nil, str, list, object, elems, of_list, of_dict}
use skopos.Schema.Doc.{Request, DecodeStage, gzip, zip, csv, json, ndjson, unset}
use skopos.Client.Coerce.{or_fail}
use skopos.Client.Wire.{Wire, Reader, ZipFile}

-- effectiveDecode
unfoldable pub effective_decode : Request → List DecodeStage
effective_decode req = elim req.decode [
  | none ↦ json ∷ []
  | some chain ↦ elim chain [ [] ↦ json ∷ [] | st ∷ sts ↦ st ∷ sts ]
]

-- appendDecoded
unfoldable pub append_decoded : List Any → Any → List Any
append_decoded out nil = out
append_decoded out (list vs) = out ++ elems vs
append_decoded out v = out ++ v ∷ []

-- a < b on strings: Go compares bytes, which orders UTF-8 texts by their code points.
unfoldable pub text_less : String → String → Bool
text_less String.[] String.[] = false
text_less String.[] (String.◌∷◌ d t) = true
text_less (String.◌∷◌ c s) String.[] = false
text_less (String.◌∷◌ c s) (String.◌∷◌ d t) =
    let rest = text_less s t in if nat_beq (code c) (code d) then rest else ltb (code c) (code d)

-- sort.Slice by name, as an insertion sort. Go leaves the order of equal names open.
unfoldable pub insert_file : ZipFile → List ZipFile → List ZipFile
unfolding text_less
insert_file f [] = f ∷ []
insert_file f (g ∷ gs) = if text_less g.name f.name then g ∷ insert_file f gs else f ∷ g ∷ gs

unfoldable pub sort_files : List ZipFile → List ZipFile
unfolding insert_file
sort_files [] = []
sort_files (f ∷ fs) = insert_file f (sort_files fs)

-- A csv row under the header "absent".
abbrev pub row_list : List String → List Any
row_list [] = []
row_list (f ∷ fs) = str f ∷ row_list fs

-- A csv row under the header "present": a field that the row lacks is nil, a later field of one name
-- overwrites.
unfoldable pub row_map : List String → List String → Dict Any → Dict Any
unfolding insert
row_map [] rec m = m
row_map (field ∷ header) [] m = row_map header [] (insert field nil m)
row_map (field ∷ header) (cell ∷ rec) m = row_map header rec (insert field (str cell) m)

abbrev pub rows_with : List String → List (List String) → List Any
rows_with header [] = []
rows_with header (rec ∷ recs) = object (of_dict (row_map header rec [])) ∷ rows_with header recs

abbrev pub rows_without : List (List String) → List Any
rows_without [] = []
rows_without (rec ∷ recs) = list (of_list (row_list rec)) ∷ rows_without recs

abbrev pub csv_rows : Bool → List (List String) → List Any
csv_rows false recs = rows_without recs
csv_rows true [] = []
csv_rows true (header ∷ recs) = rows_with header recs

-- A terminal that has no rows leaves a nil slice, which is the empty list.
abbrev pub rows : List Any → Any
rows vs = list (of_list vs)

module _ (w : Wire) where
  -- decodeJSONStream
  unfoldable pub decode_json_stream : Reader → Result Any
  decode_json_stream r =
      if r.fails
      then err (msg "read body")
      else if w.trim_space r.content == ""
      then ok nil
      else or_fail "json.Unmarshal" (w.parse_json r.content)

  -- The loop of decodeNDJSONStream.
  decode_lines : List String → Result (List Any)
  decode_lines [] = ok []
  decode_lines (line ∷ lines) =
      let rest = decode_lines lines in
      if w.trim_space line == ""
      then rest
      else do v ← or_fail "ndjson decode" (w.parse_json (w.trim_space line)); vs ← rest; ok (v ∷ vs)

  -- decodeNDJSONStream
  unfoldable pub decode_ndjson_stream : Reader → Result Any
  unfolding decode_lines
  decode_ndjson_stream r = do
    vs ← decode_lines (w.scan_lines r).0
    if (w.scan_lines r).1 then err (msg "ndjson scan") else ok (rows vs)

  -- decodeCSVStream
  unfoldable pub decode_csv_stream : String → Reader → Result Any
  unfolding row_map
  decode_csv_stream header r =
      if (w.read_csv r).1
      then err (msg "csv")
      else ok (rows (csv_rows (header == "present") (w.read_csv r).0))

  -- The loop of decodeZip that selects members.
  select_files : String → List ZipFile → Result (List ZipFile)
  select_files glob [] = ok []
  select_files glob (f ∷ fs) =
      let rest = select_files glob fs in
      if f.is_dir then rest else if glob == "" then (do more ← rest; ok (f ∷ more)) else do
        matches ← or_fail "zip: glob" (w.match_glob glob (w.base_name f.name))
        more ← rest
        ok (if matches then f ∷ more else more)

  abbrev archive : Reader → Result (List ZipFile)
  archive r =
      if r.fails then err (msg "zip: read archive") else or_fail "zip" (w.open_zip r.content)

  -- The loop of decodeZip over the members, with the rest of the chain.
  unfoldable pub decode_members :
      (Reader → Result Any) → List ZipFile → List Any → Result (List Any)
  unfolding append_decoded
  decode_members decode [] out = ok out
  decode_members decode (f ∷ fs) out = do
    r ← or_fail "zip: open" f.content
    v ← context "zip member" (decode r)
    decode_members decode fs (append_decoded out v)

  -- decodeZip
  unfoldable pub decode_zip : (Reader → Result Any) → String → Reader → Result Any
  unfolding select_files sort_files decode_members
  decode_zip decode glob r = do
    files ← archive r
    chosen ← select_files glob files
    out ← decode_members decode (sort_files chosen) []
    ok (rows out)

  -- decodeChain
  unfoldable pub decode_chain : List DecodeStage → Reader → Result Any
  unfolding decode_json_stream decode_ndjson_stream decode_csv_stream decode_zip
  decode_chain [] r = err (msg "response.decode: empty chain")
  decode_chain (gzip ∷ chain) r = do inner ← or_fail "gzip" (w.gunzip r); decode_chain chain inner
  decode_chain (zip glob ∷ chain) r = decode_zip (decode_chain chain) glob r
  decode_chain (csv header ∷ chain) r = decode_csv_stream header r
  decode_chain (json ∷ chain) r = decode_json_stream r
  decode_chain (ndjson ∷ chain) r = decode_ndjson_stream r
  decode_chain (unset ∷ chain) r = err (msg "response.decode: unsupported stage")

-- ===== src/Client/Decode/Laws.antt =====
-- A decode chain that the validator accepts is one that the client can run.
use skopos.Base.{
  ℕ, suc, ℤ, String, ◌≡◌, refl, inl, inr, Bool, true, false, ◌||◌, List, [], ◌∷◌, Option, none,
  some, All, ◌==◌, if◌then◌else◌, Result, ok, err, Error, msg, wrap, context, ◌>>=◌, Option-cases,
}
use skopos.Any.{Any}
use skopos.Schema.Doc.{Doc, Request, DecodeStage, gzip, zip, csv, json, ndjson, unset}
use skopos.Schema.Validation.Diag.{no_errors, no_errors-append, at}
use skopos.Schema.Validation.Requests.{
  is_terminal, is_byte_transform, check_stage, check_stages, check_decode_chain,
}
use skopos.Schema.Validation.Document.{validate, initial_context}
use skopos.Schema.Validation.Document.Laws.{ChainPassed, requests-chains, validate-requests}
use skopos.Client.Coerce.{or_fail}
use skopos.Client.Wire.{Wire, Reader, ZipFile}
use skopos.Client.Decode.{
  effective_decode, decode_json_stream, decode_lines, decode_ndjson_stream, decode_csv_stream,
  select_files, sort_files, decode_members, decode_zip, decode_chain,
}

-- The two errors of a chain that has no meaning.
abbrev pub about_chain : Error → Bool
about_chain (msg t) =
    t == "response.decode: empty chain" || t == "response.decode: unsupported stage"
about_chain (wrap label e) = about_chain e
about_chain e = false

-- A result or an error that is about the response, not about the chain.
abbrev pub Runs : {A : Type 0} → Result A → Type 0
Runs (ok a) = Unit
Runs (err e) = about_chain e ≡ false

Runs-or_fail :
    {A : Type 0} (label : String) (o : Option A)
    → about_chain (msg label) ≡ false
    → Runs (or_fail label o)
Runs-or_fail label none h = h
Runs-or_fail label (some a) h = tt

Runs-context : {A : Type 0} (label : String) (r : Result A) → Runs r → Runs (context label r)
Runs-context label (ok a) h = tt
Runs-context label (err e) h = h

Runs-bind :
    {A B : Type 0} (r : Result A) (f : A → Result B)
    → Runs r
    → ((a : A) → Runs (f a))
    → Runs (r >>= f)
Runs-bind (ok a) f h k = k a
Runs-bind (err e) f h k = h

Runs-if : {A : Type 0} (b : Bool) (r t : Result A) → Runs r → Runs t → Runs (if b then r else t)
Runs-if true r t hr ht = hr
Runs-if false r t hr ht = ht

module _ (w : Wire) where
  json-Runs : (r : Reader) → Runs (decode_json_stream w r)
  unfolding decode_json_stream
  json-Runs r =
      Runs-if r.fails _ _ refl
        (Runs-if (w.trim_space r.content == "") _ _ tt (Runs-or_fail "json.Unmarshal" _ refl))

  lines-Runs : (lines : List String) → Runs (decode_lines w lines)
  unfolding decode_lines
  lines-Runs [] = tt
  lines-Runs (line ∷ lines) = Runs-if (w.trim_space line == "") _ _ (lines-Runs lines) (
      Runs-bind _ _ (Runs-or_fail "ndjson decode" _ refl)
        λ v. Runs-bind _ _ (lines-Runs lines) (λ vs. tt))

  ndjson-Runs : (r : Reader) → Runs (decode_ndjson_stream w r)
  unfolding decode_ndjson_stream
  ndjson-Runs r =
      Runs-bind _ _ (lines-Runs (w.scan_lines r).0) (λ vs. Runs-if (w.scan_lines r).1 _ _ refl tt)

  csv-Runs : (header : String) (r : Reader) → Runs (decode_csv_stream w header r)
  unfolding decode_csv_stream
  csv-Runs header r = Runs-if (w.read_csv r).1 _ _ refl tt

  select-Runs : (glob : String) (fs : List ZipFile) → Runs (select_files w glob fs)
  unfolding select_files
  select-Runs glob [] = tt
  select-Runs glob (f ∷ fs) = Runs-if f.is_dir _ _ (select-Runs glob fs) (
      Runs-if (glob == "") _ _ (Runs-bind _ _ (select-Runs glob fs) (λ more. tt)) (
        Runs-bind _ _ (Runs-or_fail "zip: glob" _ refl)
          λ matches. Runs-bind _ _ (select-Runs glob fs) (λ more. tt)))

  module _ (decode : Reader → Result Any) (runs : (r : Reader) → Runs (decode r)) where
    members-Runs : (fs : List ZipFile) (out : List Any) → Runs (decode_members w decode fs out)
    unfolding decode_members
    members-Runs [] out = tt
    members-Runs (f ∷ fs) out =
        Runs-bind _ _ (Runs-or_fail "zip: open" f.content refl)
          λ r. Runs-bind _ _ (Runs-context "zip member" (decode r) (runs r)) λ v. members-Runs fs _

    zip-Runs : (glob : String) (r : Reader) → Runs (decode_zip w decode glob r)
    unfolding decode_zip
    zip-Runs glob r = Runs-bind _ _ (Runs-if r.fails _ _ refl (Runs-or_fail "zip" _ refl)) λ files.
        Runs-bind _ _ (select-Runs glob files)
          λ chosen. Runs-bind _ _ (members-Runs (sort_files chosen) []) (λ out. tt)

  chain-Runs :
      (match_glob : String → String → Option Bool) (path : String) (i : ℕ) (s : DecodeStage)
      (c : List DecodeStage)
      → no_errors (check_stages match_glob path i (s ∷ c)) ≡ true
      → (r : Reader) → Runs (decode_chain w (s ∷ c) r)
  unfolding check_stages check_stage is_terminal is_byte_transform decode_chain no_errors
  chain-Runs mg path i json c h r = json-Runs r
  chain-Runs mg path i ndjson c h r = ndjson-Runs r
  chain-Runs mg path i (csv header) c h r = csv-Runs header r
  chain-Runs mg path i unset c h r = cc
  chain-Runs mg path i gzip [] h r = cc
  chain-Runs mg path i gzip (t ∷ ts) h r = Runs-bind _ _ (Runs-or_fail "gzip" (w.gunzip r) refl) (
      chain-Runs mg path (suc i) t ts
        (no_errors-append (check_stage mg (at path i) gzip (t ∷ ts))
          (check_stages mg path (suc i) (t ∷ ts)) h).1)
  chain-Runs mg path i (zip glob) [] h r = cc
  chain-Runs mg path i (zip glob) (t ∷ ts) h r =
      zip-Runs (decode_chain w (t ∷ ts))
        (chain-Runs mg path (suc i) t ts
          (no_errors-append (check_stage mg (at path i) (zip glob) (t ∷ ts))
            (check_stages mg path (suc i) (t ∷ ts)) h).1)
        glob r

  passed-Runs :
      (parse_duration : String → Option ℤ) (match_glob : String → String → Option Bool)
      (req : Request)
      → ChainPassed parse_duration match_glob req
      → (r : Reader) → Runs (decode_chain w (effective_decode req) r)
  unfolding effective_decode check_decode_chain no_errors decode_chain decode_json_stream
  passed-Runs pd mg req (path, h) r = elim (Option-cases req.decode) [
    | inl omitted ↦ rw (omitted, effective_decode) (json-Runs r)
    | inr ([], given) ↦ cc (rw given at h)
    | inr (s ∷ ss, given) ↦
        rw (given, effective_decode) (chain-Runs mg path 0 s ss (rw given at h) r)
  ]

  All-Run :
      (parse_duration : String → Option ℤ) (match_glob : String → String → Option Bool)
      (reqs : List Request)
      → All (ChainPassed parse_duration match_glob) reqs
      → (r : Reader) → All (λ req. Runs (decode_chain w (effective_decode req) r)) reqs
  All-Run pd mg [] h r = tt
  All-Run pd mg (q ∷ qs) (h, hs) r = (passed-Runs pd mg q h r, All-Run pd mg qs hs r)

-- In a document for which Validate reports no error, the chain that each request's response is decoded
-- with gives a body or an error about the response: never the error of an empty chain or of an
-- unsupported stage, on any bytes, in an archive's members included.
pub validate-chains :
    (w : Wire) (parse_duration : String → Option ℤ) (match_glob : String → String → Option Bool)
    (d : Doc) (r : Reader)
    → no_errors (validate parse_duration match_glob d) ≡ true
    → All (λ req. Runs (decode_chain w (effective_decode req) r)) d.requests
validate-chains w parse_duration match_glob d r valid =
    All-Run w parse_duration match_glob d.requests
      (requests-chains parse_duration match_glob d.requests (initial_context d)
        (validate-requests parse_duration match_glob d valid))
      r

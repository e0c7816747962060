-- ===== src/Client/Platform.antt =====
-- The packages of Go's standard library whose inner working the client does not rely on: time
-- layouts, floating point, regular expressions, encodings and the default formatting of a value.
use skopos.Base.{ℕ, ℤ, String, Bool, List, Option}
use skopos.Any.{Any}

-- An instant and a duration are nanoseconds, a float64 is its bit pattern. `none` is an error.
pub record Platform : Type 0 where
  -- time.Parse with the layouts RFC3339Nano and RFC3339
  pub parse_rfc3339nano : String → Option ℤ
  pub parse_rfc3339 : String → Option ℤ
  -- t.UTC().Format with these layouts
  pub format_rfc3339nano : ℤ → String
  pub format_rfc3339 : ℤ → String
  -- time.ParseDuration, and Duration.String
  pub parse_duration : String → Option ℤ
  pub format_duration : ℤ → String
  -- int64(x), x == y, x != 0, x * 1e9 as a duration, x seconds since the epoch as an instant
  pub float_to_int : ℕ → ℤ
  pub float_eq : ℕ → ℕ → Bool
  pub float_nonzero : ℕ → Bool
  pub float_seconds : ℕ → ℤ
  pub float_time : ℕ → ℤ
  pub format_float : ℕ → String
  -- fmt.Sprint of a list or a map
  pub sprint : Any → String
  -- regexp.Compile, then FindStringSubmatch: `none` if the pattern does not compile, `some none` if
  -- there is no match, else the match and its groups, of which there is at least one
  pub find_submatch : String → String → Option (Option (List String))
  -- base64.StdEncoding.EncodeToString, url.QueryEscape, http.CanonicalHeaderKey
  pub encode_base64 : String → String
  pub query_escape : String → String
  pub canonical_header : String → String

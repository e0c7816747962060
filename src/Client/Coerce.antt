-- ===== src/Client/Coerce.antt =====
-- The coercions of client/value.go and client/predicate.go between runtime values.
use skopos.Base.{
  String, Bool, true, false, not, Option, none, some, ◌==◌, ℤ, pos, ◌*ℤ◌, ◌+ℤ◌, ◌-ℤ◌, wrap64,
  floor_div, beq_ℤ, if◌then◌else◌, Result, ok, err, msg, ◌>>=◌,
}
use skopos.Any.{Any, nil, str, int, bool, float, time, duration, list, object, end, done}
use skopos.Client.Platform.{Platform}
use skopos.Client.Numerals.{parse_int, format_int, format_bool, parse_bool}

-- isZeroRuntime
unfoldable pub is_zero_runtime : Any → Bool
is_zero_runtime nil = true
is_zero_runtime (str s) = s == ""
is_zero_runtime (list end) = true
is_zero_runtime (object done) = true
is_zero_runtime v = false

-- What an error-returning parse gives, with a label for the error.
abbrev pub or_fail {ℓ} : {A : Type ℓ} → String → Option A → Result A
or_fail label none = err (msg label)
or_fail label (some a) = ok a

abbrev first_of : Option ℤ → Option ℤ → Option ℤ
first_of none b = b
first_of (some a) b = some a

abbrev pub second : ℤ
second = pos 1000000000

-- The seconds from the year 1 to 1970: the offset that time.Unix adds, in int64, to the seconds that
-- it is given, and that Unix takes off again.
abbrev unix_to_internal : ℤ
unix_to_internal = pos 62135596800

-- time.Unix(n, 0)
unfoldable pub unix_time : ℤ → ℤ
unfolding ◌+ℤ◌ ◌-ℤ◌ ◌*ℤ◌ wrap64
unix_time n = (wrap64 (n +ℤ unix_to_internal) -ℤ unix_to_internal) *ℤ second

module _ (platform : Platform) where
  open platform use {
    parse_rfc3339nano, parse_rfc3339, format_rfc3339nano, format_rfc3339, parse_duration,
    format_duration, float_to_int, float_nonzero, float_time, format_float, sprint, query_escape,
  }

  unfoldable pub to_string : Any → String
  unfolding format_int format_bool
  to_string nil = ""
  to_string (str s) = s
  to_string (bool b) = format_bool b
  to_string (int n) = format_int n
  to_string (float x) = format_float x
  to_string (time t) = format_rfc3339nano t
  to_string (duration d) = format_duration d
  to_string v = sprint v

  unfoldable pub to_duration : Any → Result ℤ
  to_duration (duration d) = ok d
  to_duration (str s) = or_fail "time.ParseDuration" (parse_duration s)
  to_duration (int n) = ok n
  to_duration (float x) = ok (float_to_int x)
  to_duration v = err (msg "cannot interpret as duration")

  unfoldable pub to_int : Any → Result ℤ
  unfolding parse_int
  to_int (int n) = ok n
  to_int (float x) = ok (float_to_int x)
  to_int (str s) = or_fail "strconv.ParseInt" (parse_int s)
  to_int (bool b) = ok (if b then pos 1 else pos 0)
  to_int v = err (msg "cannot interpret as int")

  unfoldable pub to_bool : Any → Result Bool
  unfolding parse_bool
  to_bool (bool b) = ok b
  to_bool (str s) = or_fail "strconv.ParseBool" (parse_bool s)
  to_bool (int n) = ok (not (beq_ℤ n (pos 0)))
  to_bool (float x) = ok (float_nonzero x)
  to_bool v = err (msg "cannot interpret as bool")

  unfoldable pub to_time : Any → Result ℤ
  unfolding unix_time
  to_time (time t) = ok t
  to_time (str s) =
      or_fail "cannot parse string as RFC 3339" (first_of (parse_rfc3339nano s) (parse_rfc3339 s))
  to_time (int n) = ok (unix_time n)
  to_time (float x) = ok (float_time x)
  to_time v = err (msg "cannot interpret as time")

  -- asTime
  unfoldable pub as_time : Any → Option ℤ
  as_time (time t) = some t
  as_time (str s) = first_of (parse_rfc3339nano s) (parse_rfc3339 s)
  as_time v = none

  -- asInt64
  unfoldable pub as_int64 : Any → Option ℤ
  as_int64 (int n) = some n
  as_int64 (float x) = some (float_to_int x)
  as_int64 v = none

  -- applyFormat
  unfoldable pub apply_format : String → Any → Result Any
  unfolding to_string to_duration to_int to_bool to_time floor_div wrap64
  apply_format verb v =
      if verb == "string"
      then ok (str (to_string v))
      else if verb == "int"
      then (do n ← to_int v; ok (int n))
      else if verb == "bool"
      then (do b ← to_bool v; ok (bool b))
      else if verb == "rfc3339"
      then (do t ← to_time v; ok (str (format_rfc3339 t)))
      else if verb == "rfc3339nano"
      then (do t ← to_time v; ok (str (format_rfc3339nano t)))
      else if verb == "unix_seconds"
      then (do t ← to_time v; ok (int (wrap64 (floor_div t 1000000000))))
      else if verb == "unix_millis"
      then (do t ← to_time v; ok (int (wrap64 (floor_div t 1000000))))
      else if verb == "duration"
      then (do d ← to_duration v; ok (str (format_duration d)))
      else if verb == "url_encode"
      then ok (str (query_escape (to_string v)))
      else if verb == "parse_duration"
      then (do d ← to_duration v; ok (int d))
      else err (msg "unknown format verb")

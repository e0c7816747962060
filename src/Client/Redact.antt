-- ===== src/Client/Redact.antt =====
-- redactValue and valueShape of client/redact.go: what a log line may say of a value.
pub mod Laws
mod Tests
use Prim.Native.String
use skopos.Base.{String, if◌then◌else◌}
use skopos.Schema.Path.{to_string}
use skopos.Schema.Value.{
  Value, unset, zero, literal_string, literal_int, literal_bool, ref, now, concat, select, format,
  base64, add, subtract, max, min, first, last, count, slice, regex,
}
use skopos.Schema.Doc.{Doc}
use skopos.Schema.Secret.{is_secret}
use skopos.Client.Numerals.{format_int, format_bool}

abbrev angled : String → String
angled s = String.◌++◌ "<" (String.◌++◌ s ">")

-- valueShape, with the quoting of fmt.Sprintf("%q", s).
unfoldable pub value_shape : (String → String) → Value → String
unfolding format_int format_bool to_string
value_shape quote zero = "<zero>"
value_shape quote (literal_string s) = quote s
value_shape quote (literal_int n) = format_int n
value_shape quote (literal_bool b) = format_bool b
value_shape quote (ref p d) = angled (String.◌++◌ "ref " (to_string p))
value_shape quote now = "<now>"
value_shape quote (concat vs) = "<concat>"
value_shape quote (select bs d) = "<select>"
value_shape quote (format verb v) = angled (String.◌++◌ "format:" verb)
value_shape quote (base64 v) = "<base64>"
value_shape quote (Value.list vs) = "<list>"
value_shape quote (Value.object fs) = "<object>"
value_shape quote (add vs) = "<add>"
value_shape quote (subtract vs) = "<subtract>"
value_shape quote (max v) = "<max>"
value_shape quote (min v) = "<min>"
value_shape quote (first v) = "<first>"
value_shape quote (last v) = "<last>"
value_shape quote (count v) = "<count>"
value_shape quote (regex p v n d) = "<regex>"
value_shape quote v = "<empty>"

-- redactValue
unfoldable pub redact_value : (String → String) → Doc → Value → String
unfolding is_secret value_shape
redact_value quote d v = if is_secret d v then "<redacted>" else value_shape quote v

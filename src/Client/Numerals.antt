-- ===== src/Client/Numerals.antt =====
-- strconv: ParseInt and Atoi in base 10, FormatInt, FormatBool and ParseBool.
use Prim.Native.Char.{code}
use Prim.Native.String
use skopos.Base.{
  ℕ, zero, suc, ◌+◌, ◌-◌, ◌*◌, ◌/◌, ◌%◌, ◌^◌, String, Bool, true, false, ◌&&◌, List, [], ◌∷◌,
  Option, none, some, ℤ, pos, negsuc, ltb, leb, nat_beq, contains, get_elem?, if◌then◌else◌,
}

-- The digits of a text behind those that make `n`; none at all are an error to the callers.
digits_from : ℕ → String → Option ℕ
digits_from n String.[] = some n
digits_from n (String.◌∷◌ c s) =
    let d = code c in
    let rest = digits_from (n * 10 + (d - 48)) s in if leb 48 d && leb d 57 then rest else none

unsigned : String → Option ℕ
unfolding digits_from
unsigned String.[] = none
unsigned (String.◌∷◌ c s) = digits_from 0 (String.◌∷◌ c s)

in_range : Bool → Option ℕ → Option ℤ
in_range negative none = none
in_range true (some zero) = some (pos 0)
in_range true (some (suc n)) = if ltb n (2 ^ 63) then some (negsuc n) else none
in_range false (some n) = if ltb n (2 ^ 63) then some (pos n) else none

-- strconv.ParseInt(s, 10, 64), and strconv.Atoi where int has 64 bits.
unfoldable pub parse_int : String → Option ℤ
unfolding unsigned in_range
parse_int String.[] = none
parse_int (String.◌∷◌ c s) =
    if nat_beq (code c) b'-'
    then in_range true (unsigned s)
    else if nat_beq (code c) b'+'
    then in_range false (unsigned s)
    else in_range false (unsigned (String.◌∷◌ c s))

abbrev digit_texts : List String
digit_texts = "0" ∷ "1" ∷ "2" ∷ "3" ∷ "4" ∷ "5" ∷ "6" ∷ "7" ∷ "8" ∷ "9" ∷ []

digit_text : ℕ → String
digit_text n = elim (get_elem? digit_texts (n % 10)) [ none ↦ "" | some d ↦ d ]

-- The digits of n before those in `acc`. One round takes one digit off.
decimal : ℕ → ℕ → String → String
unfolding digit_text
decimal zero n acc = acc
decimal (suc f) n acc =
    let longer = String.◌++◌ (digit_text n) acc in
    let rest = decimal f (n / 10) longer in if nat_beq (n / 10) 0 then longer else rest

unfoldable pub format_int : ℤ → String
unfolding decimal
format_int (pos n) = decimal (suc n) n ""
format_int (negsuc n) = String.◌++◌ "-" (decimal (suc (suc n)) (suc n) "")

unfoldable pub format_bool : Bool → String
format_bool true = "true"
format_bool false = "false"

unfoldable pub parse_bool : String → Option Bool
parse_bool s =
    if contains s ("1" ∷ "t" ∷ "T" ∷ "TRUE" ∷ "true" ∷ "True" ∷ [])
    then some true
    else if contains s ("0" ∷ "f" ∷ "F" ∷ "FALSE" ∷ "false" ∷ "False" ∷ [])
    then some false
    else none

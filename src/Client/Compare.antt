-- ===== src/Client/Compare.antt =====
-- Equality and order of runtime values: equal and orderedCompare of client/predicate.go.
use Prim.Native.Nat.{Ordering}
use Prim.Native.String.{compare}
use skopos.Base.{
  String, Bool, true, false, ◌&&◌, ◌||◌, Option, none, some, ◌==◌, ℤ, pos, negsuc, ltb_ℤ, beq_ℤ,
  nat_beq, length, lookup, Dict, if◌then◌else◌, Result, ok, err, msg,
}
use skopos.Any.{
  Any, nil, str, int, bool, float, time, duration, list, object, Elems, end, cons, Entries, done,
  entry, entries, is_nil,
}
use skopos.Client.Platform.{Platform}
use skopos.Client.Coerce.{to_string, as_time, as_int64}

abbrev bool_eq : Bool → Bool → Bool
bool_eq true b = b
bool_eq false true = false
bool_eq false false = true

abbrev found_equal : (Any → Bool) → Option Any → Bool
found_equal same none = false
found_equal same (some v) = same v

-- The three answers of orderedCompare: -1, 0 and 1.
abbrev compare_ℤ : ℤ → ℤ → ℤ
compare_ℤ a b = if ltb_ℤ a b then negsuc 0 else if ltb_ℤ b a then pos 1 else pos 0

abbrev compare_str : String → String → ℤ
compare_str a b = elim (compare a b) [
  | Ordering.lt ↦ negsuc 0
  | Ordering.eq ↦ pos 0
  | Ordering.gt ↦ pos 1
]

compare_time : ℤ → Option ℤ → Result ℤ
compare_time a none = err (msg "cannot compare time")
compare_time a (some b) = ok (compare_ℤ a b)

unfoldable pub compare_int : ℤ → Option ℤ → Result ℤ
compare_int a none = err (msg "cannot compare int")
compare_int a (some b) = ok (compare_ℤ a b)

compare_text : Any → Any → Result ℤ
compare_text (str a) (str b) = ok (compare_str a b)
compare_text (str a) b = err (msg "cannot compare string")
compare_text a b = err (msg "cannot order-compare")

module _ (platform : Platform) where
  -- reflect.DeepEqual
  unfoldable mutual
    pub deep_equal : Any → Any → Bool
    deep_equal nil nil = true
    deep_equal (str a) (str b) = a == b
    deep_equal (int a) (int b) = beq_ℤ a b
    deep_equal (bool a) (bool b) = bool_eq a b
    deep_equal (float a) (float b) = platform.float_eq a b
    deep_equal (time a) (time b) = beq_ℤ a b
    deep_equal (duration a) (duration b) = beq_ℤ a b
    deep_equal (list a) (list b) = deep_elems a b
    deep_equal (object a) (object b) =
        nat_beq (length (entries a)) (length (entries b)) && deep_entries a (entries b)
    deep_equal a b = false

    pub deep_elems : Elems → Elems → Bool
    deep_elems end end = true
    deep_elems (cons v vs) (cons w ws) = deep_equal v w && deep_elems vs ws
    deep_elems vs ws = false

    pub deep_entries : Entries → Dict Any → Bool
    deep_entries done n = true
    deep_entries (entry k v m) n = found_equal (deep_equal v) (lookup k n) && deep_entries m n

  unfoldable pub equal : Any → Any → Bool
  unfolding deep_equal to_string
  equal a b =
      if is_nil a && is_nil b
      then true
      else if is_nil a || is_nil b
      then false
      else if deep_equal a b
      then true
      else to_string platform a == to_string platform b

  unfoldable pub ordered_compare : Any → Any → Result ℤ
  unfolding compare_time compare_int compare_text as_time as_int64
  ordered_compare a b = elim (as_time platform a) [
    | some ta ↦ compare_time ta (as_time platform b)
    | none ↦ elim (as_int64 platform a) [
      | some na ↦ compare_int na (as_int64 platform b)
      | none ↦ compare_text a b
    ]
  ]

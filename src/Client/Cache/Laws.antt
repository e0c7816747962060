-- ===== src/Client/Cache/Laws.antt =====
-- What the cache gives back, and what on_status: invalidate_cache takes from it.
use text.Mathlib.TextLemmas.{append_cancel_right, nil-append}
use skopos.Base.{
  String, ◌≡◌, ◌≢◌, refl, sym, ap, ◌∙◌, inl, inr, true, false, List, [], ◌∷◌, none, some, ℤ, ◌+ℤ◌,
  ltb_ℤ, Dict, lookup, insert, remove, contains, ◌==◌, if◌then◌else◌, Result, ok, arith, eq_iff,
  eq_refl, lookup-insert, lookup-remove, Option-cases, Result-cases, Bool-cases,
}
use skopos.Any.{Any, time}
use skopos.Schema.Doc.{Cache}
use skopos.Client.Platform.{Platform}
use skopos.Client.Scope.{Scope}
use skopos.Client.Eval.{eval_value}
use skopos.Client.Cache.{
  cache_slot_name, cache_expiry_key, as_instant, fresh, cache_get, coerce_cache_expiry, cache_store,
  drop_slots,
}

abbrev prefix : String
prefix = "__exp_"

prefix-ne : prefix ≢ ""
prefix-ne h = let found : (prefix == "") ≡ true = (eq_iff prefix "").1 h in cc

cache_expiry_key-ne : (slot : String) → (cache_expiry_key slot == slot) ≡ false
unfolding cache_expiry_key
cache_expiry_key-ne slot = elim (Bool-cases (cache_expiry_key slot == slot)) [
  | inr differ ↦ differ
  | inl same ↦
      let empty =
        append_cancel_right "__exp_" "" slot ((eq_iff _ _).0 same ∙ sym (nil-append slot)) in
      absurd (prefix-ne empty)
]

reads_back :
    (platform : Platform) (slot : String) (v : Any) (expiry later buffer : ℤ) (s s' : Scope)
    (text : String)
    → platform.parse_duration text ≡ some buffer
    → (◌≡◌ {A = Result (Unit {0}) × Scope}
        (
          ok tt,
          record s { cache = insert (cache_expiry_key slot) (time expiry) (insert slot v s.cache) },
        )
        (ok tt, s'))
    → (if fresh later
          (as_instant (lookup (cache_expiry_key slot) s'.cache))
          (platform.parse_duration text)
        then lookup slot s'.cache
        else none)
      ≡ (if ltb_ℤ (later +ℤ buffer) expiry then some v else none)
reads_back platform slot v expiry later buffer s s' text parsed stored =
    let stamp : lookup (cache_expiry_key slot) s'.cache ≡ some (time expiry) =
      ap (λ (r : Result (Unit {0}) × Scope). lookup (cache_expiry_key slot) r.1.cache) (sym stored)
      ∙ rw (lookup-insert, eq_refl) refl in
    let value : lookup slot s'.cache ≡ some v =
      ap (λ (r : Result (Unit {0}) × Scope). lookup slot r.1.cache) (sym stored)
      ∙ rw (lookup-insert, cache_expiry_key-ne slot, lookup-insert, eq_refl) refl in
    rw (parsed, stamp, value) refl

-- Where the buffer parses, what a successful store has put is read back as long as the instant of the reading, with the buffer added, is
-- before the expiry that was evaluated at the store, and from then on the cache answers nothing.
pub cache_get-store :
    (platform : Platform) (c : Cache) (v : Any) (s s' : Scope) (later buffer : ℤ)
    → platform.parse_duration c.buffer ≡ some buffer
    → cache_store platform c v s ≡ (ok tt, s')
    → (raw : Any) × (expiry : ℤ) × (eval_value platform s c.expires_at ≡ ok raw)
      × (coerce_cache_expiry platform raw s.now ≡ ok expiry)
      × (cache_get platform c (record s' { now = later })
          ≡ (if ltb_ℤ (later +ℤ buffer) expiry then some v else none))
unfolding cache_store cache_get
cache_get-store platform c v s s' later buffer parsed stored =
    elim (Option-cases (cache_slot_name c.to)) [
      | inl bad ↦ cc (rw (bad, cache_store) at stored)
      | inr (slot, good) ↦ elim (Result-cases (eval_value platform s c.expires_at)) [
        | inr (e, failed) ↦ cc (rw (good, failed, cache_store) at stored)
        | inl (raw, got) ↦ elim (Result-cases (coerce_cache_expiry platform raw s.now)) [
          | inr (e, failed) ↦ cc (rw (good, got, failed, cache_store) at stored)
          | inl (expiry, coerced) ↦
              let left = rw (good, got, coerced, cache_store) at stored in
              (
                raw,
                expiry,
                got,
                coerced,
                rw (good, cache_get)
                    (reads_back platform slot v expiry later buffer s s' c.buffer parsed left),
              )
        ]
      ]
    ]

pub drop_slots-lookup :
    (slots : List String) (m : Dict Any) (name : String)
    → let dropped = drop_slots slots m in
      (lookup name dropped.1 ≡ (if contains name slots then none else lookup name m))
unfolding drop_slots
drop_slots-lookup [] m name = refl
drop_slots-lookup (n ∷ ns) m name = elim (Option-cases (lookup n m)) [
  | inl missing ↦
      rw (missing, drop_slots) (ground (arith, eq_iff n name, drop_slots-lookup ns m name))
  | inr (v, found) ↦
      rw (found, drop_slots)
        (ground
          (arith, eq_iff n name, drop_slots-lookup ns (remove n m) name, lookup-remove n name m))
]

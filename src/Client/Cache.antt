-- ===== src/Client/Cache.antt =====
-- The cache slots of client/cache.go, and the drops of on_status: invalidate_cache in
-- client/runner.go.
pub mod Laws
pub mod Reach
pub mod Drop
mod Tests
use Prim.Native.String
use skopos.Base.{
  String, Bool, true, false, List, [], ◌∷◌, ◌++◌, Option, none, some, ℤ, ◌+ℤ◌, ◌*ℤ◌, wrap64, ltb_ℤ,
  Dict, lookup, insert, remove, ◌==◌, if◌then◌else◌, Result, ok, err, msg, context, ◌>>=◌,
}
use skopos.Any.{Any, nil, str, int, float, time, duration}
use skopos.Schema.Path.{RefPath}
use skopos.Schema.Doc.{
  Doc, Cache, Auth, AuthBranches, bearer, basic, api_key, custom, oauth2, sigv4, multi_mode,
  no_auth, end, branch, Oauth2Auth, ClientCredentialsGrant, PasswordGrant, Request,
}
use skopos.Client.Numerals.{parse_int}
use skopos.Client.Platform.{Platform}
use skopos.Client.Coerce.{second}
use skopos.Client.Scope.{Scope}
use skopos.Client.Eval.{eval_value}
use skopos.Client.Exec.{Exec}
use skopos.Client.Lifetime.{name_behind}

-- cacheSlotName
unfoldable pub cache_slot_name : RefPath → Option String
cache_slot_name p = name_behind "cache" p.parts

-- cacheExpiryKey
unfoldable pub cache_expiry_key : String → String
cache_expiry_key slot = String.◌++◌ "__exp_" slot

abbrev pub as_instant : Option Any → Option ℤ
as_instant (some (time t)) = some t
as_instant v = none

-- !s.now().Add(buffer).Before(expAt) is a miss.
abbrev pub fresh : ℤ → Option ℤ → Option ℤ → Bool
fresh now none buffer = false
fresh now (some expiry) none = false
fresh now (some expiry) (some buffer) = ltb_ℤ (now +ℤ buffer) expiry

module _ (platform : Platform) where
  -- cacheGet
  unfoldable pub cache_get : Cache → Scope → Option Any
  unfolding cache_slot_name cache_expiry_key lookup ◌+ℤ◌
  cache_get c s = elim (cache_slot_name c.to) [
    | none ↦ none
    | some slot ↦
        if fresh s.now (as_instant (lookup (cache_expiry_key slot) s.cache))
          (platform.parse_duration c.buffer)
        then lookup slot s.cache
        else none
  ]

  -- The string arm of coerceCacheExpiry: a duration, then an instant, then seconds.
  expiry_text : ℤ → String → Result ℤ
  unfolding parse_int ◌+ℤ◌ ◌*ℤ◌ wrap64
  expiry_text now s = elim (platform.parse_duration s) [
    | some d ↦ ok (now +ℤ d)
    | none ↦ elim (platform.parse_rfc3339nano s) [
      | some t ↦ ok t
      | none ↦ elim (platform.parse_rfc3339 s) [
        | some t ↦ ok t
        | none ↦ elim (parse_int s) [
          | some n ↦ ok (now +ℤ wrap64 (n *ℤ second))
          | none ↦ err (msg "cannot interpret string as time, duration, or seconds")
        ]
      ]
    ]
  ]

  unfoldable pub coerce_cache_expiry : Any → ℤ → Result ℤ
  unfolding expiry_text
  coerce_cache_expiry (time t) now = ok t
  coerce_cache_expiry (duration d) now = ok (now +ℤ d)
  coerce_cache_expiry (int n) now = ok (now +ℤ wrap64 (n *ℤ second))
  coerce_cache_expiry (float x) now = ok (now +ℤ platform.float_seconds x)
  coerce_cache_expiry (str s) now = expiry_text now s
  coerce_cache_expiry v now = err (msg "cannot interpret as time")

  -- cacheStore
  unfoldable pub cache_store : Cache → Any → Exec (Unit {0})
  unfolding cache_slot_name cache_expiry_key insert eval_value coerce_cache_expiry
  cache_store c value s = elim (cache_slot_name c.to) [
    | none ↦ (err (msg "cache.to is not a cache.<name> path"), s)
    | some slot ↦ elim (context "cache.expires_at" (eval_value platform s c.expires_at)) [
      | err e ↦ (err e, s)
      | ok raw ↦ elim (context "cache.expires_at" (coerce_cache_expiry raw s.now)) [
        | err e ↦ (err e, s)
        | ok expiry ↦ (
          ok tt,
          record s {
            cache = insert (cache_expiry_key slot) (time expiry) (insert slot value s.cache);
          },
        )
      ]
    ]
  ]

-- The cache block of the grant that the switch of dropAuthCaches picks.
abbrev pub grant_cache : Oauth2Auth → Option Cache
grant_cache o = elim o.client_credentials [
  | some cc ↦ cc.cache
  | none ↦ elim o.password_grant [ some pg ↦ pg.cache | none ↦ none ]
]

abbrev pub slot_of : Option Cache → Option String
slot_of none = none
slot_of (some c) = cache_slot_name c.to

-- The slots of the auth block, in the order of the walk, branches before the default.
unfoldable mutual
  unfolding cache_slot_name

  pub auth_slots : Auth → List String
  auth_slots (oauth2 o) = elim (slot_of (grant_cache o)) [ none ↦ [] | some n ↦ n ∷ [] ]
  auth_slots (multi_mode bs d) = branch_slots bs ++ auth_slots d
  auth_slots a = []

  pub branch_slots : AuthBranches → List String
  branch_slots end = []
  branch_slots (branch p a bs) = auth_slots a ++ branch_slots bs

unfoldable pub request_slots : List Request → List String
unfolding cache_slot_name
request_slots [] = []
request_slots (r ∷ rs) = elim (slot_of r.cache) [
  | none ↦ request_slots rs
  | some n ↦ n ∷ request_slots rs
]

-- if _, exists := s.cache[name]; exists { delete(s.cache, name); cleared = append(cleared, name) }
pub drop_slots : List String → Dict Any → List String × Dict Any
unfolding lookup remove
drop_slots [] m = ([], m)
drop_slots (n ∷ ns) m = elim (lookup n m) [
  | none ↦ drop_slots ns m
  | some v ↦ let (cleared, m') = drop_slots ns (remove n m) in (n ∷ cleared, m')
]

-- dropReachableCaches: the names that were cleared, and the scope without their slots.
unfoldable pub drop_reachable_caches : Doc → Scope → List String × Scope
unfolding auth_slots request_slots drop_slots
drop_reachable_caches doc s =
    let (cleared, m) = drop_slots (auth_slots doc.auth ++ request_slots doc.requests) s.cache in
    (cleared, record s { cache = m })

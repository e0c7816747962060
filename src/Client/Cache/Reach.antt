-- ===== src/Client/Cache/Reach.antt =====
-- The slots that on_status: invalidate_cache reaches: those of the grants that applyOAuth2 may be
-- called with, and those of the requests.
use skopos.Base.{
  ℕ, zero, suc, String, ◌≡◌, ◌⊎◌, refl, sym, ap, ◌∙◌, inl, inr, true, List, [], ◌∷◌, ◌++◌, Option,
  none, some, contains, ◌||◌, arith, eq_iff, eq_refl, get_elem?, Option-cases, Bool-cases,
}
use skopos.Schema.Doc.{
  Doc, Cache, Request, no_variant, Auth, AuthBranches, no_auth, bearer, basic, api_key, custom,
  oauth2, sigv4, multi_mode, end, branch, Oauth2Auth,
}
use skopos.Schema.Value.{Predicate}
use skopos.Client.Cache.{
  cache_slot_name, slot_of, grant_cache, auth_slots, branch_slots, request_slots,
}
use skopos.Client.TokenForm as TokenForm
use skopos.Client.TokenForm.{Grant, grant_cache_of}
use skopos.Client.Token.{grant_of}

-- The grants that the credentials of a request may be taken from: the one of an oauth2 block, and
-- those of the branches and the default of a multi_mode block.
mutual
  pub data Reaches (g : Grant) : Auth → Type 0 where
    grant : (o : Oauth2Auth) → grant_of o ≡ some g → Reaches g (oauth2 o)
    in_branch : {bs : AuthBranches} {d : Auth} → BranchReaches g bs → Reaches g (multi_mode bs d)
    in_default : {bs : AuthBranches} {d : Auth} → Reaches g d → Reaches g (multi_mode bs d)

  pub data BranchReaches (g : Grant) : AuthBranches → Type 0 where
    here :
        {p : Predicate} {a : Auth} {bs : AuthBranches}
        → Reaches g a
        → BranchReaches g (branch p a bs)
    there :
        {p : Predicate} {a : Auth} {bs : AuthBranches}
        → BranchReaches g bs
        → BranchReaches g (branch p a bs)

-- A cache block that stores under a name.
abbrev pub StoresAs : Option Cache → String → Type 0
StoresAs m name = (c : Cache) × (m ≡ some c) × (cache_slot_name c.to ≡ some name)

-- The names that the grants in reach and the requests of a document store under.
abbrev pub Used : Doc → String → Type 0
Used doc name =
    ((g : Grant) × Reaches g doc.auth × StoresAs (grant_cache_of g) name)
    ⊎ ((i : ℕ) × (r : Request) × (get_elem? doc.requests i ≡ some r) × StoresAs r.cache name)

contains-both :
    (name : String) (xs ys : List String)
    → contains name (xs ++ ys) ≡ contains name xs || contains name ys
contains-both name [] ys = refl
contains-both name (x ∷ xs) ys = ground (arith, contains-both name xs ys)

left_of :
    (name : String) (xs ys : List String)
    → contains name xs ≡ true
    → contains name (xs ++ ys) ≡ true
left_of name xs ys h = rw (contains-both, h)

right_of :
    (name : String) (xs ys : List String)
    → contains name ys ≡ true
    → contains name (xs ++ ys) ≡ true
right_of name xs ys h = rw contains-both (ground (arith, h))

either_of :
    (name : String) (xs ys : List String)
    → contains name (xs ++ ys) ≡ true
    → (contains name xs ≡ true) ⊎ (contains name ys ≡ true)
either_of name xs ys h = elim (Bool-cases (contains name xs)) [
  | inl found ↦ inl found
  | inr other ↦ inr (rw (contains-both, other) at h)
]

abbrev slot_list : Option String → List String
slot_list none = []
slot_list (some n) = n ∷ []

slot_list-StoresAs :
    (m : Option Cache) (name : String)
    → contains name (slot_list (slot_of m)) ≡ true
    → StoresAs m name
unfolding cache_slot_name
slot_list-StoresAs none name h = cc
slot_list-StoresAs (some c) name h = elim (Option-cases (cache_slot_name c.to)) [
  | inl bad ↦ cc (rw bad at h)
  | inr (n, good) ↦ (c, refl, good ∙ ap some ((eq_iff n name).0 (ground (arith, rw good at h))))
]

StoresAs-slot_list :
    (m : Option Cache) (name : String)
    → StoresAs m name
    → contains name (slot_list (slot_of m)) ≡ true
unfolding cache_slot_name
StoresAs-slot_list m name (c, has, slot) = rw (has, slot, eq_refl)

-- dropAuthCaches and applyOAuth2 pick the same grant.
grant_cache-grant_of :
    (o : Oauth2Auth) (g : Grant) → grant_of o ≡ some g → grant_cache o ≡ grant_cache_of g
unfolding grant_cache_of
grant_cache-grant_of o g h = elim (Option-cases o.client_credentials) [
  | inr (k, set_here) ↦
      let e : TokenForm.cc k ≡ g = cc (rw set_here at h) in rw set_here (ap grant_cache_of e)
  | inl unset ↦ elim (Option-cases o.password_grant) [
    | inr (k, set_here) ↦
        let e : TokenForm.pg k ≡ g = cc (rw (unset, set_here) at h) in
        rw (unset, set_here) (ap grant_cache_of e)
    | inl none_set ↦ cc (rw (unset, none_set) at h)
  ]
]

grant_of_cache :
    (o : Oauth2Auth) (c : Cache)
    → grant_cache o ≡ some c
    → (g : Grant) × (grant_of o ≡ some g) × (grant_cache_of g ≡ some c)
unfolding grant_cache_of
grant_of_cache o c h = elim (Option-cases o.client_credentials) [
  | inr (k, set_here) ↦ (TokenForm.cc k, rw set_here, rw set_here at h)
  | inl unset ↦ elim (Option-cases o.password_grant) [
    | inr (k, set_here) ↦ (TokenForm.pg k, rw (unset, set_here), rw (unset, set_here) at h)
    | inl none_set ↦ cc (rw (unset, none_set) at h)
  ]
]

auth_slots-oauth2 : (o : Oauth2Auth) → auth_slots (oauth2 o) ≡ slot_list (slot_of (grant_cache o))
unfolding auth_slots
auth_slots-oauth2 o = as_slot_list (slot_of (grant_cache o))
  where
    as_slot_list : (m : Option String) → (elim m [ none ↦ [] | some n ↦ n ∷ [] ]) ≡ slot_list m
    as_slot_list none = refl
    as_slot_list (some n) = refl

mutual
  unfolding auth_slots branch_slots

  Reaches-auth_slots :
      (g : Grant) (name : String)
      → StoresAs (grant_cache_of g) name
      → {a : Auth} → Reaches g a
      → contains name (auth_slots a) ≡ true
  Reaches-auth_slots g name st (grant o picks) =
      ap (contains name) (auth_slots-oauth2 o)
      ∙ ap (λ m. contains name (slot_list (slot_of m))) (grant_cache-grant_of o g picks)
      ∙ StoresAs-slot_list (grant_cache_of g) name st
  Reaches-auth_slots g name st {a = multi_mode bs d} (in_branch r) =
      left_of name (branch_slots bs) (auth_slots d) (Reaches-branch_slots g name st r)
  Reaches-auth_slots g name st {a = multi_mode bs d} (in_default r) =
      right_of name (branch_slots bs) (auth_slots d) (Reaches-auth_slots g name st r)

  Reaches-branch_slots :
      (g : Grant) (name : String)
      → StoresAs (grant_cache_of g) name
      → {bs : AuthBranches} → BranchReaches g bs
      → contains name (branch_slots bs) ≡ true
  Reaches-branch_slots g name st {bs = branch p a bs} (here r) =
      left_of name (auth_slots a) (branch_slots bs) (Reaches-auth_slots g name st r)
  Reaches-branch_slots g name st {bs = branch p a bs} (there r) =
      right_of name (auth_slots a) (branch_slots bs) (Reaches-branch_slots g name st r)

abbrev InAuth : String → Auth → Type 0
InAuth name a = (g : Grant) × Reaches g a × StoresAs (grant_cache_of g) name

abbrev InBranches : String → AuthBranches → Type 0
InBranches name bs = (g : Grant) × BranchReaches g bs × StoresAs (grant_cache_of g) name

in_grant : (o : Oauth2Auth) (name : String) → StoresAs (grant_cache o) name → InAuth name (oauth2 o)
in_grant o name (c, has, slot) =
    let (g, picks, same) = grant_of_cache o c has in (g, grant o picks, (c, same, slot))

mutual
  unfolding auth_slots branch_slots

  auth_slots-InAuth :
      (name : String) (a : Auth) → contains name (auth_slots a) ≡ true → InAuth name a
  auth_slots-InAuth name no_variant h = cc
  auth_slots-InAuth name no_auth h = cc
  auth_slots-InAuth name (bearer token) h = cc
  auth_slots-InAuth name (basic username password) h = cc
  auth_slots-InAuth name (api_key header v in_query) h = cc
  auth_slots-InAuth name (custom header v) h = cc
  auth_slots-InAuth name (sigv4 v) h = cc
  auth_slots-InAuth name (oauth2 o) h =
      in_grant o name (
        slot_list-StoresAs (grant_cache o) name
          (ap (contains name) (sym (auth_slots-oauth2 o)) ∙ h))
  auth_slots-InAuth name (multi_mode bs d) h =
      elim (either_of name (branch_slots bs) (auth_slots d) h) [
        | inl left ↦ let (g, r, st) = branch_slots-InBranches name bs left in (g, in_branch r, st)
        | inr right ↦ let (g, r, st) = auth_slots-InAuth name d right in (g, in_default r, st)
      ]

  branch_slots-InBranches :
      (name : String) (bs : AuthBranches)
      → contains name (branch_slots bs) ≡ true
      → InBranches name bs
  branch_slots-InBranches name end h = cc
  branch_slots-InBranches name (branch p a bs) h =
      elim (either_of name (auth_slots a) (branch_slots bs) h) [
        | inl left ↦ let (g, r, st) = auth_slots-InAuth name a left in (g, here r, st)
        | inr right ↦ let (g, r, st) = branch_slots-InBranches name bs right in (g, there r, st)
      ]

request_slots-cons :
    (r : Request) (rs : List Request)
    → request_slots (r ∷ rs) ≡ slot_list (slot_of r.cache) ++ request_slots rs
unfolding request_slots
request_slots-cons r rs = elim (Option-cases (slot_of r.cache)) [
  | inl unset ↦ rw (unset, request_slots)
  | inr (n, found) ↦ rw (found, request_slots)
]

abbrev InRequests : String → List Request → Type 0
InRequests name rs = (i : ℕ) × (r : Request) × (get_elem? rs i ≡ some r) × StoresAs r.cache name

InRequests-request_slots :
    (name : String) (rs : List Request) (i : ℕ) (r : Request)
    → get_elem? rs i ≡ some r
    → StoresAs r.cache name
    → contains name (request_slots rs) ≡ true
InRequests-request_slots name [] i r at st = cc
InRequests-request_slots name (q ∷ rs) zero r at st =
    let same : q ≡ r = cc in
    ap (contains name) (request_slots-cons q rs)
    ∙ left_of name (slot_list (slot_of q.cache)) (request_slots rs) (
        ap (λ (x : Request). contains name (slot_list (slot_of x.cache))) same
        ∙ StoresAs-slot_list r.cache name st)
InRequests-request_slots name (q ∷ rs) (suc i) r at st =
    ap (contains name) (request_slots-cons q rs)
    ∙ right_of name (slot_list (slot_of q.cache)) (request_slots rs)
        (InRequests-request_slots name rs i r at st)

request_slots-InRequests :
    (name : String) (rs : List Request)
    → contains name (request_slots rs) ≡ true
    → InRequests name rs
unfolding request_slots
request_slots-InRequests name [] h = cc
request_slots-InRequests name (q ∷ rs) h =
    elim (either_of name (slot_list (slot_of q.cache)) (request_slots rs)
      (ap (contains name) (sym (request_slots-cons q rs)) ∙ h)) [
        | inl left ↦ (0, q, refl, slot_list-StoresAs q.cache name left)
        | inr right ↦
            let (i, r, at, st) = request_slots-InRequests name rs right in (suc i, r, at, st)
      ]

module _ (doc : Doc) (name : String) where
  abbrev pub reached : List String
  reached = auth_slots doc.auth ++ request_slots doc.requests

  pub Used-reached : Used doc name → contains name reached ≡ true
  Used-reached (inl (g, r, st)) =
      left_of name (auth_slots doc.auth) (request_slots doc.requests)
        (Reaches-auth_slots g name st r)
  Used-reached (inr (i, r, at, st)) =
      right_of name (auth_slots doc.auth) (request_slots doc.requests)
        (InRequests-request_slots name doc.requests i r at st)

  pub reached-Used : contains name reached ≡ true → Used doc name
  reached-Used h = elim (either_of name (auth_slots doc.auth) (request_slots doc.requests) h) [
    | inl left ↦ inl (auth_slots-InAuth name doc.auth left)
    | inr right ↦ inr (request_slots-InRequests name doc.requests right)
  ]

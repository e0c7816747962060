-- ===== src/Schema/Validation/Auth.antt =====
-- checkAuth, checkSigV4, checkOAuth2, checkMultiMode and checkCache of schema/validate.go.
use skopos.Base.{
  ℕ, suc, ℤ, String, Bool, true, false, not, ◌&&◌, ◌||◌, List, [], ◌∷◌, ◌++◌, Option, none, some,
  ◌==◌, if◌then◌else◌,
}
use skopos.Schema.Path.{RefPath, is_empty}
use skopos.Schema.Value.{Value}
use skopos.Schema.Doc.{
  Auth, AuthBranches, no_variant, no_auth, bearer, basic, api_key, custom, oauth2, sigv4,
  multi_mode, end, branch, Sigv4Auth, Oauth2Auth, ClientCredentialsGrant, PasswordGrant, Cache,
}
use skopos.Schema.Validation.Diag.{Diagnostic, errorf, Context, ◌/+◌, at}
use skopos.Schema.Validation.Values.{is_absent, check_value, check_predicate}

-- The test on cache.to: exactly cache.<name>, with a name.
abbrev pub check_cache_parts : String → List String → List Diagnostic
check_cache_parts path (root ∷ name ∷ []) =
    if root == "cache"
    then (if name == "" then errorf path "cache slot name is required" else [])
    else errorf path "to must be cache.<name>"
check_cache_parts path parts = errorf path "to must be cache.<name>"

abbrev pub check_cache_to : String → RefPath → List Diagnostic
check_cache_to path p =
    if is_empty p then errorf path "to is required" else check_cache_parts path p.parts

abbrev pub check_duration : String → Option ℤ → List Diagnostic
check_duration path none = errorf path "buffer is not a valid Go duration"
check_duration path (some d) = []

-- What a value that must be given is checked for.
abbrev pub check_required : String → String → Value → Context → List Diagnostic
check_required path message v sc =
    if is_absent v then errorf path message else check_value path v sc

abbrev pub check_given : String → Option Value → Context → List Diagnostic
check_given path none sc = []
check_given path (some v) sc = check_value path v sc

abbrev is_given : Option Value → Bool
is_given none = false
is_given (some v) = true

-- The auth of a branch, with what checkAuth says of it.
abbrev pub check_arm : String → Auth → List Diagnostic → List Diagnostic
check_arm path (multi_mode bs d) checked = errorf path "nested multi_mode is not allowed"
check_arm path a checked = checked

-- The default arm, likewise.
abbrev pub check_default : String → Auth → List Diagnostic → List Diagnostic
check_default path no_variant checked = errorf path "default is required"
check_default path (multi_mode bs d) checked = errorf path "nested multi_mode is not allowed"
check_default path a checked = checked

abbrev header_required : String → String → List Diagnostic
header_required path header = if header == "" then errorf path "header is required" else []

-- time.ParseDuration is the argument.
module _ (parse_duration : String → Option ℤ) where
  abbrev check_buffer : String → String → List Diagnostic
  check_buffer path buffer =
      if buffer == ""
      then errorf path "buffer is required"
      else check_duration path (parse_duration buffer)

  -- checkCache, where there is a block
  unfoldable pub check_cache : String → Cache → Context → List Diagnostic
  unfolding is_empty check_value
  check_cache path c sc =
      check_cache_to (path /+ ".to") c.to
      ++ check_required (path /+ ".expires_at") "expires_at is required" c.expires_at sc
      ++ check_buffer (path /+ ".buffer") c.buffer

  abbrev pub check_optional_cache : String → Option Cache → Context → List Diagnostic
  check_optional_cache path none sc = []
  check_optional_cache path (some c) sc = check_cache path c sc

  abbrev check_client_credentials :
      String → Option ClientCredentialsGrant → Context → List Diagnostic
  check_client_credentials p none sc = []
  check_client_credentials p (some g) sc =
      check_value (p /+ ".token_url") g.token_url sc
      ++ check_value (p /+ ".client_id") g.client_id sc
      ++ check_value (p /+ ".client_secret") g.client_secret sc
      ++ check_optional_cache (p /+ ".cache") g.cache sc

  abbrev check_password_grant : String → Option PasswordGrant → Context → List Diagnostic
  check_password_grant p none sc = []
  check_password_grant p (some g) sc =
      check_value (p /+ ".token_url") g.token_url sc
      ++ check_value (p /+ ".username") g.username sc
      ++ check_value (p /+ ".password") g.password sc
      ++ check_given (p /+ ".client_id") g.client_id sc
      ++ check_optional_cache (p /+ ".cache") g.cache sc

  -- checkOAuth2: exactly one grant, or one error.
  unfoldable pub check_oauth2 : String → Oauth2Auth → Context → List Diagnostic
  unfolding check_value check_cache
  check_oauth2 path o sc = elim o.client_credentials [
    | none ↦ elim o.password_grant [
      | none ↦ errorf path "oauth2 block must contain exactly one grant type"
      | some g ↦ check_password_grant (path /+ ".password_grant") (some g) sc
    ]
    | some g ↦ elim o.password_grant [
      | none ↦ check_client_credentials (path /+ ".client_credentials") (some g) sc
      | some h ↦ errorf path "oauth2 block must contain exactly one grant type; found two"
    ]
  ]

  -- checkSigV4
  unfoldable pub check_sigv4 : String → Sigv4Auth → Context → List Diagnostic
  unfolding check_value
  check_sigv4 path a sc =
      let has_id = is_given a.access_key_id in
      let has_secret = is_given a.secret_access_key in
      check_value (path /+ ".region") a.region sc
      ++ check_value (path /+ ".service") a.service sc
      ++ (if (has_id && not has_secret) || (has_secret && not has_id)
          then errorf path "access_key_id and secret_access_key must be set together"
          else [])
      ++ (if is_given a.session_token && (not has_id || not has_secret)
          then errorf (path /+ ".session_token") "session_token requires the key pair"
          else [])
      ++ check_given (path /+ ".access_key_id") a.access_key_id sc
      ++ check_given (path /+ ".secret_access_key") a.secret_access_key sc
      ++ check_given (path /+ ".session_token") a.session_token sc

  unfoldable mutual
    unfolding check_value check_predicate check_oauth2 check_sigv4 at

    -- checkAuth
    pub check_auth : String → Auth → Context → List Diagnostic
    check_auth path no_variant sc = errorf path "auth block must have exactly one variant"
    check_auth path no_auth sc = []
    check_auth path (bearer token) sc = check_value (path /+ ".bearer.token") token sc
    check_auth path (basic username password) sc =
        check_value (path /+ ".basic.username") username sc
        ++ check_value (path /+ ".basic.password") password sc
    check_auth path (api_key header v in_query) sc =
        header_required (path /+ ".api_key.header") header
        ++ check_value (path /+ ".api_key.value") v sc
    check_auth path (custom header v) sc =
        header_required (path /+ ".custom.header") header
        ++ check_value (path /+ ".custom.value") v sc
    check_auth path (oauth2 o) sc = check_oauth2 (path /+ ".oauth2") o sc
    check_auth path (sigv4 a) sc = check_sigv4 (path /+ ".sigv4") a sc
    check_auth path (multi_mode bs d) sc =
        check_multi_branches (path /+ ".multi_mode") bs
        ++ check_auth_branches (path /+ ".multi_mode.branches") 0 bs sc
        ++ check_default (path /+ ".multi_mode.default") d
            (check_auth (path /+ ".multi_mode.default") d sc)

    -- len(m.Branches) == 0
    pub check_multi_branches : String → AuthBranches → List Diagnostic
    check_multi_branches path end =
        errorf (path /+ ".branches") "multi_mode requires at least one branch"
    check_multi_branches path (branch p a bs) = []

    -- The loop of checkMultiMode.
    pub check_auth_branches : String → ℕ → AuthBranches → Context → List Diagnostic
    check_auth_branches path i end sc = []
    check_auth_branches path i (branch p a bs) sc =
        check_predicate (at path i /+ ".when") p sc
        ++ check_arm (at path i /+ ".auth") a (check_auth (at path i /+ ".auth") a sc)
        ++ check_auth_branches path (suc i) bs sc

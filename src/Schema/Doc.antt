-- ===== src/Schema/Doc.antt =====
-- schema/schema.go and schema/decode.go: the blocks of a document that the client interprets.
use skopos.Base.{
  ℕ, ℤ, String, Bool, true, false, List, [], ◌∷◌, Option, Dict, nat_beq, if◌then◌else◌,
}
use skopos.Schema.Path.{RefPath}
use skopos.Schema.Value.{Value, Predicate}

pub record FieldDecl : Type 0 where
  pub type_name : String
  pub initial : Option Value
  pub values : List String
  pub format : String

pub record Cache : Type 0 where
  pub to : RefPath
  pub expires_at : Value
  pub buffer : String

pub record ClientCredentialsGrant : Type 0 where
  pub token_url : Value
  pub client_id : Value
  pub client_secret : Value
  pub scopes : List String
  pub audience : String
  pub cache : Option Cache

pub record PasswordGrant : Type 0 where
  pub token_url : Value
  pub username : Value
  pub password : Value
  pub client_id : Option Value
  pub scopes : List String
  pub cache : Option Cache

pub record Oauth2Auth : Type 0 where
  pub client_credentials : Option ClientCredentialsGrant
  pub password_grant : Option PasswordGrant

pub record Sigv4Auth : Type 0 where
  pub region : Value
  pub service : Value
  pub access_key_id : Option Value
  pub secret_access_key : Option Value
  pub session_token : Option Value

-- Auth: the codec sets one variant, `no_variant` is the struct with none.
mutual
  pub data Auth : Type 0 where
    no_variant : Auth
    no_auth : Auth
    bearer : Value → Auth
    basic : Value → Value → Auth
    api_key : String → Value → Bool → Auth
    custom : String → Value → Auth
    oauth2 : Oauth2Auth → Auth
    sigv4 : Sigv4Auth → Auth
    multi_mode : AuthBranches → Auth → Auth

  -- []AuthBranch
  pub data AuthBranches : Type 0 where
    end : AuthBranches
    branch : Predicate → Auth → AuthBranches → AuthBranches

pub record ExtractVar : Type 0 where
  pub to : RefPath
  pub from : RefPath
  pub coerce : String
  pub regex : String

pub record FanOut : Type 0 where
  pub over : Value
  pub alias : String
  pub merge : String

pub data Body : Type 0 where
  json : Dict Value → Body
  form : Dict Value → Body
  raw : Value → Body
  no_variant : Body

pub data DecodeStage : Type 0 where
  gzip : DecodeStage
  zip : String → DecodeStage
  csv : String → DecodeStage
  json : DecodeStage
  ndjson : DecodeStage
  unset : DecodeStage

abbrev is_row_stage : DecodeStage → Bool
is_row_stage (csv h) = true
is_row_stage ndjson = true
is_row_stage s = false

-- IsRowOriented: the terminal stage, the last of the chain, is csv or ndjson.
unfoldable pub is_row_oriented : List DecodeStage → Bool
is_row_oriented [] = false
is_row_oriented (s ∷ []) = is_row_stage s
is_row_oriented (s ∷ t ∷ c) = is_row_oriented (t ∷ c)

pub record Request : Type 0 where
  pub id : String
  pub method : String
  pub url : Value
  pub query : Dict Value
  pub headers : Dict Value
  pub body : Option Body
  -- `none` is an omitted chain, which is not an explicit empty one.
  pub decode : Option (List DecodeStage)
  pub extract : List ExtractVar
  pub fan_out : Option FanOut
  pub expect_status : List ℕ
  pub gate : Option Predicate
  pub terminate_when : Option Predicate
  pub on_status : List (ℕ × String)
  pub events_at : Option RefPath
  pub cache : Option Cache

-- {to, from, coerce, regex}: AdvanceWrite and ProgressWrite, which have the same fields.
pub record Write : Type 0 where
  pub to : RefPath
  pub from : Value
  pub coerce : String
  pub regex : String

pub record CursorTokenPagination : Type 0 where
  pub from : RefPath
  pub to : RefPath
  pub terminate_when : Option Predicate

pub record NextUrlPagination : Type 0 where
  pub from : RefPath
  pub to : RefPath
  pub regex : String
  pub capture : ℤ
  pub terminate_when : Option Predicate

pub record CounterPagination : Type 0 where
  pub to : RefPath
  pub start : Option Value
  pub step : Option Value
  pub terminate_when : Option Predicate

pub record CustomPagination : Type 0 where
  pub advance : List Write
  pub terminate_when : Predicate

pub record Pagination : Type 0 where
  pub single_page : Bool
  pub cursor_token : Option CursorTokenPagination
  pub next_url : Option NextUrlPagination
  pub counter : Option CounterPagination
  pub custom : Option CustomPagination

pub record ErrorBlock : Type 0 where
  pub mode : String
  pub include_body : Bool

pub record Doc : Type 0 where
  pub ir_version : String
  pub state : Dict FieldDecl
  pub auth : Auth
  pub requests : List Request
  pub pagination : Pagination
  pub progress : List Write
  pub error : Option ErrorBlock

-- req.OnStatus[code]: the empty string for a code that is not a key.
unfoldable pub on_status_action : ℕ → List (ℕ × String) → String
on_status_action code [] = ""
on_status_action code ((c, action) ∷ rest) =
    if nat_beq c code then action else on_status_action code rest

-- ===== src/Client/Wire.antt =====
-- What client/http.go, client/auth.go, client/cache.go and client/sigv4.go take from outside: the
-- network, and the packages of Go's standard library and of the AWS SDK whose inner working they do
-- not rely on.
use skopos.Base.{ℕ, ℤ, String, Bool, List, Option, Dict, Result}
use skopos.Any.{Any}
use skopos.Client.Scope.{Header}

-- url.Values
abbrev pub Values : Type 0
Values = Dict (List String)

-- url.URL: all in front of the query in one part, and RawQuery.
pub record Url : Type 0 where
  pub base : String
  pub raw_query : String

-- http.Request. Every body is a string in memory.
pub record HttpRequest : Type 0 where
  pub method : String
  pub url : Url
  pub header : Header
  pub body : Option String

-- io.Reader: what it delivers, and whether it then fails instead of ending.
pub record Reader : Type 0 where
  pub content : String
  pub fails : Bool

-- http.Response
pub record HttpResponse : Type 0 where
  pub status : ℕ
  pub header : Option Header
  pub body : Reader

-- zip.File: `content` is `none` where Open fails.
pub record ZipFile : Type 0 where
  pub name : String
  pub is_dir : Bool
  pub content : Option Reader

-- aws.Credentials
pub record Credentials : Type 0 where
  pub access_key_id : String
  pub secret_access_key : String
  pub session_token : String

-- `none` is an error, and so is a Bool that is true beside a list: what was read before it.
pub record Wire : Type 0 where
  -- client.Do at the n-th exchange of the drain, and the clock's reading after n exchanges
  pub send : ℕ → HttpRequest → Option HttpResponse
  pub clock : ℕ → ℤ
  -- url.Parse, u.Query, q.Encode, and the URL of http.NewRequest for a method and a URL's text
  pub parse_url : String → Option Url
  pub parse_query : String → Values
  pub encode_query : Values → String
  pub url_string : Url → String
  pub new_request_url : String → String → Option Url
  -- strings.ToUpper and bytes.TrimSpace
  pub to_upper : String → String
  pub trim_space : String → String
  -- json.Unmarshal into an any, json.Marshal
  pub parse_json : String → Option Any
  pub marshal_json : Any → Option String
  -- gzip.NewReader, the lines of a bufio.Scanner with 16 MiB of buffer, the records of a csv.Reader,
  -- zip.NewReader, path.Match and path.Base
  pub gunzip : Reader → Option Reader
  pub scan_lines : Reader → List String × Bool
  pub read_csv : Reader → List (List String) × Bool
  pub open_zip : String → Option (List ZipFile)
  pub match_glob : String → String → Option Bool
  pub base_name : String → String
  -- the AWS SDK: a static and the ambient credentials provider, and Signer.SignHTTP, with the number
  -- of exchanges made; and the hex of a SHA-256
  pub static_credentials : String → String → String → Result Credentials
  pub ambient_credentials : ℕ → Result Credentials
  pub sign_http : ℕ → Credentials → HttpRequest → String → String → String → Option HttpRequest
  pub sha256_hex : String → String

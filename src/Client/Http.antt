-- ===== src/Client/Http.antt =====
-- executeRequest of client/http.go, with no trace attached.
pub mod Frame
pub mod Laws
pub mod Reads
mod Tests
use Prim.Native.String
use skopos.Base.{
  ℕ, String, Bool, true, false, List, [], ◌∷◌, Option, none, some, Dict, insert, nat_beq, ◌==◌,
  if◌then◌else◌, Result, ok, err, msg, wrap, unexpected_status, context, Error,
}
use skopos.Any.{
  Any, nil, str, time, list, object, of_dict, is_nil, Elems, end, cons, Entries, done, entry,
}
use skopos.Schema.Value.{Value}
use skopos.Schema.Doc.{Doc, Request, Cache, Body, json, form, raw, no_variant}
use skopos.Client.Platform.{Platform}
use skopos.Client.Coerce.{to_string, or_fail}
use skopos.Client.Scope.{Scope, Header}
use skopos.Client.Eval.{eval_value}
use skopos.Client.Exec.{Exec, pure, raise, reads, labelled, ◌>>=◌, ◌>>◌}
use skopos.Client.Extract.{StepResult}
use skopos.Client.Cache.{cache_get}
use skopos.Client.Wire.{Wire, Values, Url, HttpRequest, HttpResponse}
use skopos.Client.Decode.{effective_decode, decode_chain}
use skopos.Client.TokenForm.{eval_text}
use skopos.Client.Token.{attempt, set_header, send_request, store_with_body}
use skopos.Client.Auth.{text_of, apply_auth}
use skopos.Client.Dispatch.{Environment}

-- jsonifyValue: a copy.
unfoldable mutual
  pub jsonify_value : Any → Any
  jsonify_value (list vs) = list (jsonify_elems vs)
  jsonify_value (object m) = object (jsonify_entries m)
  jsonify_value v = v

  pub jsonify_elems : Elems → Elems
  jsonify_elems end = end
  jsonify_elems (cons v vs) = cons (jsonify_value v) (jsonify_elems vs)

  pub jsonify_entries : Entries → Entries
  jsonify_entries done = done
  jsonify_entries (entry k v m) = entry k (jsonify_value v) (jsonify_entries m)

-- slices.Contains(expect, status)
abbrev pub contains_status : List ℕ → ℕ → Bool
contains_status [] status = false
contains_status (c ∷ cs) status = if nat_beq c status then true else contains_status cs status

-- expectStatusOK
unfoldable pub expect_status_ok : List ℕ → ℕ → Bool
expect_status_ok [] status = nat_beq status 200
expect_status_ok (c ∷ cs) status = contains_status (c ∷ cs) status

module _ (platform : Platform) (w : Wire) where
  -- buildURL
  unfoldable pub build_url : Value → Exec Url
  unfolding eval_value to_string
  build_url v = do text ← text_of platform w "url" v; attempt "url.Parse" (w.parse_url text)

  abbrev set_query : String → Any → Values → Values
  set_query k got q = if is_nil got then q else insert k (to_string platform got ∷ []) q

  -- The loop over req.Query: a nil sets nothing.
  unfoldable pub eval_query : Dict Value → Values → Exec Values
  unfolding eval_value to_string insert
  eval_query [] q = pure q
  eval_query ((k, v) ∷ more) q = do
    got ← reads (λ s. context "query" (eval_value platform s v))
    eval_query more (set_query k got q)

  -- The loop over req.Headers.
  unfoldable pub eval_headers : Dict Value → Header → Exec Header
  unfolding eval_value to_string insert
  eval_headers [] h = pure h
  eval_headers ((k, v) ∷ more) h = do
    t ← text_of platform w "headers" v
    eval_headers more (set_header platform k t h)

  -- The loop over b.JSON.
  unfoldable pub eval_json : Dict Value → Exec (Dict Any)
  unfolding eval_value jsonify_value
  eval_json [] = pure []
  eval_json ((k, v) ∷ more) = do
    got ← reads (λ s. context "body.json" (eval_value platform s v))
    rest ← eval_json more
    pure ((k, jsonify_value got) ∷ rest)

  -- The loop over b.Form.
  unfoldable pub eval_form : Dict Value → Values → Exec Values
  unfolding eval_value to_string insert
  eval_form [] vals = pure vals
  eval_form ((k, v) ∷ more) vals = do
    t ← text_of platform w "body.form" v
    eval_form more (insert k (t ∷ []) vals)

  -- buildBody: the body and its content type.
  unfoldable pub build_body : Body → Exec (String × String)
  unfolding eval_json eval_form eval_value to_string
  build_body (json fields) = do
    out ← eval_json fields
    t ← attempt "body.json marshal" (w.marshal_json (object (of_dict out)))
    pure (t, "application/json")
  build_body (form fields) = do
    vals ← eval_form fields []
    pure (w.encode_query vals, "application/x-www-form-urlencoded")
  build_body (raw v) = do t ← text_of platform w "body.raw" v; pure (t, "")
  build_body no_variant = raise (msg "body: no variant set")

  abbrev pub optional_body : Option Body → Exec (Option String × String)
  optional_body none = pure (none, "")
  optional_body (some b) = do (t, kind) ← labelled "body" (build_body b); pure (some t, kind)

  -- http.MethodGet where the method is empty
  abbrev pub method_of : Request → String
  method_of req = let upper = w.to_upper req.method in if upper == "" then "GET" else upper

  abbrev pub content_type : String → Header → Header
  content_type kind h = if kind == "" then h else set_header platform "Content-Type" kind h

  abbrev pub accepts : Header → Header
  accepts h =
      set_header platform "Accept" "application/json, application/x-ndjson;q=0.9, */*;q=0.1" h

  -- The request up to client.Do: URL, query, body, headers, credentials.
  unfoldable pub build_request : Doc → Request → Exec HttpRequest
  unfolding build_url eval_query build_body eval_headers apply_auth
  build_request doc req = do
    u ← labelled "url" (build_url req.url)
    q ← eval_query req.query (w.parse_query u.raw_query)
    (body, kind) ← optional_body req.body
    target ← attempt "http.NewRequest" (
        w.new_request_url (method_of req)
          (w.url_string (record u { raw_query = w.encode_query q })))
    h ← eval_headers req.headers (accepts (content_type kind []))
    labelled "auth" (
        apply_auth platform w doc.auth
          (record { method = method_of req; url = target; header = h; body = body }))

  abbrev pub store_response : Option Cache → Any → Exec (Unit {0})
  store_response none body = pure tt
  store_response (some c) body = store_with_body platform w "cache" c body body

  -- The response: its status before its body, then the cache slot.
  unfoldable pub accept_response : Request → HttpResponse → Exec StepResult
  unfolding decode_chain effective_decode store_with_body
  accept_response req resp =
      if expect_status_ok req.expect_status resp.status
      then (do
        body ← reads (λ s. context "decode" (decode_chain w (effective_decode req) resp.body))
        store_response req.cache body
        pure (record { headers = resp.header; body = body }))
      else raise (unexpected_status resp.status)

  -- executeRequest behind its look at the cache
  unfoldable pub exchange : Doc → Request → Exec StepResult
  unfolding build_request send_request accept_response
  exchange doc req = do
    r ← build_request doc req
    resp ← send_request platform w "http.Do" r
    accept_response req resp

  abbrev pub cached_body : Option Cache → Scope → Option Any
  cached_body none s = none
  cached_body (some c) s = cache_get platform c s

  -- executeRequest
  unfoldable pub execute_request : Doc → Request → Exec StepResult
  unfolding exchange cache_get
  execute_request doc req s = elim (cached_body req.cache s) [
    | some v ↦ (ok (record { headers = none; body = v }), s)
    | none ↦ exchange doc req s
  ]

  -- The environment of a drain with this executor.
  abbrev pub wired : Doc → (ℕ → Option Error) → (ℕ → Option Error) → Environment
  wired doc ctx_err emit_error = record {
    execute_request = execute_request doc;
    ctx_err = ctx_err;
    emit_error = emit_error;
  }

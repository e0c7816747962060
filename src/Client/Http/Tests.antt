-- ===== src/Client/Http/Tests.antt =====
-- A page that is requested, cached and read back.
use skopos.Base.{
  suc, ℕ, ◌+◌, ◌≤◌, ◌≡◌, ◌⊎◌, refl, true, [], ◌∷◌, none, some, ℤ, pos, ◌+ℤ◌, ltb_ℤ, ok,
  if◌then◌else◌,
}
use skopos.Any.{Any, list, of_list, time}
use skopos.Schema.Doc.{Request}
use skopos.Client.Scope.{Scope}
use skopos.Client.Eval.{eval_value}
use skopos.Client.Extract.{StepResult}
use skopos.Client.Cache.{cache_get, coerce_cache_expiry}
use skopos.Client.Wire.{HttpRequest, HttpResponse}
use skopos.Client.Decode.{decode_chain, effective_decode}
use skopos.Client.Http.{build_request, expect_status_ok, exchange, execute_request, cached_body}
use skopos.Client.Http.Frame.{Framed, execute_request-Framed}
use skopos.Client.Token.Laws.{sent}
use skopos.Client.Http.Laws.{execute_request-accepted, execute_request-reused}
use skopos.Client.Samples.{platform, wire, doc, request, scope, events, cache_block}

abbrev cached_request : Request
cached_request = record request { cache = some cache_block }

abbrev page_body : Any
page_body = list (of_list events)

abbrev result : StepResult
result = record { headers = some []; body = page_body }

abbrev left : Scope
left = record scope {
  cache = ("token", page_body) ∷ ("__exp_token", time (pos 3601000000000)) ∷ [];
  now = pos 1000000000;
  exchanges = 1;
}

exchanges_once : execute_request platform wire doc cached_request scope ≡ (ok result, left)
unfolding execute_request expect_status_ok
exchanges_once = refl

misses : cached_body platform wire cached_request.cache scope ≡ none
unfolding cache_get
misses = refl

execute_request-Framed_example :
    Framed scope (execute_request platform wire doc cached_request scope).1
execute_request-Framed_example = execute_request-Framed platform wire doc cached_request scope

execute_request-accepted_example :
    ((cached_body platform wire cached_request.cache scope ≡ some page_body)
      × (result.headers ≡ none)
      × (left ≡ scope))
    ⊎ ((n : ℕ) × (r : HttpRequest) × (resp : HttpResponse) × (wire.send n r ≡ some resp)
        × (scope.exchanges ≤ n)
        × (n + 1 ≡ left.exchanges)
        × (expect_status_ok cached_request.expect_status resp.status ≡ true)
        × (decode_chain wire (effective_decode cached_request) resp.body ≡ ok page_body)
        × (result.headers ≡ resp.header))
execute_request-accepted_example =
    execute_request-accepted platform wire doc cached_request scope left result exchanges_once

execute_request-reused_example :
    (r : HttpRequest) × (t : Scope) × (raw : Any) × (expiry : ℤ) × (build_request platform wire doc
        cached_request scope
      ≡ (ok r, t))
    × (eval_value platform (record (sent wire t) { body = page_body }) cache_block.expires_at
        ≡ ok raw)
    × (coerce_cache_expiry platform raw (wire.clock (suc t.exchanges)) ≡ ok expiry)
    × (let after : Scope = record left { now = pos 2000 } in
        execute_request platform wire doc cached_request after ≡ (
          if ltb_ℤ (pos 2000 +ℤ pos 60000000000) expiry
          then (ok (record { headers = none; body = page_body }), after)
          else exchange platform wire doc cached_request after))
execute_request-reused_example =
    execute_request-reused platform wire doc cached_request cache_block scope left result (pos 2000)
      (pos 60000000000) refl refl misses exchanges_once

-- ===== src/Client/Runner/Wired.antt =====
-- A drain whose requests are executed over the wire.
use skopos.Base.{ℕ, ◌≤◌, ◌<◌, ◌≡◌, ◌≢◌, ap, ℤ, Option, none, some, Error, arith}
use skopos.Schema.Doc.{Doc, Request}
use skopos.Client.Platform.{Platform}
use skopos.Client.Scope.{Scope}
use skopos.Client.Wire.{Wire}
use skopos.Client.Http.{wired, execute_request}
use skopos.Client.Http.Frame.{execute_request-Framed}
use skopos.Client.Runner.{Endpoints, page_cap, drain, out_of_fuel}
use skopos.Client.Runner.Laws.{drain_total}

module _ (platform : Platform) (w : Wire) (doc : Doc) where
  executor_steady :
      (req : Request) (s : Scope) → s.checks ≤ (execute_request platform w doc req s).1.checks
  executor_steady req s =
      let f = execute_request-Framed platform w doc req s in
      omega (arith, ap (λ (t : Scope). t.checks) f.same)

  -- A drain over any network and clock ends with a result, and not out of fuel: where the context
  -- reports its end from the call `limit` of ctx.Err on, the fuel exceeds `limit`, and MaxPages gives
  -- a cap that the rounds exceed.
  pub drain-wired_total :
      (ends : Endpoints) (ctx_err emit_error : ℕ → Option Error) (limit cap rounds fuel : ℕ)
      (max_pages now : ℤ)
      → ((n : ℕ) → limit ≤ n → ctx_err n ≢ none)
      → limit < fuel
      → page_cap max_pages ≡ some cap
      → cap < rounds
      → (drain platform
          (wired platform w doc ctx_err emit_error)
          ends
          doc
          rounds
          fuel
          max_pages
          now).result
        ≢ out_of_fuel
  drain-wired_total ends ctx_err emit_error limit cap rounds fuel max_pages now ended enough capped
        room =
      drain_total platform (wired platform w doc ctx_err emit_error) ends doc limit cap rounds fuel
        max_pages now ended executor_steady enough capped room

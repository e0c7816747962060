-- ===== src/Client/Runner/Effects.antt =====
-- What a whole drain does to the sink and the store.
use skopos.Base.{
  ℕ, ◌≡◌, ◌⊎◌, refl, ◌++◌, inl, inr, List, [], ◌∷◌, map, Dict, ℤ, some, none, ok, Error,
  Result-cases,
}
use skopos.Any.{Any}
use skopos.Schema.Doc.{Doc}
use skopos.Client.Platform.{Platform}
use skopos.Client.Scope.{Scope}
use skopos.Client.Lifetime.{new_scope, snapshot, reset_per_drain_scratch}
use skopos.Client.Pagination.{Plan, make_pagination_plan}
use skopos.Client.Dispatch.{Environment}
use skopos.Client.Runner.{
  Drain, Pass, again, out_of_fuel, returned, drain_body, page_cap, Endpoints, teardown, drain,
  emitted, flushed, saved,
}
use skopos.Client.Runner.Pages.{Ran, LastPage, drain_loop-delivered}

-- The drain of a scope that no page has been read into.
abbrev pub unread : Scope → Drain
unread s = record { scope = s; pages = 0; delivered = [] }

-- How the body of a drain over `s` ends: before its first page, with an error and in the scope that
-- the wipe left, or by the loop over the pages behind the wipe.
abbrev pub BodyEnds : Platform → Environment → Doc → ℕ → Scope → Pass × Drain → Type 0
BodyEnds platform env doc fuel s after =
    ((x : Error) × (after.0 ≡ returned (some x))
      × (after.1 ≡ unread (reset_per_drain_scratch platform doc s).1))
    ⊎ ((plan : Plan) × (t : Scope) × (evs : List Any) × (e : Drain) × (make_pagination_plan
            doc.pagination
          ≡ ok plan)
        × (reset_per_drain_scratch platform doc s ≡ (ok tt, t))
        × Ran platform env doc fuel plan (unread t) evs e
        × (e.delivered ≡ evs)
        × LastPage platform env doc fuel plan e after)

drain_body-ends :
    (platform : Platform) (env : Environment) (doc : Doc) (rounds fuel : ℕ) (max_pages : ℤ)
    (s : Scope)
    → BodyEnds platform env doc fuel s
        (drain_body platform env doc rounds fuel max_pages (unread s))
unfolding drain_body
drain_body-ends platform env doc rounds fuel max_pages s =
    let wiped = reset_per_drain_scratch platform doc s in
    elim (Result-cases wiped.0) [
      | inr (x, failed) ↦ rw (failed, drain_body) (inl (_, refl, refl))
      | inl (u, done) ↦ elim (Result-cases (make_pagination_plan doc.pagination)) [
        | inr (x, failed) ↦ rw (done, failed, drain_body) (inl (_, refl, refl))
        | inl (plan, made) ↦
            let (evs, e, ran, sent, last) =
              drain_loop-delivered platform env doc fuel plan rounds (page_cap max_pages)
                (unread wiped.1) in
            rw (done, made, drain_body) (inr (plan, wiped.1, evs, e, refl, cc, ran, sent, last))
      ]
    ]

teardown-result :
    (ends : Endpoints) (doc : Doc) (p : Pass) (d : Drain)
    → ((teardown ends doc (p, d)).result ≡ p) ⊎ (p ≡ returned none)
unfolding teardown
teardown-result ends doc again d = inl refl
teardown-result ends doc (returned (some e)) d = inl refl
teardown-result ends doc (returned none) d = inr refl
teardown-result ends doc out_of_fuel d = inl refl

-- A drain that cannot start has no effect and returns an error. One that starts hands events over,
-- then flushes the sink once, and then saves once the snapshot of the scope that it ended with. That
-- is the scope behind a failed wipe or plan, with no event handed over, or it comes from a run of pages
-- that each went on to the next, of which all events have gone to the sink in order: as they left it,
-- as the look at the context did behind them, or as one last page did. The events of that page have all
-- gone to the sink behind the others, or it has ended the drain with an error, with no progress written
-- and no advance. The drain's result is the one of its pages, unless they ended without an error.
pub drain-delivered :
    (platform : Platform) (env : Environment) (ends : Endpoints) (doc : Doc) (rounds fuel : ℕ)
    (max_pages now : ℤ)
    → let done = drain platform env ends doc rounds fuel max_pages now in
      ((x : Error) × (done.effects ≡ []) × (done.result ≡ returned (some x)))
      ⊎ ((snap : Dict Any) × (s : Scope) × (after : Pass × Drain) × (ends.loaded ≡ ok snap)
          × (new_scope platform doc snap now ≡ ok s)
          × BodyEnds platform env doc fuel s after
          × (done.effects
              ≡ map emitted after.1.delivered ++ flushed ∷ saved (snapshot doc after.1.scope) ∷ [])
          × ((done.result ≡ after.0) ⊎ (after.0 ≡ returned none)))
unfolding drain teardown
drain-delivered platform env ends doc rounds fuel max_pages now = elim (Result-cases ends.loaded) [
  | inr (e, failed) ↦ rw (failed, drain) (inl (_, refl, refl))
  | inl (snap, loaded) ↦ elim (Result-cases (new_scope platform doc snap now)) [
    | inr (e, failed) ↦ rw (loaded, failed, drain) (inl (_, refl, refl))
    | inl (s, made) ↦
        let body = drain_body platform env doc rounds fuel max_pages (unread s) in
        rw (loaded, made, drain)
          (inr (
            snap,
            s,
            body,
            refl,
            made,
            drain_body-ends platform env doc rounds fuel max_pages s,
            refl,
            teardown-result ends doc body.0 body.1,
          ))
  ]
]

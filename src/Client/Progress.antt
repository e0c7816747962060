-- ===== src/Client/Progress.antt =====
-- client/progress.go, and the writes {to, from, regex, coerce} that client/pagination.go shares.
pub mod Frame
pub mod Laws
mod Tests
use skopos.Base.{
  String, Bool, true, false, List, [], ◌∷◌, Option, none, some, ℤ, pos, Dict, insert, ◌==◌, not,
  ◌&&◌, if◌then◌else◌, Result, ok, err, msg, context, ◌>>=◌,
}
use skopos.Any.{Any, nil, is_nil}
use skopos.Schema.Value.{Value}
use skopos.Schema.Doc.{Write}
use skopos.Client.Platform.{Platform}
use skopos.Client.Coerce.{to_string, apply_format}
use skopos.Client.Scope.{Scope}
use skopos.Client.Eval.{eval_value, apply_regex}
use skopos.Client.Exec.{Exec}
use skopos.Client.Lifetime.{state_field_name}

-- The destinations, and the values that were staged for them, in declared order; a destination that
-- is not state.<name> ends the loop with an error behind the writes before it.
commit_writes : List Write → List Any → Exec (Unit {0})
unfolding state_field_name insert
commit_writes (w ∷ ws) (v ∷ vs) s = elim (state_field_name w.to) [
  | none ↦ (err (msg "to must be state.<name>"), s)
  | some name ↦ commit_writes ws vs (record s { state = insert name v s.state })
]
commit_writes ws vs s = (ok tt, s)

module _ (platform : Platform) where
  -- if regex != "" && got != nil, and the same of coerce
  abbrev pub with_regex : String → ℤ → Any → Result Any
  with_regex pattern capture got =
      if not (pattern == "") && not (is_nil got)
      then apply_regex platform pattern (to_string platform got) capture (ok nil)
      else ok got

  abbrev pub with_coerce : String → Any → Result Any
  with_coerce verb got =
      if not (verb == "") && not (is_nil got) then apply_format platform verb got else ok got

  -- One entry's value, against the scope before any entry is written.
  unfoldable pub stage_write : Scope → Write → Result Any
  unfolding eval_value apply_regex apply_format to_string
  stage_write s w = do
    got ← context "from" (eval_value platform s w.from)
    cut ← context "regex" (with_regex w.regex (pos 0) got)
    context "coerce" (with_coerce w.coerce cut)

  stage_writes : Scope → List Write → Result (List Any)
  unfolding stage_write
  stage_writes s [] = ok []
  stage_writes s (w ∷ ws) = do v ← stage_write s w; vs ← stage_writes s ws; ok (v ∷ vs)

  -- applyProgress, and the tail of customPagination.advance.
  unfoldable pub apply_progress : List Write → Exec (Unit {0})
  unfolding stage_writes commit_writes
  apply_progress writes s = elim (stage_writes s writes) [
    | err e ↦ (err e, s)
    | ok staged ↦ commit_writes writes staged s
  ]

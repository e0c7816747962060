-- ===== src/Client/Progress/Frame.antt =====
-- What a write of state fields leaves alone: every field that no destination names, and the scope
-- beside the state.
use skopos.Base.{
  String, ◌≡◌, refl, sym, ◌∙◌, ap, inl, inr, false, List, [], ◌∷◌, some, lookup, insert,
  lookup-insert, Option-cases, Result-cases,
}
use skopos.Any.{Any}
use skopos.Schema.Path.{RefPath}
use skopos.Schema.Doc.{Write}
use skopos.Client.Platform.{Platform}
use skopos.Client.Scope.{Scope}
use skopos.Client.Exec.{Keeps}
use skopos.Client.Lifetime.{state_field_name, write_targets}
use skopos.Client.Lifetime.Targets.{names_path, names_path_of_target, Untargeted}
use skopos.Client.Progress.{stage_writes, commit_writes, apply_progress}

-- `t` is `s` up to state fields other than `name`.
pub record Frame (s : Scope) (name : String) (t : Scope) : Type 0 where
  pub field : lookup name t.state ≡ lookup name s.state
  pub beside : t ≡ record s { state = t.state }

module _ {s : Scope} {name : String} where
  pub Frame-insert :
      (p : RefPath) (n : String) (v : Any) (t : Scope)
      → state_field_name p ≡ some n
      → names_path p name ≡ false
      → Frame s name t
      → Frame s name (record t { state = insert n v t.state })
  Frame-insert p n v t target other f = record {
    field =
        rw (lookup-insert n name v t.state)
          (rw (sym (names_path_of_target p n name target) ∙ other) f.field);
    beside = ap (λ (u : Scope). record u { state = insert n v t.state }) f.beside;
  }

  commit_writes-Frame :
      (ws : List Write) (vs : List Any) (t : Scope)
      → Untargeted (write_targets ws) name
      → Frame s name t
      → Frame s name (commit_writes ws vs t).1
  unfolding commit_writes
  commit_writes-Frame [] [] t h f = f
  commit_writes-Frame [] (v ∷ vs) t h f = f
  commit_writes-Frame (w ∷ ws) [] t h f = f
  commit_writes-Frame (w ∷ ws) (v ∷ vs) t (h, hs) f = elim (Option-cases (state_field_name w.to)) [
    | inl bad ↦ rw (bad, commit_writes) f
    | inr (n, good) ↦
        rw (good, commit_writes)
          (commit_writes-Frame ws vs (record t { state = insert n v t.state }) hs
            (Frame-insert w.to n v t good h f))
  ]

  -- Whether the block succeeds or fails, it leaves an untargeted field alone.
  pub apply_progress-Frame :
      (platform : Platform) (ws : List Write)
      → Untargeted (write_targets ws) name
      → Keeps (Frame s name) (apply_progress platform ws)
  unfolding apply_progress
  apply_progress-Frame platform ws h = record {
    at = λ t f. elim (Result-cases (stage_writes platform t ws)) [
      | inl (vs, staged) ↦ rw (staged, apply_progress) (commit_writes-Frame ws vs t h f)
      | inr (e, failed) ↦ rw (failed, apply_progress) f
    ];
  }

pub Frame-refl : (s : Scope) (name : String) → Frame s name s
Frame-refl s name = record { field = refl; beside = refl }

-- ===== src/Executor/Poll/Paused.antt =====
-- `pause_execution` and the query of `process_one` in layer4-executor/src/executor.py, together.
use mathlib.Core.Path.{subst}
use aads.Prelude.{
  All, ◌≡◌, refl, sym, ◌≢◌, ap, ◌∙◌, inl, inr, String, Bool, true, false, Option, none, some, List,
  [], ◌∷◌, str_eq_iff, if◌then◌else◌, Option-cases,
}
use aads.Store.{
  paused_for_review, Execution, update, is_execution, set_status, set_plan_status, add_audit,
}
use aads.Executor.Effect.{World, ◌>>=◌, mint, change, audit}
use aads.Executor.Close.{pause_execution, paused}
use aads.Executor.Poll.{is_runnable, oldest_runnable}

pick :
    (b : Bool) (x e : Execution)
    → ◌≡◌ {A = Option Execution} (if b then some x else none) (some e)
    → (b ≡ true) × (x ≡ e)
pick true x e h = (refl, cc)
pick false x e h = cc

-- what holds of all rows holds of the row that is picked, which is runnable
pub oldest-All :
    (P : Execution → Type 0) (es : List Execution) (e : Execution)
    → All P es
    → oldest_runnable es ≡ some e
    → P e × (is_runnable e.status ≡ true)
unfolding oldest_runnable
oldest-All P [] e a h = cc
oldest-All P (x ∷ es) e a h = elim (Option-cases (oldest_runnable es)) [
  | inl gone ↦
      let (t, same) = pick (is_runnable x.status) x e (rw (gone) at h) in
      (subst P same a.0, rw (sym same) t)
  | inr (older, found) ↦
      let same : some older ≡ some e = (rw (found) at h) in oldest-All P es e a.1 (found ∙ same)
]

abbrev Stopped : String → Execution → Type 0
Stopped id e = is_execution id e ≡ true → e.status ≡ paused_for_review

stop :
    (id : String) (b : Bool) (x : Execution)
    → is_execution id x ≡ b
    → Stopped id (if b then record x { status = paused_for_review } else x)
stop id true x e = λ _. refl
stop id false x e = λ t. cc

update-Stopped :
    (id : String) (es : List Execution)
    → All (Stopped id) (update (is_execution id) (λ x. record x { status = paused_for_review }) es)
unfolding update
update-Stopped id [] = tt
update-Stopped id (x ∷ es) = (stop id (is_execution id x) x refl, update-Stopped id es)

not_runnable :
    (id : String) (e : Execution) → Stopped id e → is_runnable e.status ≡ true → e.execution_id ≢ id
not_runnable id e h t same = cc (t, ap is_runnable (h ((str_eq_iff e.execution_id id).1 same)))

-- After `pause_execution`, the row that the poller picks is of another execution.
pub pause_execution-oldest_runnable :
    (execution_id plan_id drift_type : String) (w : World) (e : Execution)
    → oldest_runnable (pause_execution execution_id plan_id drift_type w).1.db.executions ≡ some e
    → e.execution_id ≢ execution_id
unfolding pause_execution ◌>>=◌ mint change audit add_audit paused set_status set_plan_status
pause_execution-oldest_runnable execution_id plan_id drift_type w e h =
    let (stopped, runnable) =
      oldest-All (Stopped execution_id) _ e (update-Stopped execution_id w.db.executions) h in
    not_runnable execution_id e stopped runnable

-- ===== src/Executor/Poll.antt =====
-- `process_one` and `sweep_expired_locks` of layer4-executor/src/executor.py. Executions that are
-- queued are put first, so `ORDER BY requested_at ASC LIMIT 1` is the last match.
pub mod Paused
use aads.Prelude.{
  ℕ, String, Bool, true, false, Option, none, some, List, [], ◌∷◌, ltb, if◌then◌else◌,
}
use aads.Store.{
  Db, Status, queued, executing, final_verifying, Execution, Lock, update, delete, is_execution,
  set_status, set_plan_status,
}
use aads.Executor.Effect.{Env, World, M, ◌>>=◌, ◌>>◌, pure, gets, audit, change}
use aads.Executor.Close.{status_text}
use aads.Executor.Plan.{execute_plan}

abbrev pub is_runnable : Status → Bool
is_runnable queued = true
is_runnable executing = true
is_runnable final_verifying = true
is_runnable _ = false

unfoldable pub oldest_runnable : List Execution → Option Execution
oldest_runnable [] = none
oldest_runnable (e ∷ es) = elim (oldest_runnable es) [
  | some older ↦ some older
  | none ↦ if is_runnable e.status then some e else none
]

unfoldable pub start_execution : Execution → M (Unit {0})
start_execution e = elim e.status [
  | queued ↦ do
    change (λ db. set_plan_status e.plan_id executing (set_status e.execution_id executing db))
    audit "execution.executing" e.plan_id "allowed" "executing"
  | s ↦ audit "execution.recovery_started" e.plan_id "allowed" (status_text s)
]

unfoldable pub process_one : Env → M Bool
process_one env = do
  row ← gets (λ w. oldest_runnable w.db.executions)
  elim row [
    | none ↦ pure false
    | some e ↦ do start_execution e; execute_plan env e.execution_id e.plan_id; pure true
  ]

unfoldable pub sweep_expired_locks : M (Unit {0})
sweep_expired_locks w = (
  aads.Python.ok tt,
  record w {
    db = record w.db { locks = delete (λ (l : Lock). ltb l.expires_at w.now) w.db.locks };
  },
)

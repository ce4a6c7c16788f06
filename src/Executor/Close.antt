-- ===== src/Executor/Close.antt =====
-- How an execution ends or stops: `pause_execution`, `finish_execution` and `import_knowledge_case`
-- of layer4-executor/src/executor.py.
pub mod Calls
use aads.Prelude.{String, ◌<>◌, true, Option, none, some, ◌∷◌, if◌then◌else◌}
use aads.Python.{str, Fields, end, field}
use aads.Store.{
  Status, final_verified, kb_imported, kb_skipped, kb_import_failed, paused_for_review, Execution,
  Escalation, Db, fetchrow, update, is_execution, set_status, set_plan_status,
}
use aads.Executor.Effect.{Env, M, ◌>>=◌, ◌>>◌, pure, gets, change, mint, audit}

unfoldable pub paused : String → String → Escalation → Db → Db
paused execution_id plan_id escalation db = set_plan_status plan_id paused_for_review (
    set_status execution_id paused_for_review
      (record db { escalations = escalation ∷ db.escalations }))

unfoldable pub pause_execution : String → String → String → M (Unit {0})
pause_execution execution_id plan_id drift_type = do
  id ← mint
  change (
      paused execution_id plan_id (record {
        escalation_id = id;
        execution_id = execution_id;
        plan_id = plan_id;
        drift_type = drift_type;
        is_open = true;
        resolution = none;
      }))
  audit "execution.paused" plan_id "paused" "paused_for_review"

abbrev pub status_text : Status → String
status_text Status.pending_approval = "pending_approval"
status_text Status.approved = "approved"
status_text Status.rejected = "rejected"
status_text Status.queued = "queued"
status_text Status.executing = "executing"
status_text Status.final_verifying = "final_verifying"
status_text final_verified = "final_verified"
status_text kb_imported = "kb_imported"
status_text kb_skipped = "kb_skipped"
status_text kb_import_failed = "kb_import_failed"
status_text Status.execution_failed = "execution_failed"
status_text Status.execution_failed_unknown_state = "execution_failed_unknown_state"
status_text Status.failed_retryable = "failed_retryable"
status_text Status.blocked = "blocked"
status_text paused_for_review = "paused_for_review"

-- the plan whose id the row of the execution holds
unfoldable pub finished : String → Status → Fields → Db → Db
finished execution_id status result db =
    let closed = record db {
      executions =
          update (is_execution execution_id) (λ e. record e { status = status; result = result })
            db.executions;
    } in
    elim (fetchrow (is_execution execution_id) closed.executions) [
      | none ↦ closed
      | some e ↦ set_plan_status e.plan_id status closed
    ]

-- `if execution:` …
unfoldable pub announce : Status → Option Execution → M (Unit {0})
announce status none = pure tt
announce status (some e) = audit "execution.finished" e.plan_id "allowed" (status_text status)

unfoldable pub finish_execution : String → Status → Fields → M (Unit {0})
finish_execution execution_id status result = do
  execution ← gets (λ w. fetchrow (is_execution execution_id) w.db.executions)
  change (finished execution_id status result)
  announce status execution

skip_import : String → M (Status × Fields)
skip_import plan_id = do
  audit "kb.skipped" plan_id "allowed" "kb_skipped"
  pure (
    kb_skipped,
    field "status" (str "kb_skipped") (field "reason" (str "ENABLE_KNOWLEDGE_BASE=false") end),
  )

insert_case : String → Option String → M (Status × Fields)
insert_case plan_id none = do
  audit "kb.imported" plan_id "allowed" "kb_imported"
  pure (
    kb_imported,
    field "status" (str "kb_imported") (field "case_id" (str ("case_" <> plan_id)) end),
  )
insert_case plan_id (some e) = do
  audit "kb.import_failed" plan_id "allowed" "kb_import_failed"
  pure (kb_import_failed, field "status" (str "kb_import_failed") (field "error" (str e) end))

unfoldable pub import_knowledge_case : Env → String → M (Status × Fields)
unfolding skip_import insert_case
import_knowledge_case env plan_id =
    if env.knowledge_base then insert_case plan_id (env.kb_insert plan_id) else skip_import plan_id

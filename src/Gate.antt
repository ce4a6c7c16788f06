-- ===== src/Gate.antt =====
-- dashboard/app.py, the part that decides on plans: approving, rejecting, resuming, aborting and
-- queueing. A handler takes the time and the tables, and gives the answer with the tables after it,
-- or raises, and then has written nothing. Times are seconds.
pub mod Auto
pub mod Queue
pub mod Resume
use aads.Prelude.{
  ℕ, ◌+◌, String, ◌<>◌, Bool, true, false, not, ◌&&◌, Option, none, some, List, [], ◌∷◌, map, ℤ,
  pos, str_eq, str_mem, ltb, leb, if◌then◌else◌,
}
use aads.Python.{
  Py, ok, raise, ◌>>=◌, attribute_error, type_error, value_error, Json, null, bool, num, str, arr,
  obj, Items, nil, cons, Fields, end, field, get, keys, items, truthy, truthy?, or_else, get_or,
  is_str, as_dict, in_set,
}
use aads.Store.{
  Status, Db, Execution, Diagnosis, Approval, Escalation, IdempotencyRecord, fetchrow, update,
  delete, is_execution, is_report, set_status, set_plan_status, add_audit, approval_valid,
}
use aads.Executor.Close.{status_text}

pub record Answer : Type 0 where
  pub code : ℕ
  pub body : Fields

-- What the handlers call: the hash of a plan's canonical JSON, and the settings in seconds.
pub record Settings : Type 0 where
  pub plan_sha256 : Fields → String
  pub approval_expiry : ℕ
  pub idempotency_ttl : ℕ

abbrev pub Handled : Type 0
Handled = Py (Answer × Db)

abbrev pub supported_execution_schemas : List String
supported_execution_schemas = "3.0" ∷ "3.1" ∷ []

unfoldable pub failed : ℕ → String → Db → Handled
failed code message db = ok (record { code = code; body = field "error" (str message) end }, db)

unfoldable pub audited : String → String → String → String → Db → Db
audited event_type plan_id policy_decision result = add_audit (record {
  event_type = event_type;
  plan_id = plan_id;
  policy_decision = policy_decision;
  result = result;
})

abbrev pub is_terminal : Status → Bool
is_terminal Status.final_verified = true
is_terminal Status.kb_imported = true
is_terminal Status.kb_skipped = true
is_terminal Status.kb_import_failed = true
is_terminal Status.rejected = true
is_terminal Status.blocked = true
is_terminal Status.execution_failed = true
is_terminal Status.execution_failed_unknown_state = true
is_terminal _ = false

-- an approval is put first
unfoldable pub decide : Approval → Db → Db
decide approval db = record db { approvals = approval ∷ db.approvals }

unfoldable pub approved_db : Settings → ℕ → String → Fields → Db → Db
approved_db settings now plan_id plan db = audited "plan.approved" plan_id "allowed" "approved" (
    set_plan_status plan_id Status.approved (
      decide
        (record {
          plan_id = plan_id;
          is_approved = true;
          approved_until = some (now + settings.approval_expiry);
          plan_sha256 = some (settings.plan_sha256 plan);
        })
        db))

unfoldable pub approve_report : Settings → ℕ → String → Diagnosis → Db → Handled
approve_report settings now plan_id row db =
    if is_terminal row.plan_status
    then failed 409
        ("cannot approve — plan is already in terminal state: " <> status_text row.plan_status) db
    else (do
      let schema =
          or_else (get row.action_plan "schema_version")
            (or_else (some (str row.schema_version)) (str "1.0"))
      supported ← in_set schema supported_execution_schemas
      if supported
          then ok (
            record {
              code = 200;
              body = field "status" (str "approved") (
                  field "plan_id" (str plan_id) (
                    field "approved_until" (num (pos (now + settings.approval_expiry)))
                      (field "plan_sha256" (str (settings.plan_sha256 row.action_plan)) end)));
            },
            approved_db settings now plan_id row.action_plan db,
          )
          else failed 400 "cannot approve — plan has no executable steps (unsupported schema)"
              (audited "policy.blocked" plan_id "unsupported_schema" "blocked" db))

unfoldable pub approve_plan : Settings → ℕ → String → Db → Handled
approve_plan settings now plan_id db = elim (fetchrow (is_report plan_id) db.reports) [
  | none ↦ failed 404 "plan not found" db
  | some row ↦ approve_report settings now plan_id row db
]

-- A decision refers to a report that exists, or the insertion raises.
unfoldable pub reject_plan : String → Db → Handled
reject_plan plan_id db = elim (fetchrow (is_report plan_id) db.reports) [
  | none ↦ raise value_error
  | some _ ↦ ok (
    record {
      code = 200;
      body = field "status" (str "rejected") (field "plan_id" (str plan_id) end);
    },
    audited "plan.rejected" plan_id "blocked" "rejected" (
        set_plan_status plan_id Status.rejected (
          decide
            (record {
              plan_id = plan_id;
              is_approved = false;
              approved_until = none;
              plan_sha256 = none;
            })
            db)),
  )
]

-- `ORDER BY requested_at DESC LIMIT 1`
unfoldable pub latest_execution : String → Db → Option Execution
latest_execution plan_id db = fetchrow (λ (e : Execution). str_eq e.plan_id plan_id) db.executions

abbrev pub is_open_for : String → Escalation → Bool
is_open_for execution_id e = str_eq e.execution_id execution_id && e.is_open

unfoldable pub resolve : String → String → Db → Db
resolve execution_id resolution db = record db {
  escalations =
      update (is_open_for execution_id)
        (λ e. record e { is_open = false; resolution = some resolution }) db.escalations;
}

abbrev pub is_paused : Status → Bool
is_paused Status.paused_for_review = true
is_paused _ = false

abbrev not_paused : Execution → Db → Handled
not_paused e =
    failed 409 ("latest execution is '" <> (status_text e.status <> "', not paused_for_review"))

abbrev pub outcome : String → String → String → Answer
outcome status plan_id execution_id = record {
  code = 200;
  body =
      field "status" (str status)
        (field "plan_id" (str plan_id) (field "execution_id" (str execution_id) end));
}

unfoldable pub resumed : String → Execution → Db → Db
resumed plan_id e db = audited "execution.resumed" plan_id "allowed" "queued" (
    set_plan_status plan_id Status.queued
      (set_status e.execution_id Status.queued (resolve e.execution_id "resumed" db)))

unfoldable pub resume_paused : ℕ → String → Execution → Db → Handled
resume_paused now plan_id e db =
    if not (approval_valid now plan_id db)
    then failed 403 "a currently valid approval is required — re-approve the plan first" db
    else ok (outcome "queued" plan_id e.execution_id, resumed plan_id e db)

unfoldable pub resume_execution : ℕ → String → Execution → Db → Handled
resume_execution now plan_id e db =
    if not (is_paused e.status) then not_paused e db else resume_paused now plan_id e db

unfoldable pub resume_plan : ℕ → String → Db → Handled
resume_plan now plan_id db = elim (latest_execution plan_id db) [
  | none ↦ failed 404 "no execution found for plan" db
  | some e ↦ resume_execution now plan_id e db
]

unfoldable pub aborted : Json → Execution → Execution
aborted reason e = record e {
  status = Status.execution_failed;
  result = field "reason" (str "aborted_by_human") (field "detail" reason end);
}

unfoldable pub aborted_db : String → Json → Execution → Db → Db
aborted_db plan_id reason e db =
    let resolved = resolve e.execution_id "aborted" db in
    audited "execution.aborted" plan_id "blocked" "execution_failed" (
      set_plan_status plan_id Status.execution_failed (record resolved {
        executions = update (is_execution e.execution_id) (aborted reason) resolved.executions;
      }))

unfoldable pub abort_execution : String → Json → Execution → Db → Handled
abort_execution plan_id reason e db =
    if not (is_paused e.status)
    then not_paused e db
    else ok (outcome "execution_failed" plan_id e.execution_id, aborted_db plan_id reason e db)

unfoldable pub abort_plan : String → Json → Db → Handled
abort_plan plan_id reason db = elim (latest_execution plan_id db) [
  | none ↦ failed 404 "no execution found for plan" db
  | some e ↦ abort_execution plan_id reason e db
]

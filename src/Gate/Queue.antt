-- ===== src/Gate/Queue.antt =====
-- `queue_execution` of dashboard/app.py, in the stages that its early returns make. `id` is the
-- fresh id of the execution.
pub mod Twice
use aads.Prelude.{
  ℕ, ◌+◌, String, Bool, true, false, not, ◌&&◌, Option, none, some, List, [], ◌∷◌, str_eq, leb, ltb,
  if◌then◌else◌,
}
use aads.Python.{
  Py, ok, raise, ◌>>=◌, value_error, Json, null, str, obj, Fields, end, field, get, get_or, in_set,
}
use aads.Store.{
  Status, Db, Execution, Diagnosis, IdempotencyRecord, fetchrow, delete, is_execution, is_report,
  set_plan_status, approval_valid,
}
use aads.Executor.Close.{status_text}
use aads.Gate.{Answer, Settings, Handled, failed, audited, supported_execution_schemas}
use aads.Gate.Auto.{plan_auto_allowed, first_target_node}

-- `DELETE FROM idempotency_records WHERE expires_at <= NOW()`
unfoldable pub expire : ℕ → Db → Db
expire now db = record db {
  records = delete (λ (r : IdempotencyRecord). leb r.expires_at now) db.records;
}

abbrev pub is_active : ℕ → IdempotencyRecord → Bool
is_active now r = r.is_plan_execute && ltb now r.expires_at

abbrev pub has_key : ℕ → String → IdempotencyRecord → Bool
has_key now key r = str_eq r.idempotency_key key && is_active now r

abbrev pub is_for_plan : ℕ → String → IdempotencyRecord → Bool
is_for_plan now plan_id r = str_eq r.plan_id plan_id && is_active now r

unfoldable pub with_execution :
    IdempotencyRecord → Option Execution → Option (IdempotencyRecord × Execution)
with_execution r none = none
with_execution r (some e) = some (r, e)

unfoldable pub joined : Db → Option IdempotencyRecord → Option (IdempotencyRecord × Execution)
joined db none = none
joined db (some r) = with_execution r (fetchrow (is_execution r.execution_id) db.executions)

-- the record of a key, joined with its execution
unfoldable pub existing : ℕ → String → Db → Option (IdempotencyRecord × Execution)
existing now key db = joined db (fetchrow (has_key now key) db.records)

-- the answer for a key that was used before
abbrev pub known : IdempotencyRecord → Execution → Answer
known r e = record {
  code = 200;
  body = field "execution_id" (str r.execution_id) (
      field "plan_id" (str r.plan_id)
        (field "status" (str (status_text e.status)) (field "result" (obj e.result) end)));
}

unfoldable pub answer_existing : String → IdempotencyRecord → Execution → Db → Handled
answer_existing plan_id r e db =
    if not (str_eq r.plan_id plan_id)
    then failed 400 "idempotency key already used for a different plan" db
    else ok (known r e, db)

abbrev pub has_any_key : String → IdempotencyRecord → Bool
has_any_key key r = str_eq r.idempotency_key key

-- The key is the primary key of the records, so a second row of any scope raises.
unfoldable pub insert_into :
    Settings → ℕ → String → String → String → Option Json → Db → Option IdempotencyRecord → Handled
insert_into settings now id plan_id key target db (some _) = raise value_error
insert_into settings now id plan_id key target db none = ok (
  record {
    code = 202;
    body =
        field "execution_id" (str id)
          (field "plan_id" (str plan_id) (field "status" (str "queued") end));
  },
  audited "execution.queued" plan_id "allowed" "queued" (
      set_plan_status plan_id Status.queued (record db {
        executions =
            (record {
              execution_id = id;
              plan_id = plan_id;
              idempotency_key = key;
              status = Status.queued;
              target_node_id = target;
              result = end;
            })
            ∷ db.executions;
        records =
            (record {
              idempotency_key = key;
              is_plan_execute = true;
              plan_id = plan_id;
              execution_id = id;
              expires_at = now + settings.idempotency_ttl;
            })
            ∷ db.records;
      })),
)

unfoldable pub insert_execution :
    Settings → ℕ → String → String → String → Option Json → Db → Handled
insert_execution settings now id plan_id key target db =
    insert_into settings now id plan_id key target db (fetchrow (has_any_key key) db.records)

unfoldable pub queue_report : Settings → ℕ → String → String → String → Diagnosis → Db → Handled
queue_report settings now id plan_id key row db = do
  supported ←
      in_set (get_or (get row.action_plan "schema_version") (str row.schema_version))
        supported_execution_schemas
  if not supported
      then failed 400 "unsupported schema"
          (audited "policy.blocked" plan_id "unsupported_schema" "blocked" db)
      else (do
        target ← first_target_node row.action_plan
        allowed ←
            (if approval_valid now plan_id db then ok true else plan_auto_allowed row.action_plan)
        if allowed
            then insert_execution settings now id plan_id key target db
            else failed 403 "approval required or expired"
                (audited "policy.blocked" plan_id "approval_required" "blocked" db))

unfoldable pub queue_new : Settings → ℕ → String → String → String → Db → Handled
queue_new settings now id plan_id key db = elim (fetchrow (is_for_plan now plan_id) db.records) [
  | some r ↦ ok (
    record {
      code = 409;
      body =
          field "error" (str "plan already has an active execution idempotency key")
            (field "execution_id" (str r.execution_id) end);
    },
    db,
  )
  | none ↦ (elim (fetchrow (is_report plan_id) db.reports) [
    | none ↦ failed 404 "plan not found" db
    | some row ↦ queue_report settings now id plan_id key row db
  ])
]

unfoldable pub queue_known :
    Settings → ℕ → String → String → String → Db → Option (IdempotencyRecord × Execution) → Handled
queue_known settings now id plan_id key db (some (r, e)) = answer_existing plan_id r e db
queue_known settings now id plan_id key db none = queue_new settings now id plan_id key db

unfoldable pub queue_execution : Settings → ℕ → String → String → String → Db → Handled
queue_execution settings now id plan_id key db =
    let kept = expire now db in queue_known settings now id plan_id key kept (existing now key kept)

-- ===== src/Tests/Gate.antt =====
-- The gate on a plan that was approved, queued, paused and resumed.
use aads.Prelude.{String, ◌≡◌, ◌≢◌, ◌↔◌, refl, true, none, some, List, [], ◌∷◌, All, arith}
use aads.Python.{ok, raise, null, bool, str, arr, obj, nil, cons, Fields, end, field, get, truthy?}
use aads.Store.{
  Db, Status, paused_for_review, Execution, Diagnosis, Approval, Escalation, approval_valid,
}
use aads.Executor.Validate
use aads.Executor.Poll.{oldest_runnable}
use aads.Executor.Poll.Paused.{pause_execution-oldest_runnable}
use aads.Executor.Close.{pause_execution}
use aads.Executor.Effect.{World}
use aads.Gate.{Handled, Answer, Settings, resume_plan, abort_plan, latest_execution}
use aads.Gate.Auto.{plan_auto_allowed, plan_auto_allowed_iff}
use aads.Gate.Queue.{queue_execution}
use aads.Gate.Queue.Twice.{Repeated, queue_execution-Repeated}
use aads.Gate.Resume.{Resumable, Resumed, Resolved, resume_plan-Resumed, abort_plan-oldest_runnable}

abbrev plan : Fields
plan = field "schema_version" (str "3.1") (
    field "risk_level" (str "low") (
      field "target_node_id" (str "pi") (
        field "steps" (arr (cons (obj end) nil)) (
          field "environment_policy"
            (obj (field "environment" (str "test") (field "auto_execute_allowed" (bool true) end)))
            end))))

abbrev settings : Settings
settings = record { plan_sha256 = λ p. "hash"; approval_expiry = 1800; idempotency_ttl = 1800 }

abbrev running : String → Status → Execution
running id s = record {
  execution_id = id;
  plan_id = "plan";
  idempotency_key = "key";
  status = s;
  target_node_id = some (str "pi");
  result = end;
}

abbrev tables : List Execution → List Escalation → Db
tables executions escalations = record {
  executions = executions;
  reports =
      (record {
        diagnosis_id = "plan";
        action_plan = plan;
        schema_version = "3.1";
        plan_status = Status.approved;
      })
      ∷ [];
  approvals =
      (record {
        plan_id = "plan";
        is_approved = true;
        approved_until = some 2000;
        plan_sha256 = some "hash";
      })
      ∷ [];
  steps = [];
  locks = [];
  escalations = escalations;
  records = [];
  nodes = [];
  audits = [];
}

abbrev drift : Escalation
drift = record {
  escalation_id = 0;
  execution_id = "e1";
  plan_id = "plan";
  drift_type = "verification_failed";
  is_open = true;
  resolution = none;
}

abbrev answer_of : Handled → Answer
answer_of (ok (a, db)) = a
answer_of (raise e) = record { code = 500; body = end }

abbrev db_of : Handled → Db
db_of (ok (a, db)) = db
db_of (raise e) = tables [] []

plan_auto_allowed_iff_example :
    (plan_auto_allowed plan ≡ ok true)
    ↔ ((truthy? (get plan "steps") ≡ true) × (Validate.plan_auto_allowed plan ≡ ok true))
unfolding get
plan_auto_allowed_iff_example = plan_auto_allowed_iff plan refl

abbrev queued_first : Handled
queued_first = queue_execution settings 100 "e1" "plan" "key" (tables [] [])

queue_execution-Repeated_example : Repeated settings 200 "e1" "e2" "plan" "key" (db_of queued_first)
unfolding queue_execution aads.Gate.Queue.queue_known aads.Gate.Queue.existing
    aads.Gate.Queue.joined aads.Store.fetchrow aads.Gate.Queue.expire aads.Store.delete
    aads.Gate.Queue.queue_new aads.Gate.Queue.queue_report get aads.Gate.Auto.first_target_node
    approval_valid aads.Store.approval_holds aads.Gate.Queue.insert_execution
    aads.Gate.Queue.insert_into
queue_execution-Repeated_example =
    queue_execution-Repeated settings 100 200 "e1" "e2" "plan" "key" (tables [] [])
      (db_of queued_first) (answer_of queued_first) refl refl (omega arith)

abbrev paused_db : Db
paused_db = tables (running "e1" paused_for_review ∷ []) (drift ∷ [])

abbrev resumed_first : Handled
resumed_first = resume_plan 100 "plan" paused_db

resume_plan-Resumed_example :
    (e : Execution) × (Resumable 100 "plan" paused_db e × Resumed e (db_of resumed_first))
unfolding resume_plan latest_execution aads.Store.fetchrow aads.Gate.resume_execution
    aads.Gate.resume_paused approval_valid aads.Store.approval_holds
resume_plan-Resumed_example =
    resume_plan-Resumed 100 "plan" paused_db (db_of resumed_first) (answer_of resumed_first) refl
      refl

abbrev two_db : Db
two_db = tables (running "e1" paused_for_review ∷ running "e0" Status.queued ∷ []) (drift ∷ [])

abbrev aborted_first : Handled
aborted_first = abort_plan "plan" null two_db

abort_plan-oldest_runnable_example :
    (◌≢◌ {A = String} "e0" "e1") × All (Resolved "e1") (db_of aborted_first).escalations
unfolding abort_plan latest_execution oldest_runnable aads.Store.fetchrow aads.Gate.abort_execution
    aads.Gate.aborted_db aads.Gate.audited aads.Store.add_audit aads.Store.set_plan_status
    aads.Store.update aads.Gate.resolve
abort_plan-oldest_runnable_example =
    abort_plan-oldest_runnable "plan" null two_db (db_of aborted_first) (answer_of aborted_first)
      (running "e1" paused_for_review) (running "e0" Status.queued) refl refl refl refl

abbrev world : World
world = record {
  db = tables (running "e1" Status.executing ∷ running "e0" Status.queued ∷ []) [];
  now = 100;
  minted = 0;
  calls = [];
}

pause_execution-oldest_runnable_example : ◌≢◌ {A = String} "e0" "e1"
unfolding oldest_runnable pause_execution aads.Executor.Effect.◌>>=◌ aads.Executor.Effect.mint
    aads.Executor.Effect.change aads.Executor.Effect.audit aads.Store.add_audit
    aads.Executor.Close.paused aads.Store.set_plan_status aads.Store.set_status aads.Store.update
pause_execution-oldest_runnable_example =
    pause_execution-oldest_runnable "e1" "plan" "verification_failed" world
      (running "e0" Status.queued) refl

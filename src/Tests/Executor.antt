-- ===== src/Tests/Executor.antt =====
-- The executor on a plan of one step that restarts nginx.
use aads.Prelude.{
  ◌*◌, ℕ, ◌≤◌, ◌+◌, String, ◌≡◌, ◌≢◌, ◌↔◌, ◌⊎◌, refl, Bool, true, false, ◌&&◌, Option, none, some,
  List, [], ◌∷◌, ℤ, pos, arith, str_eq, ◌==◌,
}
use aads.Python.{
  Py, ok, raise, Json, null, bool, num, str, arr, obj, Items, nil, cons, Fields, end, field, get,
  get_or, is_str,
}
use aads.Store.{
  Db, Lock, Diagnosis, Approval, AgentNode, StepStatus, step_verified, Status, fetchrow,
}
use aads.Executor.Effect.{Env, World, Call, Reply, get_facts, run_command, response}
use aads.Executor.Effect.Calls.{commands}
use aads.Executor.Validate.{validate_plan}
use aads.Executor.Valid.Plan.{IsPlan, validate_plan-IsPlan}
use aads.Executor.Runner.{
  Command, max_attempts, insert_lock, is_lock_of, with_lock, attempt_loop, lock_ttl,
  run_runner_command, request,
}
use aads.Executor.Effect.Sends.{repeat}
use aads.Executor.Runner.Attempts.{attempts_of, run_runner_command-calls, max_attempts-bounds}
use aads.Executor.Runner.Locking.{Inserted, insert_lock-Inserted, with_lock_releases}
use aads.Executor.Observe.{matches_expected, AllMatch, matches_expected_iff}
use aads.Executor.Step.{Job, execute_fixing_step}
use aads.Executor.Step.Verified.{StepVerified, execute_fixing_step-StepVerified}
use aads.Executor.Plan.{execute_plan}
use aads.Executor.Plan.Cleared.{Cleared, execute_plan-Cleared}

abbrev argv : Json
argv = arr (cons (str "systemctl") (cons (str "restart") (cons (str "nginx") nil)))

abbrev runner : Json
runner = obj (field "argv" argv (field "side_effect" (str "mutate") end))

abbrev probe : Json
probe = obj (
    field "runner"
      (obj (
        field "argv" (arr (cons (str "systemctl") (cons (str "is-active") nil)))
          (field "side_effect" (str "read") end)))
      (field "extract"
        (obj (
          field "active" (obj (field "from" (str "stdout") (field "equals" (str "active") end)))
            end))
        (field "expected" (obj (field "active" (bool true) end)) end)))

abbrev step : Fields
step = field "step_id" (num (pos 1)) (
    field "order" (num (pos 1)) (
      field "runner" runner (
        field "expected_outcome" (str "nginx runs") (
          field "on_failure" (str "abort") (
            field "verification" probe (
              field "idempotency"
                (obj (field "mode" (str "idempotent") (field "max_attempts" (num (pos 2)) end)))
                end))))))

abbrev environment_policy : Json
environment_policy =
    obj (field "environment" (str "test") (field "auto_execute_allowed" (bool true) end))

abbrev plan : Fields
plan = field "schema_version" (str "3.0") (
    field "plan_id" (str "plan") (
      field "rca_report_id" (str "report") (
        field "target_node_id" (str "pi") (
          field "goal" (str "run nginx") (
            field "risk_level" (str "low") (
              field "environment_policy" environment_policy (
                field "pre_execution_snapshot" (obj end) (
                  field "steps" (arr (cons (obj step) nil)) (
                    field "final_verification" probe
                      (field "self_check" (obj (field "passed" (bool true) end)) end))))))))))

abbrev pub answer : Call → Reply
answer (get_facts url) = response 200 end
answer (run_command url r c i p) = response 200 (
    field "status" (str "success")
      (field "returncode" (num (pos 0)) (field "stdout" (str "active") end)))

abbrev pub env : Env
env = record {
  answer = λ n c. answer c;
  seconds = λ n c. 1;
  writes = λ n. 1;
  format = λ x. "text";
  parse_int = λ s. none;
  regex_search = λ p s. ok false;
  json_loads = λ s. none;
  kb_insert = λ s. none;
  plan_sha256 = λ p. "hash";
  lock_ttl = 120;
  knowledge_base = false;
}

abbrev node : AgentNode
node = record { node_id = "pi"; base_url = "http://pi:8080/"; environment = "test" }

abbrev db : Db
db = record {
  executions = [];
  reports =
      (record {
        diagnosis_id = "plan";
        action_plan = plan;
        schema_version = "3.0";
        plan_status = Status.executing;
      })
      ∷ [];
  approvals =
      (record {
        plan_id = "plan";
        is_approved = true;
        approved_until = some 2000;
        plan_sha256 = some "hash";
      })
      ∷ [];
  steps = [];
  locks = [];
  escalations = [];
  records = [];
  nodes = node ∷ [];
  audits = [];
}

abbrev world : World
world = record { db = db; now = 100; minted = 0; calls = [] }

abbrev job : Job
job = record { execution_id = "e1"; plan_id = "plan"; node = node; execution_profile = none }

abbrev command : Command
command = record {
  plan_id = "plan";
  step_id = some (num (pos 1));
  node = node;
  runner = runner;
  context = obj end;
  idempotency = obj end;
  execution_id = "e1";
  execution_profile = none;
}

execute_plan-Cleared_example :
    (commands (execute_plan env "e1" "plan" world).1.calls ≡ commands []) ⊎ Cleared env "plan" world
execute_plan-Cleared_example = execute_plan-Cleared env "e1" "plan" world

valid : validate_plan plan (str "3.0") ≡ ok none
unfolding validate_plan aads.Executor.Validate.validate_schema
    aads.Executor.Validate.validate_version get aads.Executor.Validate.require_fields
    aads.Python.has aads.Executor.Validate.validate_self_check
    aads.Executor.Validate.validate_step_list aads.Executor.Validate.as_dicts
    aads.Executor.Order.misordered aads.Python.py_eq aads.Executor.Validate.validate_steps
    aads.Executor.Validate.validate_step aads.Executor.Validate.validate_runner
    aads.Executor.Validate.validate_verification aads.Executor.Validate.validate_expected
    aads.Python.item
valid = refl

validate_plan-IsPlan_example : IsPlan plan
validate_plan-IsPlan_example = validate_plan-IsPlan plan (str "3.0") valid

abbrev seen_of : Py (StepStatus × Fields) → Fields
seen_of (ok (s, seen)) = seen
seen_of (raise e) = end

abbrev done : Py (StepStatus × Fields) × World
done = execute_fixing_step env job step world

verified : done ≡ (ok (step_verified, seen_of done.0), done.1)
unfolding execute_fixing_step aads.Executor.Effect.◌>>=◌ aads.Executor.Effect.lift
    aads.Executor.Step.step_label get aads.Python.item run_runner_command
    aads.Executor.Runner.label_of aads.Executor.Runner.to_int max_attempts
    aads.Executor.Runner.run_locked aads.Executor.Runner.acquire_lock insert_lock fetchrow with_lock
    aads.Executor.Effect.finally attempt_loop aads.Executor.Runner.mark_running
    aads.Executor.Effect.audit aads.Executor.Effect.timed_call aads.Executor.Effect.call_agent
    aads.Executor.Effect.change aads.Executor.Effect.classify aads.Executor.Effect.pure
    aads.Executor.Effect.upsert_step aads.Executor.Effect.upserted
    aads.Executor.Observe.apply_extractors aads.Executor.Observe.extract_value
    aads.Executor.Observe.json_path_value matches_expected aads.Executor.Observe.mismatches
    aads.Executor.Observe.source_text aads.Executor.Runner.audited aads.Executor.Runner.is_retry
    lock_ttl aads.Executor.Runner.locked_out aads.Executor.Runner.release_lock request
    aads.Executor.Runner.retried aads.Executor.Runner.settle aads.Executor.Step.after_command
    aads.Executor.Step.judge aads.Executor.Step.judge_answer aads.Executor.Step.record_step
    aads.Executor.Step.rejected aads.Executor.Step.run_probe aads.Executor.Step.run_verification
    aads.Executor.Step.verdict aads.Executor.Step.verify_step aads.Prelude.begins_with
    aads.Prelude.contains aads.Prelude.rstrip aads.Prelude.split aads.Prelude.strip aads.Python.set
    aads.Store.add_audit aads.Store.delete aads.Store.update aads.Python.py_eq
verified = refl

execute_fixing_step-StepVerified_example : StepVerified env job step world done.1
execute_fixing_step-StepVerified_example =
    execute_fixing_step-StepVerified env job step (seen_of done.0) world done.1 verified

run_runner_command-calls_example :
    (n : ℕ) × ((n ≤ attempts_of env command (max_attempts env (obj end)))
      × ((run_runner_command env command world).1.calls ≡ repeat n (request env command) []))
run_runner_command-calls_example = run_runner_command-calls env command world

abbrev once : Fields
once = field "mode" (str "once") end

one_attempt : max_attempts env (obj once) ≡ ok 1
unfolding max_attempts get
one_attempt = refl

max_attempts-bounds_example :
    (◌≤◌ 1 1)
    × ((◌≡◌ {A = ℕ} 1 1)
        ⊎ (is_str (get_or (get once "mode") (str "idempotent")) "idempotent" ≡ true))
max_attempts-bounds_example = max_attempts-bounds env once 1 one_attempt

abbrev lock : Lock
lock = record { node_id = "pi"; lock_id = 7; execution_id = "e1"; expires_at = 220 }

different : ◌≢◌ {A = String} "other" "pi"
different e = ground (arith, (aads.Prelude.str_eq_iff "other" "pi").1 e)

insert_lock-Inserted_example : Inserted 100 lock [] "other" (insert_lock 100 lock [])
insert_lock-Inserted_example = insert_lock-Inserted 100 lock [] "other" different

with_lock_releases_example :
    (fetchrow
        (λ (l : Lock). str_eq l.node_id "pi" && l.lock_id == 7)
        (with_lock env command "restart" 2 (some 7) world).1.db.locks
      ≡ none)
    × (fetchrow (is_lock_of "other") (with_lock env command "restart" 2 (some 7) world).1.db.locks
        ≡ fetchrow (is_lock_of "other") [])
with_lock_releases_example = with_lock_releases env command "restart" 2 7 world "other" different

fits : 2 * (58 + 2) ≤ lock_ttl env (pos 58)
unfolding lock_ttl
fits = omega arith

abbrev observed : Fields
observed = field "active" (bool true) end

matches_expected_iff_example :
    (matches_expected observed observed ≡ true) ↔ AllMatch observed observed
matches_expected_iff_example = matches_expected_iff observed observed

-- ===== src/Executor/Step.antt =====
-- `run_verification`, `execute_fixing_step`, `ensure_snapshot` and `rollback` of
-- layer4-executor/src/executor.py.
pub mod Probed
pub mod Verified
use aads.Prelude.{
  ℕ, zero, suc, ◌+◌, ◌-◌, String, ◌<>◌, Bool, true, false, not, ◌&&◌, Option, none, some, List, [],
  ◌∷◌, ℤ, pos, pos_part, str_eq, ltb, if◌then◌else◌,
}
use aads.Python
use aads.Python.{
  Py, ok, raise, type_error, Json, null, bool, num, str, arr, obj, Items, nil, cons, Fields, end,
  field, get, set, truthy?, or_else, get_or, is_str, as_dict, item,
}
use aads.Store.{
  AgentNode, StepRow, StepStatus, step_running, step_verified, step_failed_blocked,
  step_failed_aborted, fetchrow,
}
use aads.Executor.Effect.{Env, World, M, ◌>>=◌, ◌>>◌, pure, lift, gets, audit, upsert_step, is_step}
use aads.Executor.Runner.{
  RunStatus, succeeded, refused, errored, failed_retryable, Command, max_attempts,
  run_runner_command,
}
use aads.Executor.Observe.{apply_extractors, matches_expected, mismatches}

-- What all commands of one execution share.
pub record Job : Type 0 where
  pub execution_id : String
  pub plan_id : String
  pub node : AgentNode
  pub execution_profile : Option Json

abbrev pub retry_count_of : Fields → ℕ
retry_count_of result = elim (get_or (get result "retry_count") (num (pos 0))) [
  | num n ↦ pos_part n
  | _ ↦ 0
]

abbrev reason : String → Fields
reason text = field "reason" (str text) end

-- `f"verify_{plan_id}_{step_id or 0}"`
abbrev verify_id : Env → String → Option Json → String
verify_id env plan_id step_id =
    "verify_" <> (plan_id <> ("_" <> env.format (or_else step_id (num (pos 0)))))

module _ (env : Env) (job : Job) where
  unfoldable pub run_probe : Json → Json → Option Json → Option String → M (RunStatus × Fields)
  run_probe runner context step_id execution_id = run_runner_command env (record {
    plan_id = job.plan_id;
    step_id = step_id;
    node = job.node;
    runner = runner;
    context = context;
    idempotency = obj (field "mode" (str "idempotent") (field "max_attempts" (num (pos 1)) end));
    execution_id = elim execution_id [
      | none ↦ verify_id env job.plan_id step_id
      | some id ↦ if str_eq id "" then verify_id env job.plan_id step_id else id
    ];
    execution_profile = job.execution_profile;
  })

  unfoldable pub verdict : Fields → Fields → Fields → StepStatus × Fields
  verdict payload observed expected =
      let match = matches_expected observed expected in
      (
        if match then step_verified else step_failed_aborted,
        field "status" (str (if match then "success" else "failed")) (
            field "observed" (obj observed) (
              field "expected" (obj expected) (
                field "mismatches" (arr (mismatches observed expected)) (
                  field "raw"
                    (obj (
                      field "returncode" (get_or (get payload "returncode") null) (
                        field "stdout" (get_or (get payload "stdout") null)
                          (field "stderr" (get_or (get payload "stderr") null) end))))
                    end)))),
      )

  abbrev audit_of : StepStatus → String
  audit_of step_verified = "step_verified"
  audit_of _ = "step_failed_aborted"

  unfoldable pub judge_answer : String → Fields → Fields → M (StepStatus × Fields)
  judge_answer event_prefix verification payload = do
    rules ← lift (as_dict (or_else (get verification "extract") (obj end)))
    observed ← lift (apply_extractors env payload rules end)
    expected ← lift (as_dict (or_else (get verification "expected") (obj end)))
    let result = verdict payload observed expected
    audit (event_prefix <> (if matches_expected observed expected then ".verified" else ".failed"))
        job.plan_id "allowed" (audit_of result.0)
    pure result

  -- the part of `run_verification` after the probe has run
  unfoldable pub judge : String → Fields → RunStatus → Fields → M (StepStatus × Fields)
  judge event_prefix verification refused payload = do
    audit (event_prefix <> ".blocked") job.plan_id "allowed" "blocked"
    pure (step_failed_blocked, payload)
  judge event_prefix verification errored payload = do
    audit (event_prefix <> ".failed") job.plan_id "allowed" "failed"
    pure (step_failed_aborted, payload)
  judge event_prefix verification _ payload = judge_answer event_prefix verification payload

  unfoldable pub rejected : String → String → M (StepStatus × Fields)
  rejected event_prefix why = do
    audit (event_prefix <> ".blocked") job.plan_id "allowed" "blocked"
    pure (step_failed_blocked, reason why)

  unfoldable pub run_verification :
      Json → Option Json → String → Option String → M (StepStatus × Fields)
  run_verification verification step_id event_prefix execution_id = do
    v ← lift (as_dict verification)
    let runner = or_else (get v "runner") (obj end)
    r ← lift (as_dict runner)
    let probe = do
      answer ←
          run_probe runner (or_else (get v "context") (obj (field "purpose" (str "verify") end)))
            step_id execution_id
      judge event_prefix v answer.0 answer.1
    if not (truthy? (get r "argv"))
        then rejected event_prefix "verification_runner_invalid"
        else if not (is_str (get_or (get r "side_effect") (str "read")) "read")
        then rejected event_prefix "verification_runner_not_read"
        else probe

  -- `step_label`
  unfoldable pub step_label : Fields → Py String
  step_label step = Python.◌>>=◌ (as_dict (or_else (get step "context") (obj end))) λ context.
      if truthy? (get context "service") && truthy? (get context "operation")
      then ok (
          env.format (get_or (get context "service") null)
          <> "."
          <> env.format (get_or (get context "operation") null))
      else Python.◌>>=◌ (as_dict (or_else (get step "runner") (obj end))) λ runner.
        elim (or_else (get runner "argv") (arr nil)) [
          | arr xs ↦ elim xs [ nil ↦ ok "runner" | cons x _ ↦ ok (env.format x) ]
          | _ ↦ raise type_error
        ]

  -- records the status of the step, and returns it
  unfoldable pub record_step : Json → String → ℕ → StepStatus × Fields → M (StepStatus × Fields)
  record_step step_id label retries outcome = do
    upsert_step job.execution_id step_id outcome.0 label retries outcome.1
    pure outcome

  abbrev pub judged : StepStatus → Fields → StepStatus × Fields
  judged step_verified result = (step_verified, result)
  judged _ result = (step_failed_aborted, result)

  -- what follows once the command has succeeded
  unfoldable pub verify_step : Fields → Json → String → Fields → M (StepStatus × Fields)
  verify_step step step_id label command_result = do
    verification ← lift (item step "verification")
    seen ← run_verification verification (some step_id) "step_verification" (some job.execution_id)
    let result = field "command" (obj command_result) (field "verification" (obj seen.1) end)
    record_step step_id label (retry_count_of command_result) (judged seen.0 result)

  unfoldable pub after_command :
      Fields → Json → String → RunStatus → Fields → M (StepStatus × Fields)
  after_command step step_id label succeeded result = verify_step step step_id label result
  after_command step step_id label refused result =
      record_step step_id label (retry_count_of result) (step_failed_blocked, result)
  after_command step step_id label _ result =
      record_step step_id label (retry_count_of result) (step_failed_aborted, result)

  abbrev pub step_command : Fields → Json → Json → Command
  step_command step step_id runner = record {
    plan_id = job.plan_id;
    step_id = some step_id;
    node = job.node;
    runner = runner;
    context = or_else (get step "context") (obj end);
    idempotency = or_else (get step "idempotency") (obj end);
    execution_id = job.execution_id;
    execution_profile = job.execution_profile;
  }

  unfoldable pub execute_fixing_step : Fields → M (StepStatus × Fields)
  execute_fixing_step step = do
    label ← lift (step_label step)
    step_id ← lift (item step "step_id")
    runner ← lift (item step "runner")
    answer ← run_runner_command env (step_command step step_id runner)
    after_command step step_id label answer.0 answer.1

  -- the command of a snapshot or a rollback
  unfoldable pub run_helper : Option Json → Json → String → String → Json → M (RunStatus × Fields)
  run_helper step_id runner purpose operation idempotency = run_runner_command env (record {
    plan_id = job.plan_id;
    step_id = step_id;
    node = job.node;
    runner = runner;
    context = obj (field "purpose" (str purpose) (field "operation" (str operation) end));
    idempotency = idempotency;
    execution_id = job.execution_id;
    execution_profile = job.execution_profile;
  })

  -- The status of `ensure_snapshot`: "step_verified", or any other.
  unfoldable pub snapshot_taken : String → RunStatus → Fields → M (Bool × Fields)
  snapshot_taken label succeeded result = do
    upsert_step job.execution_id (num (pos 0)) step_verified label (retry_count_of result) result
    audit "snapshot.ready" job.plan_id "allowed" "step_verified"
    pure (true, result)
  snapshot_taken label refused result = do
    upsert_step job.execution_id (num (pos 0)) step_failed_blocked label (retry_count_of result)
        result
    audit "snapshot.failed" job.plan_id "allowed" "step_failed_blocked"
    pure (false, result)
  snapshot_taken label _ result = do
    upsert_step job.execution_id (num (pos 0)) step_failed_aborted label (retry_count_of result)
        result
    audit "snapshot.failed" job.plan_id "allowed" "step_failed_aborted"
    pure (false, result)

  unfoldable pub ensure_snapshot : Fields → M (Bool × Fields)
  ensure_snapshot plan = do
    spec ← lift (as_dict (or_else (get plan "pre_execution_snapshot") (obj end)))
    let runner = or_else (get spec "runner") (obj end)
    r ← lift (as_dict runner)
    let label = env.format (or_else (get spec "scope") (str "snapshot")) <> ".ensure_snapshot"
    let take = do
      answer ← run_helper (some (num (pos 0))) runner "snapshot" "ensure_snapshot" (
          or_else (get spec "idempotency")
            (obj (field "mode" (str "idempotent") (field "max_attempts" (num (pos 2)) end))))
      snapshot_taken label answer.0 answer.1
    if truthy? (get r "argv") then take else pure (false, reason "snapshot_runner_invalid")

  abbrev rollback_status : RunStatus → String
  rollback_status succeeded = "rollback_completed"
  rollback_status _ = "rollback_failed"

  unfoldable pub rollback : Fields → M (String × Fields)
  rollback plan = do
    spec ← lift (as_dict (or_else (get plan "rollback") (obj end)))
    let runner = or_else (get spec "runner") (obj end)
    r ← lift (as_dict runner)
    let restore = do
      audit "rollback.running" job.plan_id "allowed" "rollback_running"
      answer ←
          run_helper none runner "rollback" "restore_config"
            (obj (field "mode" (str "idempotent") (field "max_attempts" (num (pos 1)) end)))
      audit ("rollback." <> rollback_status answer.0) job.plan_id "allowed"
          (rollback_status answer.0)
      pure (rollback_status answer.0, answer.1)
    if truthy? (get spec "enabled") && truthy? (get r "argv")
        then restore
        else pure ("rollback_skipped", reason "rollback_runner_not_configured")

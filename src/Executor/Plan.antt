-- ===== src/Executor/Plan.antt =====
-- `execute_plan` of layer4-executor/src/executor.py, in the stages that its early returns make: the
-- checks that come before any request, the checks of the node, the snapshot, the steps, and the
-- final verification.
pub mod Cleared
use aads.Prelude.{
  ℕ, zero, suc, String, ◌<>◌, Bool, true, false, not, ◌&&◌, Option, none, some, List, [], ◌∷◌, ℤ,
  pos, str_eq, if◌then◌else◌,
}
use aads.Python
use aads.Python.{
  Py, ok, raise, type_error, Json, null, str, arr, obj, Items, nil, cons, Fields, end, field, get,
  set, truthy?, or_else, get_or, is_str, as_dict, item,
}
use aads.Store.{
  Db, Status, blocked, failed_retryable, execution_failed, final_verifying, final_verified,
  Diagnosis, Approval, AgentNode, StepStatus, step_verified, step_failed_aborted, fetchrow,
  is_report, set_status, set_plan_status, approval_valid,
}
use aads.Executor.Effect.{Env, World, M, ◌>>=◌, ◌>>◌, pure, lift, gets, change, audit}
use aads.Executor.Validate.{validate_plan, plan_auto_allowed, environment_allowed}
use aads.Executor.Observe.{Action, terminal_blocked, terminal_failed, pause, classify_step_failure}
use aads.Executor.Step.{Job, execute_fixing_step, run_verification, ensure_snapshot, rollback}
use aads.Executor.Close.{pause_execution, finish_execution, import_knowledge_case}
use aads.Executor.Recover.{load_node, steps_of, recovery_start_index}

abbrev pub because : String → Fields
because reason = field "reason" (str reason) end

-- `approval_plan_hash`: of the latest approval, whatever has been decided since
unfoldable pub approval_plan_hash : String → Db → Option String
approval_plan_hash plan_id db =
    elim (fetchrow (λ (a : Approval). str_eq a.plan_id plan_id && a.is_approved) db.approvals) [
      | none ↦ none
      | some a ↦ a.plan_sha256
    ]

-- `any(… for step in plan["steps"])`, which stops at the first
unfoldable pub any_mutating : Items → Py Bool
any_mutating nil = ok false
any_mutating (cons x rest) =
    let others = any_mutating rest in
    Python.◌>>=◌ (as_dict x) λ step.
      Python.◌>>=◌ (as_dict (or_else (get step "runner") (obj end))) λ runner.
        if is_str (get_or (get runner "side_effect") null) "mutate" then ok true else others

-- `steps[n:]`
unfoldable pub skip : ℕ → Items → Items
skip zero xs = xs
skip (suc n) nil = nil
skip (suc n) (cons x xs) = skip n xs

snoc : Items → Json → Items
snoc nil y = cons y nil
snoc (cons x xs) y = cons x (snoc xs y)

abbrev step_status_text : StepStatus → String
step_status_text StepStatus.step_running = "step_running"
step_status_text step_verified = "step_verified"
step_status_text StepStatus.step_failed_blocked = "step_failed_blocked"
step_status_text step_failed_aborted = "step_failed_aborted"

-- `final_result["steps"].append({…})`
unfoldable pub append_step : Json → StepStatus × Fields → Fields → Fields
unfolding snoc
append_step step_id outcome final =
    let entry = obj (
      field "step_id" step_id
        (field "status" (str (step_status_text outcome.0)) (field "result" (obj outcome.1) end))) in
    elim (get_or (get final "steps") (arr nil)) [
      | arr xs ↦ set final "steps" (arr (snoc xs entry))
      | _ ↦ final
    ]

module _ (env : Env) (job : Job) (plan : Fields) where
  unfoldable pub conclude : StepStatus → Fields → Fields → M (Unit {0})
  conclude step_verified payload final = do
    audit "execution.final_verified" job.plan_id "allowed" "final_verified"
    change (λ db.
        set_plan_status job.plan_id final_verified (set_status job.execution_id final_verified db))
    kb ← import_knowledge_case env job.plan_id
    finish_execution job.execution_id kb.0 (set final "knowledge_base" (obj kb.1))
  conclude _ payload final =
      pause_execution job.execution_id job.plan_id "final_verification_failed"

  unfoldable pub verify_plan : Fields → M (Unit {0})
  verify_plan final = do
    change (λ db.
        set_plan_status job.plan_id final_verifying
          (set_status job.execution_id final_verifying db))
    audit "execution.final_verifying" job.plan_id "allowed" "final_verifying"
    verification ← lift (item plan "final_verification")
    seen ← run_verification env job verification none "final_verification" none
    conclude seen.0 seen.1 (set final "final_verification" (obj seen.1))

  -- the rollback of an aborted step, where the plan has one
  unfoldable pub roll_back : StepStatus → Fields → M Fields
  roll_back step_failed_aborted final = do
    spec ← lift (as_dict (or_else (get plan "rollback") (obj end)))
    let restore = do
      undone ← rollback env job plan
      pure (
          set final "rollback"
            (obj (field "status" (str undone.0) (field "result" (obj undone.1) end))))
    if truthy? (get spec "enabled") then restore else pure final
  roll_back _ final = pure final

  unfoldable pub leave : Action → Fields → M (Unit {0})
  leave (pause drift_type) final = pause_execution job.execution_id job.plan_id drift_type
  leave terminal_blocked final = finish_execution job.execution_id blocked final
  leave terminal_failed final = finish_execution job.execution_id execution_failed final

  -- what follows a step: the next, or the end of the execution
  unfoldable pub after_step : StepStatus → Fields → Fields → M (Unit {0}) → M (Unit {0})
  after_step step_verified result final next = next
  after_step status result final next = do
    undone ← roll_back status final
    leave (classify_step_failure status result) undone

  unfoldable pub run_steps : Items → Fields → M (Unit {0})
  run_steps nil final = verify_plan final
  run_steps (cons x rest) final = do
    step ← lift (as_dict x)
    outcome ← execute_fixing_step env job step
    step_id ← lift (item step "step_id")
    let done = append_step step_id outcome final
    after_step outcome.0 outcome.1 done (run_steps rest done)

  unfoldable pub run_from : Items → Fields → Option ℕ → M (Unit {0})
  run_from steps final none =
      pause_execution job.execution_id job.plan_id "unrecoverable_step_state"
  run_from steps final (some index) = run_steps (skip index steps) final

  unfoldable pub resume_steps : Items → Fields → M (Unit {0})
  resume_steps steps final = do
    index ← recovery_start_index env job plan
    run_from steps final index

  unfoldable pub after_snapshot : Items → Fields → Bool × Fields → M (Unit {0})
  after_snapshot steps final (true, result) = resume_steps steps final
  after_snapshot steps final (false, result) =
      if is_str (get_or (get result "reason") null) "hook_denied"
      then pause_execution job.execution_id job.plan_id "policy_violation"
      else finish_execution job.execution_id blocked (field "reason" (str "snapshot_failed") final)

  unfoldable pub snapshot_wanted : Items → Py Bool
  snapshot_wanted steps = Python.◌>>=◌ (any_mutating steps) λ mutating.
      if mutating
      then (Python.◌>>=◌ (as_dict (get_or (get plan "pre_execution_snapshot") (obj end)))
          λ spec. ok (truthy? (get spec "enabled")))
      else ok false

  unfoldable pub run_plan : M (Unit {0})
  run_plan = do
    steps ← lift (steps_of plan)
    wanted ← lift (snapshot_wanted steps)
    let snapshot = do
      taken ← ensure_snapshot env job plan
      after_snapshot steps
          (field "steps" (arr nil) (field "pre_execution_snapshot" (obj taken.1) end)) taken
    if wanted then snapshot else resume_steps steps (field "steps" (arr nil) end)

-- `if approved_hash:` …, the test against the hash of the plan as it is stored now
unfoldable pub hash_differs : Env → Fields → Option String → Bool
hash_differs env plan none = false
hash_differs env plan (some approved) =
    not (str_eq approved "") && not (str_eq (env.plan_sha256 plan) approved)

abbrev pub effective_schema : Diagnosis → Json
effective_schema d =
    or_else (get d.action_plan "schema_version") (or_else (some (str d.schema_version)) (str "1.0"))

module _ (env : Env) (execution_id plan_id : String) where
  unfoldable pub blocked_by : String → M (Unit {0})
  blocked_by reason = do
    audit "policy.blocked" plan_id reason "blocked"
    finish_execution execution_id blocked (because reason)

  unfoldable pub check_environment : Fields → AgentNode → M (Unit {0})
  check_environment plan node = do
    policy ← lift (as_dict (or_else (get plan "environment_policy") (obj end)))
    if environment_allowed node.environment policy
        then (run_plan env
            (record {
              execution_id = execution_id;
              plan_id = plan_id;
              node = node;
              execution_profile = get plan "execution_profile";
            })
            plan)
        else blocked_by "environment_policy"

  unfoldable pub check_reached : Fields → Option AgentNode → M (Unit {0})
  check_reached plan none =
      finish_execution execution_id failed_retryable (because "agent_unreachable_or_unknown")
  check_reached plan (some node) = check_environment plan node

  unfoldable pub check_node : Fields → M (Unit {0})
  check_node plan = do
    target_node_id ← lift (item plan "target_node_id")
    node ← load_node env plan_id target_node_id
    check_reached plan node

  unfoldable pub check_hash : Fields → M (Unit {0})
  check_hash plan = do
    approved_hash ← gets (λ w. approval_plan_hash plan_id w.db)
    if hash_differs env plan approved_hash
        then pause_execution execution_id plan_id "approved_plan_hash_mismatch"
        else check_node plan

  unfoldable pub check_approval : Fields → M (Unit {0})
  check_approval plan = do
    approved ← gets (λ w. approval_valid w.now plan_id w.db)
    allowed ← lift (if approved then ok true else plan_auto_allowed plan)
    if allowed then check_hash plan else blocked_by "approval_required_or_expired"

  unfoldable pub check_valid : Fields → Option String → M (Unit {0})
  check_valid plan none = check_approval plan
  check_valid plan (some reason) = blocked_by reason

  unfoldable pub check_plan : Diagnosis → M (Unit {0})
  check_plan d = do
    invalid ← lift (validate_plan d.action_plan (effective_schema d))
    check_valid d.action_plan invalid

  unfoldable pub check_stored : Option Diagnosis → M (Unit {0})
  check_stored none = finish_execution execution_id blocked (because "missing_plan")
  check_stored (some d) = check_plan d

  unfoldable pub execute_plan : M (Unit {0})
  execute_plan = do
    diagnosis ← gets (λ w. fetchrow (is_report plan_id) w.db.reports)
    check_stored diagnosis

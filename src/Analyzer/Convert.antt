-- ===== src/Analyzer/Convert.antt =====
-- `_to_fixing_plan` of layer2-analyzer/src/main.py and the functions that it uses.
pub mod Tables
pub mod Services
pub mod Steps
pub mod Profiles
pub mod Built
pub mod Returns
pub mod Catalogued
use aads.Prelude.{
  ℕ, suc, String, ◌<>◌, Bool, true, false, not, ◌&&◌, ◌||◌, Option, none, some, List, [], ◌∷◌, ◌++◌,
  map, ℤ, pos, ltb_ℤ, str_eq, contains, sorted_by, any, all, if◌then◌else◌,
}
use aads.Python.{Py, ok, raise, ◌>>=◌, value_error, Json, bool, str, Fields, end, field}
use aads.Policy.{RunnerSpec, ExecutionProfile}
use aads.Catalog.{
  Key, VerificationSpec, lookup, runner_for, verification_for, idempotency_for,
  final_verification_for, snapshot_for, rollback_for, primary_service,
}
use aads.Catalog.Profile.{execution_profile_for}
use aads.Schema.{
  FixingPlan, FixingPlanStep, PreExecutionSnapshot, RollbackSpec, PlanSelfCheck, valid_step,
  option_list, fixing_plan,
}
use aads.Analyzer.{
  ClaudeStylePlan, ExecutionStep, Config, Cluster, cluster_context_text, is_test, is_execute,
  executable_of, sorted_set,
}

-- the commands of the `Execute` steps, by step id
unfoldable pub commands_of : List ExecutionStep → List Key
commands_of [] = []
commands_of (step ∷ steps) =
    let rest = commands_of steps in
    if is_execute step then executable_of step.commands ++ rest else rest

unfoldable pub executable_commands : ClaudeStylePlan → List Key
executable_commands plan =
    commands_of
      (sorted_by (λ (a b : ExecutionStep). ltb_ℤ a.step_id b.step_id) plan.execution_steps)

-- `_SERVICE_EVIDENCE_ALIASES.get(service, (service.lower(),))`
unfoldable pub aliases : Config → String → List String
aliases config service =
    if str_eq service "nginx"
    then "nginx" ∷ []
    else if str_eq service "postgresql"
    then "postgresql" ∷ "postgres" ∷ " pg " ∷ "pg_ctl" ∷ []
    else if str_eq service "redis"
    then "redis" ∷ []
    else if str_eq service "mysql"
    then "mysql" ∷ "mariadb" ∷ "mysqld" ∷ "mariadbd" ∷ []
    else config.lower service ∷ []

unfoldable pub is_evident : Config → Cluster → String → Bool
is_evident config cluster service =
    any (λ alias. contains alias (cluster_context_text config cluster)) (aliases config service)

-- `_assert_plan_matches_evidence`: all services that it refuses raise the same error.
unfoldable pub assert_plan_matches_evidence : Config → Cluster → List String → Py {0} Unit
assert_plan_matches_evidence config cluster services =
    if all (is_evident config cluster) services then ok tt else raise value_error

outcomes : List (Key × String)
outcomes =
    (("nginx", "start"), "nginx service is active")
    ∷ (("nginx", "restore_config"), "known-good nginx config is restored and reload succeeds")
    ∷ (("nginx", "reload"), "nginx config validates and reload succeeds")
    ∷ (("postgresql", "restart"), "postgresql service is active and accepting connections")
    ∷ (
      ("postgresql", "restore_config"),
      "known-good postgresql config is restored and service reloads",
    )
    ∷ (("postgresql", "reload"), "postgresql config reloaded successfully")
    ∷ (("redis", "restart"), "redis service is active and responding to PING")
    ∷ (("redis", "restore_config"), "known-good redis config is restored and service restarts")
    ∷ (("mysql", "restart"), "mysql/mariadb service is active and accepting connections")
    ∷ (("mysql", "restore_config"), "known-good mysql config is restored and service restarts")
    ∷ (("mysql", "reload"), "mysql/mariadb config reloaded successfully")
    ∷ []

abbrev pub default_outcome : Key → Option String → String
default_outcome key none = key.0 <> ("." <> (key.1 <> " completes successfully"))
default_outcome key (some outcome) = outcome

unfoldable pub expected_outcome_for : Key → String
unfolding outcomes lookup
expected_outcome_for key = default_outcome key (lookup key outcomes)

-- `FixingPlanStep(...)` for the command at a position
abbrev pub step_for : ℕ → Key → RunnerSpec → VerificationSpec → FixingPlanStep
step_for index key runner verification = record {
  step_id = pos index;
  order = pos index;
  runner = runner;
  context =
      field "purpose" (str "repair")
        (field "service" (str key.0) (field "operation" (str key.1) end));
  idempotency = idempotency_for key.0 key.1;
  expected_outcome = expected_outcome_for key;
  on_failure = "rollback";
  verification = verification;
}

unfoldable pub fixing_step : ℕ → Key → Py FixingPlanStep
fixing_step index key = do
  runner ← runner_for key.0 key.1
  verification ← verification_for key.0 key.1
  if valid_step (step_for index key runner verification)
      then ok (step_for index key runner verification)
      else raise value_error

unfoldable pub fixing_steps : ℕ → List Key → Py (List FixingPlanStep)
fixing_steps index [] = ok []
fixing_steps index (key ∷ keys) = do
  step ← fixing_step index key
  steps ← fixing_steps (suc index) keys
  ok (step ∷ steps)

unfoldable pub environment_policy : Config → Fields
environment_policy config = field "environment" (str config.default_node_environment) (
    field "auto_execute_allowed" (bool (is_test config && not config.force_gate_approval))
      (field "requires_approval" (bool (config.force_gate_approval || not (is_test config))) end))

abbrev pub is_some : Option RunnerSpec → Bool
is_some none = false
is_some (some _) = true

abbrev pub checked_items : List String
checked_items =
    "schema_version=3.1" ∷ "ordered steps" ∷ "runner specs with side_effect"
    ∷ "extractor-based verification" ∷ "environment policy injected"
    ∷ "execution_profile covers all plan runners" ∷ "plan services observed in cluster evidence"
    ∷ []

-- the runners that the profile is derived from
unfoldable pub profile_runners :
    List FixingPlanStep → VerificationSpec → RunnerSpec → Option RunnerSpec → List RunnerSpec
profile_runners steps final snapshot rollback =
    map (λ (s : FixingPlanStep). s.runner) steps
    ++ (map (λ (s : FixingPlanStep). s.verification.runner) steps
        ++ (final.runner ∷ snapshot ∷ option_list rollback))

-- the fields that `FixingPlan(...)` is called with
abbrev pub plan_with :
    Config
    → String
    → String
    → String
    → List FixingPlanStep
    → VerificationSpec
    → RunnerSpec × String
    → Option RunnerSpec
    → ExecutionProfile
    → FixingPlan
plan_with config goal diagnosis_id report_id steps final snapshot rollback profile = record {
  schema_version = "3.1";
  plan_id = diagnosis_id;
  rca_report_id = report_id;
  target_node_id = config.default_node_id;
  goal = goal;
  risk_level = "low";
  environment_policy = environment_policy config;
  execution_profile = profile;
  pre_execution_snapshot = record {
    enabled = true;
    runner = some snapshot.0;
    scope = snapshot.1;
    on_failure = "block";
  };
  rollback = record { enabled = is_some rollback; runner = rollback };
  steps = steps;
  final_verification = final;
  self_check = record {
    passed = true;
    rationale = "FixingPlan uses argv runner specs with declarative structured verification.";
    checked_items = checked_items;
  };
}

-- from the services of the repair on
unfoldable pub plan_for :
    Config → String → String → String → List FixingPlanStep → List String → Py FixingPlan
plan_for config goal diagnosis_id report_id steps services = do
  final ← final_verification_for services
  snapshot ← snapshot_for (primary_service services)
  rollback ← rollback_for (primary_service services)
  profile ←
      execution_profile_for (profile_runners steps final snapshot.0 rollback)
        (sorted_set (primary_service services ∷ services))
  fixing_plan (plan_with config goal diagnosis_id report_id steps final snapshot rollback profile)

unfoldable pub fixing_plan_of :
    Config → Cluster → String → String → String → List Key → Py FixingPlan
fixing_plan_of config cluster goal diagnosis_id report_id [] = raise value_error
fixing_plan_of config cluster goal diagnosis_id report_id (key ∷ keys) =
    let services = map (λ (k : Key). k.0) (key ∷ keys) in
    do
      steps ← fixing_steps 1 (key ∷ keys)
      _ ← assert_plan_matches_evidence config cluster services
      plan_for config goal diagnosis_id report_id steps services

-- `_to_fixing_plan`; `report_id` is that of the root-cause report
unfoldable pub to_fixing_plan : Config → ClaudeStylePlan → Cluster → String → String → Py FixingPlan
to_fixing_plan config plan cluster diagnosis_id report_id =
    fixing_plan_of config cluster plan.goal diagnosis_id report_id (executable_commands plan)

-- ===== src/Schema.antt =====
-- layer2-analyzer/src/schemas/action_plan.py: the models of the executable plan, schema 3.1, with
-- the constraints of their fields and their validators. A model that a validator refuses raises
-- pydantic's ValidationError, which is a ValueError. Types of fields are those of the records.
pub mod Accepted
pub mod Orders
pub mod Dump
use aads.Prelude.{
  ℕ, ◌==◌, String, Bool, true, false, not, ◌&&◌, ◌||◌, Option, none, some, List, [], ◌∷◌, ◌++◌, map,
  ℤ, pos, leb_ℤ, ltb_ℤ, eq_ℤ, str_eq, str_mem, all, any, sorted_by, if◌then◌else◌,
}
use aads.Python.{
  Py, ok, raise, value_error, Json, null, bool, obj, Fields, end, field, get, has, keys, is_str,
}
use aads.Policy.{
  Reason, RunnerSpec, CommandPermission, PathPermission, ExecutionProfile, profile_allows,
}
use aads.Catalog.{VerificationSpec}
use aads.Catalog.Profile.{is_side_effect, within_600, command_permission, path_permission}

abbrev pub nonempty : String → Bool
nonempty s = not (str_eq s "")

abbrev pub filled {ℓ} : {A : Type ℓ} → List A → Bool
filled [] = false
filled (_ ∷ _) = true

abbrev pub is_ok {ℓ} : {A : Type ℓ} → Py A → Bool
is_ok (ok _) = true
is_ok (raise _) = false

-- `RunnerSpec`
unfoldable pub valid_runner : RunnerSpec → Bool
valid_runner r =
    (str_eq r.mode "argv" && (filled r.argv && all nonempty r.argv))
    && (within_600 r.timeout_seconds && is_side_effect r.side_effect)

-- `ExecutionProfile`, which is built from permissions that are validated themselves
unfoldable pub valid_profile : ExecutionProfile → Bool
valid_profile p =
    (str_eq p.profile_version "1.0" && filled p.allowed_commands)
    && (all (λ c. is_ok (command_permission c)) p.allowed_commands
        && all (λ c. is_ok (path_permission c)) p.path_permissions)

abbrev sources : List String
sources = "stdout" ∷ "stderr" ∷ "stdout_stripped" ∷ "stderr_stripped" ∷ "returncode" ∷ []

abbrev pub is_source : Option Json → Bool
is_source (some (Json.str s)) = str_mem s sources
is_source _ = false

-- the field `from_`, by its alias or by its name
abbrev pub source_of : Fields → Option Json
source_of rule = elim (get rule "from") [ none ↦ get rule "from_" | some s ↦ some s ]

abbrev is_optional_text : Option Json → Bool
is_optional_text none = true
is_optional_text (some null) = true
is_optional_text (some (Json.str _)) = true
is_optional_text (some _) = false

-- a flag is given as a Boolean; the other values that pydantic converts are left out
abbrev is_flag : Option Json → Bool
is_flag none = true
is_flag (some (Json.bool _)) = true
is_flag (some _) = false

unfoldable pub valid_rule : Json → Bool
valid_rule (obj rule) =
    is_source (source_of rule)
    && (is_flag (get rule "as_int")
        && all (λ name. is_optional_text (get rule name))
            ("equals" ∷ "contains" ∷ "regex" ∷ "json_path" ∷ []))
valid_rule _ = false

-- `ExtractRule`, of every field of `extract`
unfoldable pub valid_rules : Fields → Bool
valid_rules end = true
valid_rules (field name rule rules) = valid_rule rule && valid_rules rules

-- `VerificationSpec`
unfoldable pub expected_must_be_structured : Fields → Bool
expected_must_be_structured end = false
expected_must_be_structured (field k v fs) =
    not
      (has (field k v fs) "text" || (has (field k v fs) "prompt" || has (field k v fs) "llm_judge"))

unfoldable pub valid_verification : VerificationSpec → Bool
valid_verification v =
    (valid_runner v.runner && (valid_rules v.extract && expected_must_be_structured v.expected))
    && (str_eq v.runner.side_effect "read" && all (has v.extract) (keys v.expected))

-- the validator `runner_required_when_enabled` of the snapshot and of the rollback
unfoldable pub runner_required_when_enabled : Bool → Option RunnerSpec → Bool
runner_required_when_enabled enabled none = not enabled
runner_required_when_enabled enabled (some r) = valid_runner r && str_eq r.side_effect "mutate"

pub record PreExecutionSnapshot : Type 0 where
  pub enabled : Bool
  pub runner : Option RunnerSpec
  pub scope : String
  pub on_failure : String

abbrev pub scopes : List String
scopes = "nginx_config" ∷ "postgresql_config" ∷ "redis_config" ∷ "mysql_config" ∷ []

unfoldable pub valid_snapshot : PreExecutionSnapshot → Bool
valid_snapshot s =
    runner_required_when_enabled s.enabled s.runner
    && (str_mem s.scope scopes && str_mem s.on_failure ("block" ∷ "continue_if_existing" ∷ []))

pub record RollbackSpec : Type 0 where
  pub enabled : Bool
  pub runner : Option RunnerSpec

unfoldable pub valid_rollback : RollbackSpec → Bool
valid_rollback r = runner_required_when_enabled r.enabled r.runner

pub record FixingPlanStep : Type 0 where
  pub step_id : ℤ
  pub order : ℤ
  pub runner : RunnerSpec
  pub context : Fields
  pub idempotency : Fields
  pub expected_outcome : String
  pub on_failure : String
  pub verification : VerificationSpec

unfoldable pub valid_step : FixingPlanStep → Bool
valid_step s =
    ((leb_ℤ (pos 1) s.step_id && leb_ℤ (pos 1) s.order) && valid_runner s.runner)
    && ((nonempty s.expected_outcome && str_mem s.on_failure ("abort" ∷ "rollback" ∷ []))
        && valid_verification s.verification)

pub record PlanSelfCheck : Type 0 where
  pub passed : Bool
  pub rationale : String
  pub checked_items : List String

pub record FixingPlan : Type 0 where
  pub schema_version : String
  pub plan_id : String
  pub rca_report_id : String
  pub target_node_id : String
  pub goal : String
  pub risk_level : String
  pub environment_policy : Fields
  pub execution_profile : ExecutionProfile
  pub pre_execution_snapshot : PreExecutionSnapshot
  pub rollback : RollbackSpec
  pub steps : List FixingPlanStep
  pub final_verification : VerificationSpec
  pub self_check : PlanSelfCheck

-- `len(set(orders)) == len(orders)` and `orders == sorted(orders)`
unfoldable pub unique_orders : List ℤ → Bool
unique_orders [] = true
unique_orders (n ∷ ns) = not (any (eq_ℤ n) ns) && unique_orders ns

unfoldable pub same_orders : List ℤ → List ℤ → Bool
same_orders [] [] = true
same_orders [] (_ ∷ _) = false
same_orders (_ ∷ _) [] = false
same_orders (m ∷ ms) (n ∷ ns) = eq_ℤ m n && same_orders ms ns

abbrev pub option_list : Option RunnerSpec → List RunnerSpec
option_list none = []
option_list (some r) = r ∷ []

-- `_all_runners`, without the labels
unfoldable pub step_runners : List FixingPlanStep → List RunnerSpec
step_runners [] = []
step_runners (s ∷ steps) = s.runner ∷ s.verification.runner ∷ step_runners steps

unfoldable pub all_runners : FixingPlan → List RunnerSpec
all_runners plan =
    step_runners plan.steps
    ++ (plan.final_verification.runner
        ∷ (option_list plan.pre_execution_snapshot.runner ++ option_list plan.rollback.runner))

-- `x is True`
abbrev pub is_true : Option Json → Bool
is_true (some (bool b)) = b
is_true _ = false

abbrev pub equals_text : Option Json → String → Bool
equals_text none s = false
equals_text (some x) s = is_str x s

unfoldable pub prod_auto : Fields → Bool
prod_auto policy =
    equals_text (get policy "environment") "prod" && is_true (get policy "auto_execute_allowed")

abbrev pub is_none : Option Reason → Bool
is_none none = true
is_none (some _) = false

unfoldable pub validate_order_and_policy : FixingPlan → Bool
validate_order_and_policy plan =
    let orders = map (λ (s : FixingPlanStep). s.order) plan.steps in
    ((unique_orders orders && same_orders orders (sorted_by ltb_ℤ orders))
      && (not (prod_auto plan.environment_policy) && plan.self_check.passed))
    && all (λ r. is_none (profile_allows (some plan.execution_profile) r)) (all_runners plan)

unfoldable pub valid_fields : FixingPlan → Bool
valid_fields plan =
    ((str_eq plan.schema_version "3.1" && (nonempty plan.plan_id && nonempty plan.rca_report_id))
      && ((nonempty plan.target_node_id && nonempty plan.goal)
          && str_mem plan.risk_level ("low" ∷ "medium" ∷ "high" ∷ "critical" ∷ [])))
    && (((valid_profile plan.execution_profile && valid_snapshot plan.pre_execution_snapshot)
          && (valid_rollback plan.rollback && (filled plan.steps && all valid_step plan.steps)))
        && (valid_verification plan.final_verification && nonempty plan.self_check.rationale))

-- `FixingPlan(...)`
unfoldable pub fixing_plan : FixingPlan → Py FixingPlan
fixing_plan plan =
    if valid_fields plan && validate_order_and_policy plan then ok plan else raise value_error

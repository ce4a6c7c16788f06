-- ===== src/Executor/Validate.antt =====
-- `validate_plan`, `validate_runner`, `validate_verification` and the policy tests of
-- layer4-executor/src/executor.py, over the JSON of the stored plan.
use aads.Prelude.{
  String, ◌<>◌, Bool, true, false, not, ◌&&◌, ◌||◌, Option, none, some, List, [], ◌∷◌, str_eq, any,
  all, if◌then◌else◌,
}
use aads.Python.{
  Py, ok, raise, ◌>>=◌, Json, null, bool, str, arr, obj, cons, Fields, end, field, get, has, keys,
  items, truthy, truthy?, or_else, get_or, is_str, as_dict, item, in_set,
}
use aads.Executor.Order.{misordered}

-- `none` is valid, `some reason` is what blocks the plan.
abbrev pub Check : Type 0
Check = Py (Option String)

abbrev pub supported_plan_schemas : List String
supported_plan_schemas = "3.0" ∷ "3.1" ∷ []

-- `if reason: return reason`, and what follows
abbrev pub and_then : Check → Check → Check
and_then (ok none) rest = rest
and_then (ok (some reason)) rest = ok (some reason)
and_then (raise e) rest = raise e

abbrev pub fail_if : Bool → String → Option String → Option String
fail_if test reason rest = if test then some reason else rest

abbrev pub is_nonempty_str : Json → Bool
is_nonempty_str (str s) = not (str_eq s "")
is_nonempty_str _ = false

abbrev pub is_argv : Option Json → Bool
is_argv (some (arr (cons x xs))) = all is_nonempty_str (items (cons x xs))
is_argv _ = false

unfoldable pub validate_runner : Option Json → Bool → Option String
validate_runner (some (obj runner)) require_read =
    let side_effect = get_or (get runner "side_effect") (str "read") in
    fail_if (not (is_argv (get runner "argv"))) "invalid_runner_argv" (
      fail_if (not (is_str (get_or (get runner "mode") (str "argv")) "argv"))
        "unsupported_runner_mode"
        (fail_if (not (is_str side_effect "read" || is_str side_effect "mutate"))
          "invalid_side_effect"
          (fail_if (require_read && not (is_str side_effect "read")) "verification_runner_not_read"
            none)))
validate_runner _ require_read = some "missing_runner"

-- the tests from `expected = verification.get("expected")` on
unfoldable pub validate_expected : Option Json → Json → Check
validate_expected (some (obj (field k v fs))) extract =
    let expected = field k v fs in
    if any (has expected) ("text" ∷ "prompt" ∷ "llm_judge" ∷ [])
    then ok (some "free_text_verification_not_allowed")
    else (do
      extracted ← as_dict extract
      ok (fail_if (not (all (has extracted) (keys expected))) "extract_missing_expected_keys" none))
validate_expected _ extract = ok (some "invalid_structured_verification")

unfoldable pub validate_verification : Json → Check
validate_verification verification = do
  v ← as_dict verification
  if not (is_str (get_or (get v "type") (str "runner_probe")) "runner_probe")
      then ok (some "invalid_verification_type")
      else and_then (ok (validate_runner (get v "runner") true))
          (validate_expected (get v "expected") (or_else (get v "extract") (obj end)))

-- `for field in names: if field not in d: return prefix + field`
unfoldable pub require_fields : String → Fields → List String → Option String
require_fields prefix d [] = none
require_fields prefix d (name ∷ names) =
    fail_if (not (has d name)) (prefix <> name) (require_fields prefix d names)

abbrev pub required : List String
required =
    "plan_id" ∷ "rca_report_id" ∷ "target_node_id" ∷ "goal" ∷ "risk_level" ∷ "environment_policy"
    ∷ "pre_execution_snapshot" ∷ "steps" ∷ "final_verification" ∷ "self_check" ∷ []

abbrev pub required_of_step : List String
required_of_step =
    "step_id" ∷ "order" ∷ "runner" ∷ "expected_outcome" ∷ "on_failure" ∷ "verification" ∷ []

-- the body of the loop over the steps
unfoldable pub validate_step : Fields → Check
validate_step step = and_then (ok (require_fields "missing_step_" step required_of_step)) (do
  on_failure ← item step "on_failure"
  if not (is_str on_failure "abort" || is_str on_failure "rollback")
      then ok (some "invalid_on_failure")
      else and_then (ok (validate_runner (get step "runner") false))
          (do verification ← item step "verification"; validate_verification verification))

unfoldable pub validate_steps : List Fields → Check
validate_steps [] = ok none
validate_steps (step ∷ steps) = and_then (validate_step step) (validate_steps steps)

-- `[step.get(...) for step in steps]` raises at a step that is no dict
unfoldable pub as_dicts : List Json → Py (List Fields)
as_dicts [] = ok []
as_dicts (x ∷ xs) = do d ← as_dict x; ds ← as_dicts xs; ok (d ∷ ds)

abbrev pub orders : List Fields → List Json
orders [] = []
orders (step ∷ steps) = get_or (get step "order") null ∷ orders steps

unfoldable pub validate_step_list : Option Json → Check
validate_step_list (some (arr (cons x xs))) = do
  steps ← as_dicts (items (cons x xs))
  disordered ← misordered (orders steps)
  if disordered then ok (some "invalid_step_order") else validate_steps steps
validate_step_list _ = ok (some "no_steps")

unfoldable pub validate_profile : Fields → Check
validate_profile plan = do
  profile ← as_dict (or_else (get plan "execution_profile") (obj end))
  ok (fail_if (not (truthy? (get profile "allowed_commands"))) "missing_execution_profile" none)

-- the second half of the first test, and the profile that the schema 3.1 requires
unfoldable pub validate_version : Fields → Json → Check
validate_version plan version = do
  supported ← in_set version supported_plan_schemas
  if not supported
      then ok (some "unsupported_schema")
      else if is_str version "3.1"
      then validate_profile plan
      else ok none

unfoldable pub validate_schema : Fields → Json → Check
validate_schema plan schema_version = do
  stated ← in_set schema_version supported_plan_schemas
  if not stated
      then ok (some "unsupported_schema")
      else validate_version plan (get_or (get plan "schema_version") null)

unfoldable pub validate_self_check : Fields → Check
validate_self_check plan = do
  self_check ← as_dict (or_else (get plan "self_check") (obj end))
  ok (fail_if (not (truthy? (get self_check "passed"))) "self_check_failed" none)

unfoldable pub validate_plan : Fields → Json → Check
validate_plan plan schema_version = and_then (validate_schema plan schema_version) (
    and_then (ok (require_fields "missing_" plan required)) (
      and_then (validate_self_check plan) (
        and_then (validate_step_list (get plan "steps"))
          (do final ← item plan "final_verification"; validate_verification final))))

-- `x is True`
abbrev pub is_true : Option Json → Bool
is_true (some (bool b)) = b
is_true _ = false

-- `environment_allowed`
unfoldable pub environment_allowed : String → Fields → Bool
environment_allowed node_environment env_policy =
    let expected = get_or (get env_policy "environment") null in
    if truthy expected && not (is_str expected node_environment)
    then false
    else not (str_eq node_environment "prod" && is_true (get env_policy "auto_execute_allowed"))

-- `plan_auto_allowed`
unfoldable pub plan_auto_allowed : Fields → Py Bool
plan_auto_allowed plan =
    if not (is_str (get_or (get plan "risk_level") null) "low") then ok false else (do
      policy ← as_dict (or_else (get plan "environment_policy") (obj end))
      ok (
          is_str (get_or (get policy "environment") null) "test"
          && (is_true (get policy "auto_execute_allowed")
              && not (truthy? (get policy "security_review_required")))))

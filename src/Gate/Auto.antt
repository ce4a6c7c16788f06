-- ===== src/Gate/Auto.antt =====
-- `plan_auto_allowed` and `first_target_node` of dashboard/app.py.
use aads.Prelude.{
  Bool, true, false, not, ◌&&◌, Option, none, some, List, [], ◌∷◌, map, ◌≡◌, refl, ◌↔◌, str_eq,
  if◌then◌else◌,
}
use aads.Python.{
  Py, ok, raise, ◌>>=◌, type_error, Json, null, str, arr, obj, nil, Fields, end, get, keys, items,
  truthy?, or_else, get_or, is_str, as_dict, in_set,
}
use aads.Executor.Validate
use aads.Executor.Validate.{is_true}
use aads.Gate.{supported_execution_schemas}

-- `for x in value`: a text gives its characters, none of which is a dict
unfoldable pub iterate : Json → Py (List Json)
iterate (arr xs) = ok (items xs)
iterate (obj fs) = ok (map str (keys fs))
iterate (str s) = ok (if str_eq s "" then [] else (str s ∷ []))
iterate _ = raise type_error

unfoldable pub commands_allowed : List Json → Py Bool
commands_allowed [] = ok true
commands_allowed (x ∷ xs) =
    let rest = commands_allowed xs in
    do
      command ← as_dict x
      policy ← as_dict (or_else (get command "environment_policy") (obj end))
      if is_str (get_or (get policy "environment") null) "test"
            && is_true (get policy "auto_execute_allowed")
          then rest
          else ok false

unfoldable pub steps_allowed : List Json → Py Bool
steps_allowed [] = ok true
steps_allowed (x ∷ xs) =
    let rest = steps_allowed xs in
    do
      step ← as_dict x
      if not (is_str (get_or (get step "phase") null) "Execute") then rest else (do
        commands ← iterate (get_or (get step "commands") (arr nil))
        allowed ← commands_allowed commands
        if allowed then rest else ok false)

-- a plan of a supported schema
unfoldable pub policy_allows : Fields → Py Bool
policy_allows plan =
    if not (is_str (get_or (get plan "risk_level") null) "low" && truthy? (get plan "steps"))
    then ok false
    else (do
      policy ← as_dict (or_else (get plan "environment_policy") (obj end))
      ok (
          is_str (get_or (get policy "environment") null) "test"
          && (is_true (get policy "auto_execute_allowed")
              && not (truthy? (get policy "security_review_required")))))

unfoldable pub plan_auto_allowed : Fields → Py Bool
plan_auto_allowed plan = do
  supported ← in_set (get_or (get plan "schema_version") null) supported_execution_schemas
  if supported
      then policy_allows plan
      else (do steps ← iterate (get_or (get plan "execution_steps") (arr nil)); steps_allowed steps)

-- the first target that a command of the step has
unfoldable pub target_of_commands : List Json → Py (Option Json)
target_of_commands [] = ok none
target_of_commands (x ∷ xs) =
    let rest = target_of_commands xs in
    do
      command ← as_dict x
      if truthy? (get command "target_node_id") then ok (get command "target_node_id") else rest

unfoldable pub target_of_steps : List Json → Py (Option Json)
target_of_steps [] = ok none
target_of_steps (x ∷ xs) =
    let rest = target_of_steps xs in
    do
      step ← as_dict x
      commands ← iterate (get_or (get step "commands") (arr nil))
      target ← target_of_commands commands
      elim target [ none ↦ rest | some t ↦ ok (some t) ]

unfoldable pub first_target_node : Fields → Py (Option Json)
first_target_node plan = do
  supported ← in_set (get_or (get plan "schema_version") null) supported_execution_schemas
  if supported then ok (get plan "target_node_id") else (do
    steps ← iterate (get_or (get plan "execution_steps") (arr nil))
    target_of_steps steps)

with_steps :
    (low steps : Bool) (rest : Py Bool)
    → ((if not (low && steps) then ok false else rest) ≡ ok true)
      ↔ ((steps ≡ true) × ((if not low then ok false else rest) ≡ ok true))
with_steps true true rest = ((λ h. (refl, h)), (λ h. h.1))
with_steps true false rest = ((λ h. cc), (λ h. cc))
with_steps false true rest = ((λ h. cc), (λ h. cc))
with_steps false false rest = ((λ h. cc), (λ h. cc))

-- For a plan of a supported schema, the gate allows it without approval exactly if the executor does
-- and the plan has steps.
pub plan_auto_allowed_iff :
    (plan : Fields)
    → in_set (get_or (get plan "schema_version") null) supported_execution_schemas ≡ ok true
    → (plan_auto_allowed plan ≡ ok true)
      ↔ ((truthy? (get plan "steps") ≡ true) × (Validate.plan_auto_allowed plan ≡ ok true))
unfolding plan_auto_allowed policy_allows Validate.plan_auto_allowed
plan_auto_allowed_iff plan h = rw h (with_steps _ _ _)

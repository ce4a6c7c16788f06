-- ===== src/Schema/Dump.antt =====
-- The JSON of a plan, `model_dump(by_alias=True)` of the models of
-- layer2-analyzer/src/schemas/action_plan.py: a field for each field of a model, in its order.
pub mod Executable
use aads.Prelude.{String, Bool, Option, none, some, List, [], ◌∷◌, ℤ}
use aads.Python.{
  Json, null, bool, num, str, arr, obj, Items, nil, cons, Fields, end, field, get, get_or,
}
use aads.Policy.{RunnerSpec, CommandPermission, PathPermission, ExecutionProfile}
use aads.Catalog.{VerificationSpec}
use aads.Schema.{
  source_of, PreExecutionSnapshot, RollbackSpec, FixingPlanStep, PlanSelfCheck, FixingPlan,
}

abbrev pub texts : List String → Items
texts [] = nil
texts (x ∷ xs) = cons (str x) (texts xs)

abbrev pub pairs : List (String × String) → Fields
pairs [] = end
pairs (p ∷ ps) = field p.0 (str p.1) (pairs ps)

abbrev pub optional_text : Option String → Json
optional_text none = null
optional_text (some s) = str s

unfoldable pub dump_runner : RunnerSpec → Fields
dump_runner r = field "mode" (str r.mode) (
    field "argv" (arr (texts r.argv)) (
      field "cwd" (str r.cwd) (
        field "env" (obj (pairs r.env)) (
          field "timeout_seconds" (num r.timeout_seconds) (
            field "as_root" (bool r.as_root) (
              field "side_effect" (str r.side_effect)
                (field "stdin" (optional_text r.stdin) end)))))))

abbrev pub optional_runner : Option RunnerSpec → Json
optional_runner none = null
optional_runner (some r) = obj (dump_runner r)

unfoldable pub dump_command : CommandPermission → Fields
dump_command c = field "argv0" (str c.argv0) (
    field "argv_prefix" (arr (texts c.argv_prefix)) (
      field "allow_extra_args" (bool c.allow_extra_args) (
        field "as_root" (bool c.as_root) (
          field "side_effect" (str c.side_effect)
            (field "max_timeout_seconds" (num c.max_timeout_seconds) end)))))

abbrev pub dump_commands : List CommandPermission → Items
dump_commands [] = nil
dump_commands (c ∷ cs) = cons (obj (dump_command c)) (dump_commands cs)

abbrev pub dump_paths : List PathPermission → Items
dump_paths [] = nil
dump_paths (p ∷ ps) =
    cons (obj (field "path" (str p.path) (field "mode" (str p.mode) end))) (dump_paths ps)

unfoldable pub dump_profile : ExecutionProfile → Fields
dump_profile p = field "profile_version" (str p.profile_version) (
    field "generated_by" (str p.generated_by) (
      field "allowed_commands" (arr (dump_commands p.allowed_commands))
        (field "path_permissions" (arr (dump_paths p.path_permissions)) end)))

-- `ExtractRule`, with the defaults of the fields that the rule does not set
abbrev pub dump_rule : Json → Json
dump_rule (obj rule) = obj (
    field "from" (get_or (source_of rule) null) (
      field "equals" (get_or (get rule "equals") null) (
        field "contains" (get_or (get rule "contains") null) (
          field "regex" (get_or (get rule "regex") null) (
            field "as_int" (get_or (get rule "as_int") (bool Bool.false))
              (field "json_path" (get_or (get rule "json_path") null) end))))))
dump_rule other = other

abbrev pub dump_rules : Fields → Fields
dump_rules end = end
dump_rules (field name rule rules) = field name (dump_rule rule) (dump_rules rules)

unfoldable pub dump_verification : VerificationSpec → Fields
dump_verification v = field "type" (str "runner_probe") (
    field "runner" (obj (dump_runner v.runner))
      (field "extract" (obj (dump_rules v.extract)) (field "expected" (obj v.expected) end)))

unfoldable pub dump_snapshot : PreExecutionSnapshot → Fields
dump_snapshot s = field "enabled" (bool s.enabled) (
    field "runner" (optional_runner s.runner)
      (field "scope" (str s.scope) (field "on_failure" (str s.on_failure) end)))

unfoldable pub dump_rollback : RollbackSpec → Fields
dump_rollback r = field "enabled" (bool r.enabled) (field "runner" (optional_runner r.runner) end)

unfoldable pub dump_step : FixingPlanStep → Fields
dump_step s = field "step_id" (num s.step_id) (
    field "order" (num s.order) (
      field "runner" (obj (dump_runner s.runner)) (
        field "context" (obj s.context) (
          field "idempotency" (obj s.idempotency) (
            field "expected_outcome" (str s.expected_outcome) (
              field "on_failure" (str s.on_failure)
                (field "verification" (obj (dump_verification s.verification)) end)))))))

abbrev pub dump_steps : List FixingPlanStep → Items
dump_steps [] = nil
dump_steps (s ∷ steps) = cons (obj (dump_step s)) (dump_steps steps)

unfoldable pub dump_self_check : PlanSelfCheck → Fields
dump_self_check c =
    field "passed" (bool c.passed) (
      field "rationale" (str c.rationale) (field "checked_items" (arr (texts c.checked_items)) end))

unfoldable pub dump_plan : FixingPlan → Fields
dump_plan p = field "schema_version" (str p.schema_version) (
    field "plan_id" (str p.plan_id) (
      field "rca_report_id" (str p.rca_report_id) (
        field "target_node_id" (str p.target_node_id) (
          field "goal" (str p.goal) (
            field "risk_level" (str p.risk_level) (
              field "environment_policy" (obj p.environment_policy) (
                field "execution_profile" (obj (dump_profile p.execution_profile)) (
                  field "pre_execution_snapshot" (obj (dump_snapshot p.pre_execution_snapshot)) (
                    field "rollback" (obj (dump_rollback p.rollback)) (
                      field "steps" (arr (dump_steps p.steps)) (
                        field "final_verification" (obj (dump_verification p.final_verification))
                          (field "self_check" (obj (dump_self_check p.self_check)) end))))))))))))

-- ===== src/Analyzer/Lab.antt =====
-- `_apply_environment_policy` and `_ensure_lab_node_agent_steps` of layer2-analyzer/src/main.py.
-- `existing_ids` is the list of the pairs in the set.
pub mod Repairs
use aads.Prelude.{
  String, ◌<>◌, Bool, true, false, not, ◌&&◌, ◌||◌, Option, none, some, List, [], ◌∷◌, ◌++◌, map, ℤ,
  pos, negsuc, zero, suc, max_ℤ, str_eq, contains, any, if◌then◌else◌,
}
use aads.Python.{Json, bool, str, Fields, end, field, set}
use aads.Catalog.{Key}
use aads.Analyzer.{
  StepCommand, ExecutionStep, ClaudeStylePlan, Config, Cluster, cluster_context_text, messages_of,
  is_test, is_execute, operation_of,
}

-- `self.force_gate_approval or self.default_node_environment != "test"`
unfoldable pub wants_approval : Config → Bool
wants_approval config = config.force_gate_approval || not (is_test config)

-- `if not command.target_node_id: ...`
abbrev pub target_or : Option String → String → Option String
target_or none node = some node
target_or (some t) node = if str_eq t "" then some node else some t

unfoldable pub with_policy : Config → ExecutionStep → StepCommand → StepCommand
with_policy config step command = record command {
  target_node_id = target_or command.target_node_id config.default_node_id;
  environment_policy =
      set
        (set (set command.environment_policy "environment" (str config.default_node_environment))
          "auto_execute_allowed"
          (bool (
            (is_test config && not config.force_gate_approval)
            && (str_eq command.risk_level "low" && not step.requires_approval))))
        "requires_approval" (bool (is_execute step && wants_approval config));
}

unfoldable pub apply_environment_policy : Config → ClaudeStylePlan → ClaudeStylePlan
apply_environment_policy config plan = record plan {
  execution_steps =
      map
        (λ (step : ExecutionStep). record step {
          commands = map (with_policy config step) step.commands;
        })
        plan.execution_steps;
}

abbrev pub same_pair : Key → Key → Bool
same_pair a b = str_eq a.0 b.0 && str_eq a.1 b.1

-- `(command.target, command.operation)`, where the operation is set
unfoldable pub ids_of : List StepCommand → List Key
ids_of [] = []
ids_of (command ∷ commands) =
    let rest = ids_of commands in
    elim (operation_of command) [
      | none ↦ rest
      | some operation ↦ (command.target, operation) ∷ rest
    ]

unfoldable pub existing_ids : List ExecutionStep → List Key
existing_ids [] = []
existing_ids (step ∷ steps) = ids_of step.commands ++ existing_ids steps

-- `max((step.step_id for step in steps), default=0)`
unfoldable pub last_step_id : List ExecutionStep → ℤ
last_step_id [] = pos 0
last_step_id (step ∷ []) = step.step_id
last_step_id (step ∷ next ∷ steps) = max_ℤ step.step_id (last_step_id (next ∷ steps))

abbrev pub succ_ℤ : ℤ → ℤ
succ_ℤ (pos n) = pos (suc n)
succ_ℤ (negsuc zero) = pos 0
succ_ℤ (negsuc (suc n)) = negsuc n

-- the variables that the closures change: `plan`, `existing_ids`, `next_step_id`
pub record Draft : Type 0 where
  pub steps : List ExecutionStep
  pub ids : List Key
  pub next_step_id : ℤ

-- what the calls of `add_step` differ in
pub record Addition : Type 0 where
  pub title : String
  pub operation : String
  pub phase : String
  pub explanation : String
  pub target : String
  pub requires_approval : Bool

unfoldable pub added_step : Config → ℤ → Addition → ExecutionStep
added_step config id a = record {
  step_id = id;
  title = a.title;
  phase = a.phase;
  explanation = a.explanation;
  requires_approval = a.requires_approval;
  status = "pending";
  commands =
      (record {
        schema_version = "1.0";
        tool_name = "node_agent";
        operation = some a.operation;
        target_node_id = some config.default_node_id;
        target = a.target;
        command = a.target <> ("." <> a.operation);
        args = end;
        risk_level = "low";
        environment_policy = field "environment" (str config.default_node_environment) (
            field "auto_execute_allowed" (bool (is_test config && not config.force_gate_approval))
              (field "requires_approval" (bool (wants_approval config)) end));
      })
      ∷ [];
  action_type = if str_eq a.phase "Execute" then "k8s_exec" else "verify";
  target = a.target;
  command = a.target <> ("." <> a.operation);
  is_destructive = str_eq a.phase "Execute";
}

-- the closure `add_step`
unfoldable pub add_step : Config → Addition → Draft → Draft
add_step config a draft =
    if any (same_pair (a.target, a.operation)) draft.ids then draft else record {
      steps = draft.steps ++ added_step config draft.next_step_id a ∷ [];
      ids = (a.target, a.operation) ∷ draft.ids;
      next_step_id = succ_ℤ draft.next_step_id;
    }

-- the command is none of the pairs
abbrev pub is_kept : List Key → StepCommand → Bool
is_kept pairs command = elim command.operation [
  | none ↦ true
  | some operation ↦ not (any (same_pair (command.target, operation)) pairs)
]

unfoldable pub filter {ℓ} : {A : Type ℓ} → (A → Bool) → List A → List A
filter p [] = []
filter p (x ∷ xs) = let rest = filter p xs in if p x then x ∷ rest else rest

-- the closure `remove_existing_node_commands`
unfoldable pub remove_commands : List Key → List ExecutionStep → List ExecutionStep
unfolding filter
remove_commands pairs [] = []
remove_commands pairs (step ∷ steps) =
    (if is_execute step
      then record step { commands = filter (is_kept pairs) step.commands }
      else step)
    ∷ remove_commands pairs steps

unfoldable pub remove_existing_node_commands : List Key → Draft → Draft
remove_existing_node_commands pairs draft = record draft {
  steps = remove_commands pairs draft.steps;
  ids = filter (λ id. not (any (same_pair id) pairs)) draft.ids;
}

-- ===== src/Analyzer.antt =====
-- layer2-analyzer/src/main.py: the display plan of the agent and what it is about, as the analyzer
-- reads them (the legacy models of layer2-analyzer/src/schemas/action_plan.py). The confidence of a
-- plan, a float that nothing decides on, is left out.
pub mod Lab
pub mod Convert
pub mod Storing
use aads.Prelude.{
  ℕ, String, ◌<>◌, Bool, true, false, not, ◌&&◌, ◌||◌, Option, none, some, List, [], ◌∷◌, ◌++◌, map,
  ℤ, pos, leb_ℤ, str_eq, str_lt, str_mem, contains, join, sorted_by, any, all, if◌then◌else◌,
}
use aads.Python.{Py, ok, raise, value_error, Fields}

pub record StepCommand : Type 0 where
  pub schema_version : String
  pub tool_name : String
  pub operation : Option String
  pub target_node_id : Option String
  pub target : String
  pub command : String
  pub args : Fields
  pub risk_level : String
  pub environment_policy : Fields

pub record ExecutionStep : Type 0 where
  pub step_id : ℤ
  pub title : String
  pub phase : String
  pub explanation : String
  pub requires_approval : Bool
  pub status : String
  pub commands : List StepCommand
  pub action_type : String
  pub target : String
  pub command : String
  pub is_destructive : Bool

pub record ClaudeStylePlan : Type 0 where
  pub schema_version : String
  pub goal : String
  pub context_analysis : String
  pub proposed_approach : String
  pub execution_steps : List ExecutionStep
  pub root_cause : String

-- `self.default_node_id`, `self.default_node_environment`, `self.force_gate_approval`, and the
-- conversion of texts to lower case
pub record Config : Type 0 where
  pub default_node_id : String
  pub default_node_environment : String
  pub force_gate_approval : Bool
  pub lower : String → String

-- what the analyzer reads of an anomaly: `str(a.get(key, ""))`
pub record Labels : Type 0 where
  pub raw_message : String
  pub service : String
  pub container : String
  pub job : String

-- what it reads of a cluster; the sets are in the order in which they are iterated
pub record Cluster : Type 0 where
  pub cluster_id : String
  pub anomalies : List Labels
  pub containers : List String
  pub services : List String
  pub templates : List String

unfoldable pub messages_of : Cluster → String
messages_of cluster = join " " (map (λ (a : Labels). a.raw_message) cluster.anomalies)

-- `_cluster_context_text`
unfoldable pub cluster_context_text : Config → Cluster → String
cluster_context_text config cluster = join " " (
    config.lower (messages_of cluster)
    ∷ config.lower (join " " cluster.containers)
    ∷ config.lower (join " " cluster.services)
    ∷ config.lower (
        join " " (
          map (λ (a : Labels). a.service <> (" " <> (a.container <> (" " <> a.job))))
            cluster.anomalies))
    ∷ [])

-- `self.default_node_environment == "test"`
unfoldable pub is_test : Config → Bool
is_test config = str_eq config.default_node_environment "test"

-- `operation` is set and not empty
abbrev pub operation_of : StepCommand → Option String
operation_of command = elim command.operation [
  | none ↦ none
  | some operation ↦ if str_eq operation "" then none else some operation
]

abbrev pub is_execute : ExecutionStep → Bool
is_execute step = str_eq step.phase "Execute"

-- `(target, operation)` of the node_agent commands that have an operation
unfoldable pub executable_of : List StepCommand → List (String × String)
executable_of [] = []
executable_of (command ∷ commands) =
    let rest = executable_of commands in
    elim (operation_of command) [
      | none ↦ rest
      | some operation ↦
          if str_eq command.tool_name "node_agent" then (command.target, operation) ∷ rest else rest
    ]

-- `_extract_node_agent_command_ids`, before it is sorted without repetition
unfoldable pub command_labels : List ExecutionStep → List String
command_labels [] = []
command_labels (step ∷ steps) =
    map (λ (key : String × String). key.0 <> ("." <> key.1)) (executable_of step.commands)
    ++ command_labels steps

-- `sorted(set(xs))` of texts
unfoldable pub distinct : List String → List String
distinct [] = []
distinct (x ∷ xs) = let rest = distinct xs in if str_mem x rest then rest else x ∷ rest

unfoldable pub sorted_set : List String → List String
sorted_set xs = sorted_by str_lt (distinct xs)

unfoldable pub extract_node_agent_command_ids : ClaudeStylePlan → List String
extract_node_agent_command_ids plan = sorted_set (command_labels plan.execution_steps)

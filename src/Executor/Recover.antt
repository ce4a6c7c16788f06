-- ===== src/Executor/Recover.antt =====
-- `load_node` and `recovery_start_index` of layer4-executor/src/executor.py. The index -1 is `none`.
use aads.Prelude.{
  ℕ, suc, String, Bool, true, false, ◌&&◌, Option, none, some, List, pos, ltb, ltb_ℤ, rstrip,
  if◌then◌else◌,
}
use aads.Python
use aads.Python.{
  Py, ok, raise, type_error, key_error, Json, null, bool, num, str, arr, obj, Items, nil, cons,
  Fields, end, field, get, or_else, get_or, is_str, as_dict, item, py_eq,
}
use aads.Store.{AgentNode, StepRow, StepStatus, step_running, step_verified, fetchrow}
use aads.Executor.Effect.{
  Env, M, ◌>>=◌, ◌>>◌, pure, lift, gets, audit, upsert_step, get_facts, Transport, success,
  call_agent, is_step,
}
use aads.Executor.Runner.{max_attempts}
use aads.Executor.Step.{Job, run_verification, step_label}

-- A text column takes a text; `None` is NULL, which no row equals.
unfoldable pub text_of : Json → Py String
text_of (str s) = ok s
text_of null = ok ""
text_of _ = raise type_error

abbrev pub is_node : Json → AgentNode → Bool
is_node target n = is_str target n.node_id

unfoldable pub reached : String → AgentNode → Transport → M (Option AgentNode)
reached plan_id node success = pure (some node)
reached plan_id node _ = do
  audit "agent.unreachable" plan_id "allowed" "failed_retryable"
  pure none

unfoldable pub reach : Env → String → Option AgentNode → M (Option AgentNode)
reach env plan_id none = do audit "policy.blocked" plan_id "unknown_node" "blocked"; pure none
reach env plan_id (some node) = do
  answer ← call_agent env (get_facts (rstrip b'/' node.base_url))
  reached plan_id node answer.0

unfoldable pub load_node : Env → String → Json → M (Option AgentNode)
load_node env plan_id target_node_id = do
  _ ← lift (text_of target_node_id)
  found ← gets (λ w. fetchrow (is_node target_node_id) w.db.nodes)
  reach env plan_id found

-- `plan["steps"]`
unfoldable pub steps_of : Fields → Py Items
steps_of plan = elim (get plan "steps") [
  | none ↦ raise key_error
  | some x ↦ elim x [ arr xs ↦ ok xs | _ ↦ raise type_error ]
]

-- `step_id > 0`
abbrev pub is_positive : Json → Bool
is_positive (num n) = ltb_ℤ (pos 0) n
is_positive _ = false

abbrev pub is_row : String → Json → StepRow → Bool
is_row execution_id step_id row = is_step execution_id step_id row && is_positive row.step_id

-- whether a step that was interrupted may be run again
unfoldable pub may_rerun : Env → Fields → ℕ → Py Bool
may_rerun env step retry_count =
    let idempotency = or_else (get step "idempotency") (obj end) in
    Python.◌>>=◌ (as_dict idempotency) λ d.
      if is_str (get_or (get d "mode") null) "idempotent"
      then (Python.◌>>=◌ (max_attempts env idempotency) λ n. ok (ltb (suc retry_count) n))
      else ok false

module _ (env : Env) (job : Job) (plan : Fields) where
  -- a step that was running: its verification decides
  unfoldable pub recover_running :
      Fields → Json → ℕ → StepStatus × Fields → ℕ → M (Option ℕ) → M (Option ℕ)
  recover_running step step_id retry_count (step_verified, seen) index next = do
    label ← lift (step_label env job step)
    upsert_step job.execution_id step_id step_verified label retry_count
        (field "recovered" (bool true) end)
    next
  recover_running step step_id retry_count (_, seen) index next = do
    again ← lift (may_rerun env step retry_count)
    pure (if again then some index else none)

  unfoldable pub recover_row : Fields → Json → StepStatus → ℕ → ℕ → M (Option ℕ) → M (Option ℕ)
  recover_row step step_id step_verified retry_count index next = next
  recover_row step step_id step_running retry_count index next = do
    verification ← lift (item step "verification")
    plan_id ← lift (item plan "plan_id")
    id ← lift (text_of plan_id)
    _ ← lift (item plan "schema_version")
    seen ←
        run_verification env (record job { plan_id = id }) verification (some step_id)
          "recovery_verification" (some job.execution_id)
    recover_running step step_id retry_count seen index next
  recover_row step step_id _ retry_count index next = pure (some index)

  -- the loop over the steps, with the rows as they were before it
  unfoldable pub recover_steps : List StepRow → ℕ → Items → M (Option ℕ)
  recover_steps rows index nil = pure (some index)
  recover_steps rows index (cons x rest) = do
    step ← lift (as_dict x)
    step_id ← lift (item step "step_id")
    elim (fetchrow (is_row job.execution_id step_id) rows) [
      | none ↦ pure (some index)
      | some row ↦
          recover_row step step_id row.status row.retry_count index
            (recover_steps rows (suc index) rest)
    ]

  unfoldable pub recovery_start_index : M (Option ℕ)
  recovery_start_index = do
    rows ← gets (λ w. w.db.steps)
    steps ← lift (steps_of plan)
    recover_steps rows 0 steps

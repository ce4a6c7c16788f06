-- ===== src/Executor/Runner.antt =====
-- `run_runner_command`, `acquire_lock` and `max_attempts` of layer4-executor/src/executor.py.
pub mod Attempts
pub mod Locking
use Prim.Native.Nat.{max, ◌*◌}
use aads.Prelude.{
  ℕ, zero, suc, ◌+◌, ◌-◌, String, ◌<>◌, Bool, true, false, not, ◌&&◌, Option, none, some, List, [],
  ◌∷◌, ℤ, pos, negsuc, pos_part, str_eq, ltb, leb, ◌==◌, first_char, rstrip, if◌then◌else◌,
}
use aads.Python
use aads.Python.{
  Py, ok, raise, type_error, value_error, key_error, index_error, Json, null, bool, num, str, arr,
  obj, Items, nil, cons, Fields, end, field, get, set, truthy, truthy?, or_else, get_or, is_str,
  as_dict, int_of_bool,
}
use aads.Store.{Db, Lock, AgentNode, fetchrow, update, delete, step_running}
use aads.Executor.Effect.{
  Env, World, M, ◌>>=◌, ◌>>◌, pure, lift, gets, change, mint, finally, Call, run_command, Transport,
  success, blocked, error, timed_call, audit, upsert_step,
}

-- the status that `run_runner_command` returns
pub data RunStatus : Type 0 where
  succeeded refused errored failed_retryable : RunStatus

-- `int(x)`
unfoldable pub to_int : Env → Json → Py ℤ
to_int env (num n) = ok n
to_int env (bool b) = ok (int_of_bool b)
to_int env (str s) = elim (env.parse_int s) [ none ↦ raise value_error | some n ↦ ok n ]
to_int env _ = raise type_error

-- `max(1, int(…))`
abbrev pub at_least_one : ℤ → ℕ
at_least_one n = max 1 (pos_part n)

unfoldable pub max_attempts : Env → Json → Py ℕ
unfolding to_int
max_attempts env idempotency = Python.◌>>=◌ (as_dict (or_else (some idempotency) (obj end))) λ d.
    if not (is_str (get_or (get d "mode") (str "idempotent")) "idempotent")
    then ok 1
    else Python.◌>>=◌ (to_int env (get_or (get d "max_attempts") (num (pos 2))))
        λ n. ok (at_least_one n)

-- `ttl = max(timeout_seconds * 2, DEFAULT_LOCK_TTL_SECONDS)`
unfoldable pub lock_ttl : Env → ℤ → ℕ
lock_ttl env timeout_seconds = max (pos_part timeout_seconds * 2) env.lock_ttl

abbrev pub is_lock_of : String → Lock → Bool
is_lock_of node_id l = str_eq l.node_id node_id

-- `INSERT … ON CONFLICT (node_id) DO UPDATE … WHERE expires_at < NOW() RETURNING lock_id`
unfoldable pub insert_lock : ℕ → Lock → List Lock → List Lock × Bool
insert_lock now new locks = elim (fetchrow (is_lock_of new.node_id) locks) [
  | none ↦ (new ∷ locks, true)
  | some old ↦
      if ltb old.expires_at now
      then (update (is_lock_of new.node_id) (λ _. new) locks, true)
      else (locks, false)
]

module _ (env : Env) where
  unfoldable pub acquire_lock : (node_id execution_id : String) → ℤ → M (Option ℕ)
  acquire_lock node_id execution_id timeout_seconds w =
      let new : Lock = record {
        node_id = node_id;
        lock_id = w.minted;
        execution_id = execution_id;
        expires_at = w.now + lock_ttl env timeout_seconds;
      } in
      let (locks, acquired) = insert_lock w.now new w.db.locks in
      (
        ok (if acquired then some w.minted else none),
        record w { db = record w.db { locks = locks }; minted = suc w.minted },
      )

-- `DELETE FROM node_locks WHERE node_id = $1 AND lock_id = $2`
unfoldable pub release_lock : String → Option ℕ → World → World
release_lock node_id none w = w
release_lock node_id (some lock_id) w = record w {
  db = record w.db {
    locks = delete (λ (l : Lock). str_eq l.node_id node_id && l.lock_id == lock_id) w.db.locks;
  };
}

-- The arguments of one command.
pub record Command : Type 0 where
  pub plan_id : String
  pub step_id : Option Json
  pub node : AgentNode
  pub runner : Json
  pub context : Json
  pub idempotency : Json
  pub execution_id : String
  pub execution_profile : Option Json

-- `context.get("service", "") and f"{service}.{operation}" or (runner.get("argv") or ["runner"])[0]`
first_of_argv : Option Json → Py Json
first_of_argv argv = elim (or_else argv (arr (cons (str "runner") nil))) [
  | arr xs ↦ elim xs [ nil ↦ raise index_error | cons x _ ↦ ok x ]
  | str s ↦ ok (str (first_char s))
  | obj _ ↦ raise key_error
  | _ ↦ raise type_error
]

unfoldable pub label_of : Env → Fields → Fields → Py String
unfolding first_of_argv
label_of env context runner =
    if truthy (get_or (get context "service") (str ""))
    then ok (
        env.format (get_or (get context "service") null)
        <> "."
        <> env.format (get_or (get context "operation") null))
    else Python.◌>>=◌ (first_of_argv (get runner "argv")) λ x. ok (env.format x)

-- `if step_id is not None: await self.upsert_step(…, "step_running", …)`
unfoldable pub mark_running : Command → String → ℕ → M (Unit {0})
mark_running cmd label retry_count = elim cmd.step_id [
  | none ↦ pure tt
  | some step_id ↦ upsert_step cmd.execution_id step_id step_running label retry_count end
]

-- `attempt < attempts`, by the attempts left after this one
unfoldable pub is_retry : ℕ → Bool
is_retry zero = false
is_retry (suc _) = true

module _ (env : Env) (cmd : Command) where
  unfoldable pub audited : String → String → (RunStatus × Fields) → M (RunStatus × Fields)
  audited event result answer = do audit event cmd.plan_id "allowed" result; pure answer

  -- the request body; the profile rides along only `if execution_profile`
  unfoldable pub request : Call
  request =
      run_command (rstrip b'/' cmd.node.base_url) cmd.runner cmd.context cmd.idempotency
        (if truthy? cmd.execution_profile then cmd.execution_profile else none)

  unfoldable pub retried : M (RunStatus × Fields) → M (RunStatus × Fields)
  retried again = do audit "execution.retrying" cmd.plan_id "allowed" "step_failed_retried"; again

  -- what the loop body does with an answer; `again` is the next round
  unfoldable pub settle : Transport → ℕ → Fields → M (RunStatus × Fields) → M (RunStatus × Fields)
  settle success rest payload again =
      if is_str (get_or (get payload "status") null) "blocked"
      then audited "execution.command_blocked" "blocked" (refused, payload)
      else if is_str (get_or (get payload "status") null) "success"
      then audited "execution.command_success" "success" (succeeded, payload)
      else if is_retry rest
      then retried again
      else again
  settle _ rest payload again =
      if is_retry rest
      then retried again
      else audited "execution.command_failed" "failed_retryable" (errored, payload)

  -- the loop `for attempt in range(1, attempts + 1)`, by the attempts left
  unfoldable pub attempt_loop : String → ℕ → ℕ → Fields → M (RunStatus × Fields)
  attempt_loop label zero retry_count last =
      audited "execution.command_failed" "failed_retryable" (failed_retryable, last)
  attempt_loop label (suc rest) retry_count last = do
    mark_running cmd label retry_count
    audit "execution.attempt" cmd.plan_id "allowed" "step_running"
    (transport, answer) ← timed_call env request
    let payload = set answer "retry_count" (num (pos retry_count))
    settle transport rest payload (attempt_loop label rest (suc retry_count) payload)

  -- the part under `try: … finally:`
  unfoldable pub with_lock : String → ℕ → Option ℕ → M (RunStatus × Fields)
  with_lock label attempts lock_id =
      finally (attempt_loop label attempts 0 end) (release_lock cmd.node.node_id lock_id)

  unfoldable pub locked_out : M (RunStatus × Fields)
  locked_out = do
    audit "policy.blocked" cmd.plan_id "node_locked" "blocked"
    pure (refused, field "reason" (str "node_locked") (field "retry_count" (num (pos 0)) end))

  unfoldable pub run_locked : Bool → ℤ → String → ℕ → M (RunStatus × Fields)
  run_locked mutating timeout label attempts =
      if mutating
      then (do
        lock_id ← acquire_lock env cmd.node.node_id cmd.execution_id timeout
        elim lock_id [ none ↦ locked_out | some id ↦ with_lock label attempts (some id) ])
      else with_lock label attempts none

  unfoldable pub run_runner_command : M (RunStatus × Fields)
  run_runner_command = do
    context ← lift (as_dict cmd.context)
    runner ← lift (as_dict cmd.runner)
    label ← lift (label_of env context runner)
    timeout ← lift (to_int env (get_or (get runner "timeout_seconds") (num (pos 30))))
    attempts ← lift (max_attempts env cmd.idempotency)
    run_locked (is_str (get_or (get runner "side_effect") null) "mutate") timeout label attempts

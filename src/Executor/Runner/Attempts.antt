-- ===== src/Executor/Runner/Attempts.antt =====
-- The requests that `run_runner_command` of layer4-executor/src/executor.py sends.
use aads.Prelude.{
  ℕ, zero, suc, ◌≤◌, String, ◌≡◌, refl, ◌∙◌, Bool, true, false, Option, none, some, ℤ, arith,
  if◌then◌else◌, ◌⊎◌,
}
use aads.Python.{Py, ok, raise, str, Fields, end, field, get, get_or, is_str, obj}
use aads.Store.{Db, Lock}
use aads.Executor.Effect.{
  Env, World, M, pure, finally, Call, Transport, success, call_agent, timed_call, length,
  upsert_step,
}
use aads.Executor.Runner.{
  RunStatus, max_attempts, acquire_lock, release_lock, Command, mark_running, audited, retried,
  settle, request, attempt_loop, with_lock, locked_out, run_locked, run_runner_command,
}
use aads.Executor.Effect.Sends.{
  repeat, Sends, Sent-none, Sends-pure, Sends-lift, Sends-change, Sends-bind, Sends-after,
  Sends-lift_bind, Sends-le, Sends-audit,
}

module _ (env : Env) (cmd : Command) where
  mark_running-Sends :
      (n : ℕ) (call : Call) (label : String) (k : ℕ) → Sends env call n (mark_running cmd label k)
  unfolding mark_running upsert_step
  mark_running-Sends n call label k =
      elim cmd.step_id
        as (λ o. Sends env call n (elim o [
          | none ↦ pure tt
          | some step_id ↦ upsert_step cmd.execution_id step_id aads.Store.step_running label k end
        ])) [ none ↦ Sends-pure env call n tt | some id ↦ Sends-change env call n _ ]

  audited-Sends :
      (n : ℕ) (call : Call) (e r : String) (answer : RunStatus × Fields)
      → Sends env call n (audited env cmd e r answer)
  unfolding audited
  audited-Sends n call e r answer =
      Sends-after env call n _ _ (Sends-audit env call 0 _ _ _ _)
        (λ _. Sends-pure env call n answer)

  timed_call-Sends : (call : Call) → Sends env call 1 (timed_call env call)
  unfolding timed_call call_agent
  timed_call-Sends call = record {
    at = λ w. record {
      count = 1;
      at_most = omega arith;
      calls = refl;
      elapsed = λ limit h. omega (arith, h (length w.calls) call);
    };
  }

  if-Sends :
      {A : Type 0} (call : Call) (n : ℕ) (b : Bool) (x y : M A)
      → Sends env call n x
      → Sends env call n y
      → Sends env call n (if b then x else y)
  if-Sends call n true x y hx hy = hx
  if-Sends call n false x y hx hy = hy

  retried-Sends :
      (call : Call) (n : ℕ) (again : M (RunStatus × Fields))
      → Sends env call n again
      → Sends env call n (retried env cmd again)
  unfolding retried
  retried-Sends call n again h =
      Sends-after env call n _ _ (Sends-audit env call 0 _ _ _ _) (λ _. h)

  settle-Sends :
      (call : Call) (n : ℕ) (t : Transport) (rest : ℕ) (payload : Fields)
      (again : M (RunStatus × Fields))
      → Sends env call n again
      → Sends env call n (settle env cmd t rest payload again)
  unfolding settle
  settle-Sends call n success rest payload again h = search (if-Sends, audited-Sends, retried-Sends)
  settle-Sends call n _ rest payload again h = search (if-Sends, audited-Sends, retried-Sends)

  abbrev sent : Call
  sent = request env cmd

  pub attempt_loop-Sends :
      (label : String) (n k : ℕ) (last : Fields)
      → Sends env sent n (attempt_loop env cmd label n k last)
  unfolding attempt_loop
  attempt_loop-Sends label zero k last = audited-Sends 0 sent _ _ _
  attempt_loop-Sends label (suc n) k last =
      Sends-after env sent (suc n) _ _ (mark_running-Sends 0 sent label k) λ _.
        Sends-after env sent (suc n) _ _ (Sends-audit env sent 0 _ _ _ _) λ _.
          Sends-le env sent _ (omega arith) (
            Sends-bind env sent 1 n _ _ (timed_call-Sends sent)
              λ a. settle-Sends sent n a.0 n _ _ (attempt_loop-Sends label n (suc k) _))

  release_lock-calls :
      (node : String) (id : Option ℕ) (w : World) → (release_lock node id w).calls ≡ w.calls
  unfolding release_lock
  release_lock-calls node none w = refl
  release_lock-calls node (some id) w = refl

  release_lock-now :
      (node : String) (id : Option ℕ) (w : World) → (release_lock node id w).now ≡ w.now
  unfolding release_lock
  release_lock-now node none w = refl
  release_lock-now node (some id) w = refl

  with_lock-Sends :
      (label : String) (n : ℕ) (id : Option ℕ) → Sends env sent n (with_lock env cmd label n id)
  unfolding with_lock finally
  with_lock-Sends label n id = record {
    at = λ w.
        let s = (attempt_loop-Sends label n 0 end).at w in
        record {
          count = s.count;
          at_most = s.at_most;
          calls = release_lock-calls cmd.node.node_id id _ ∙ s.calls;
          elapsed = λ limit h. omega (
            arith,
            release_lock-now cmd.node.node_id id (attempt_loop env cmd label n 0 end w).1,
            s.elapsed limit h,
          );
        };
  }

  locked_out-Sends : (n : ℕ) → Sends env sent n (locked_out env cmd)
  unfolding locked_out
  locked_out-Sends n =
      Sends-after env sent n _ _ (Sends-audit env sent 0 _ _ _ _) (λ _. Sends-pure env sent n _)

  acquire_lock-Sends :
      (node execution : String) (t : ℤ) → Sends env sent 0 (acquire_lock env node execution t)
  unfolding acquire_lock
  acquire_lock-Sends node execution t = record { at = λ w. Sent-none env sent 0 w _ refl refl }

  lock_case-Sends :
      (label : String) (n : ℕ) (id : Option ℕ)
      → Sends env sent n
          (elim id [ none ↦ locked_out env cmd | some i ↦ with_lock env cmd label n (some i) ])
  lock_case-Sends label n none = locked_out-Sends n
  lock_case-Sends label n (some id) = with_lock-Sends label n (some id)

  run_locked-Sends :
      (mutating : Bool) (t : ℤ) (label : String) (n : ℕ)
      → Sends env sent n (run_locked env cmd mutating t label n)
  unfolding run_locked
  run_locked-Sends true t label n =
      Sends-after env sent n _ _ (acquire_lock-Sends cmd.node.node_id cmd.execution_id t)
        (lock_case-Sends label n)
  run_locked-Sends false t label n = with_lock-Sends label n none

  -- the attempts that a value for `idempotency` allows; none where it raises
  abbrev pub attempts_of : Py ℕ → ℕ
  attempts_of (ok n) = n
  attempts_of (raise e) = 0

  run_runner_command-Sends :
      Sends env
        (request env cmd)
        (attempts_of (max_attempts env cmd.idempotency))
        (run_runner_command env cmd)
  unfolding run_runner_command
  run_runner_command-Sends = Sends-after env sent _ _ _ (Sends-lift env sent 0 _) λ context.
      Sends-after env sent _ _ _ (Sends-lift env sent 0 _) λ runner.
        Sends-after env sent _ _ _ (Sends-lift env sent 0 _) λ label.
          Sends-after env sent _ _ _ (Sends-lift env sent 0 _) λ timeout.
            Sends-lift_bind env sent _ _ _ λ n e. rw e (run_locked-Sends _ timeout label n)

-- Whatever the agent answers, running a command sends no request but this command's, and at most as
-- many times as its idempotency allows attempts (none where that cannot be read).
pub run_runner_command-calls :
    (env : Env) (cmd : Command) (w : World)
    → (n : ℕ) × ((n ≤ attempts_of env cmd (max_attempts env cmd.idempotency))
        × ((run_runner_command env cmd w).1.calls ≡ repeat n (request env cmd) w.calls))
run_runner_command-calls env cmd w =
    let s = (run_runner_command-Sends env cmd).at w in (s.count, (s.at_most, s.calls))

-- The attempts of a command are at least one, and exactly one if its mode is given and is not
-- "idempotent"; a missing mode counts as "idempotent".
pub max_attempts-bounds :
    (env : Env) (d : Fields) (n : ℕ)
    → max_attempts env (obj d) ≡ ok n
    → (1 ≤ n) × ((n ≡ 1) ⊎ (is_str (get_or (get d "mode") (str "idempotent")) "idempotent" ≡ true))
unfolding max_attempts
max_attempts-bounds env end n h = ground arith
max_attempts-bounds env (field k v fs) n h = ground arith

-- ===== src/Agent.antt =====
-- pi-agent/src/main.py: the On-Device Agent. `CommandRunner` and the hook pipeline of
-- `/v1/commands/run`. A handler returns its response and the processes that it has launched.
pub mod Card
pub mod Health
pub mod Enforce
pub mod Launches
use Prim.Native.Nat.{◌*◌}
use aads.Prelude.{
  ℕ, String, ◌<>◌, Bool, true, false, not, Option, none, some, List, [], ◌∷◌, ◌++◌, ℤ, pos, max_ℤ,
  min_ℤ, eq_ℤ, str_eq, last_chars, if◌then◌else◌,
}
use aads.Policy.{RunnerSpec, ExecutionProfile}
use Card.{
  Verdict, allow, deny, warn, Annotations, HookDecision, RunRequest, Digests, Hook, before_run,
  hooks, argv_sha256,
}

-- What a process reads: text, or the JSON object that the root runner wrapper parses.
pub data Stdin : Type 0 where
  no_input : Stdin
  text : String → Stdin
  request : (argv : List String) (cwd : String) (env : List (String × String)) (timeout : ℤ) → Stdin

-- The arguments of `subprocess.run`, always with `shell=False`.
pub record Launch : Type 0 where
  pub argv : List String
  pub cwd : Option String
  pub env : Option (List (String × String))
  pub input : Stdin
  pub timeout : ℤ

-- What `subprocess.run` does: it returns, it raises `TimeoutExpired`, or it raises an `OSError`
-- (no such program, no permission), which the agent does not catch.
pub data Outcome : Type 0 where
  completed : (returncode : ℤ) (stdout stderr : Option String) → Outcome
  timeout_expired : (stdout stderr : Option String) → Outcome
  os_error : Outcome

pub record RunResult : Type 0 where
  pub status : String
  pub returncode : Option ℤ
  pub stdout : String
  pub stderr : String
  pub timed_out : Bool

-- The settings read from the environment, and the processes' behaviour.
pub record Host : Type 0 where
  pub token : String
  pub policy_mode : String
  pub root_runner : String
  pub max_timeout : ℤ
  pub environ : List (String × String)
  pub execute : Launch → Outcome

abbrev pub output_limit : ℕ
output_limit = 4000

-- `(x or "")[-OUTPUT_LIMIT:]`
unfoldable pub clip : Option String → String
clip none = ""
clip (some s) = last_chars output_limit s

abbrev nonempty_or_none : String → Option String
nonempty_or_none s = if str_eq s "" then none else some s

abbrev merged_env :
    List (String × String) → List (String × String) → Option (List (String × String))
merged_env environ [] = none
merged_env environ (e ∷ es) = some (environ ++ e ∷ es)

unfoldable pub clamp_timeout : ℤ → ℤ → ℤ
clamp_timeout timeout_seconds max_timeout = max_ℤ (pos 1) (min_ℤ timeout_seconds max_timeout)

-- the first half of `CommandRunner.run`: what is launched
unfoldable pub launch_for : Host → RunnerSpec → Launch
launch_for host spec =
    let timeout = clamp_timeout spec.timeout_seconds host.max_timeout in
    if spec.as_root
    then record {
      argv = "sudo" ∷ "-n" ∷ host.root_runner ∷ [];
      cwd = none;
      env = none;
      input = request spec.argv spec.cwd spec.env timeout;
      timeout = timeout;
    }
    else record {
      argv = spec.argv;
      cwd = nonempty_or_none spec.cwd;
      env = merged_env host.environ spec.env;
      input = elim spec.stdin [ none ↦ no_input | some s ↦ text s ];
      timeout = timeout;
    }

unfoldable pub exit_status : ℤ → String
exit_status returncode = if eq_ℤ returncode (pos 0) then "success" else "failed"

-- the second half: the result, or `none` where the exception escapes
unfoldable pub result_of : Outcome → Option RunResult
result_of (completed returncode stdout stderr) = some (record {
  status = exit_status returncode;
  returncode = some returncode;
  stdout = clip stdout;
  stderr = clip stderr;
  timed_out = false;
})
result_of (timeout_expired stdout stderr) = some (record {
  status = "timeout";
  returncode = none;
  stdout = clip stdout;
  stderr = clip stderr;
  timed_out = true;
})
result_of os_error = none

unfoldable pub run : Host → RunnerSpec → Option RunResult
unfolding result_of
run host spec = result_of (host.execute (launch_for host spec))

-- `_hook_payload`
pub record HookPayload : Type 0 where
  pub decision : Option HookDecision
  pub argv_sha256 : String
  pub as_root : Bool
  pub side_effect : String

pub data Response : Type 0 where
  blocked : HookPayload → Response
  ran : RunResult → HookPayload → (retryable : Bool) → Response
  unauthorized not_configured internal_error : Response

unfoldable pub hook_payload : Option HookDecision → RunRequest → String → HookPayload
hook_payload decision req sha = record {
  decision = decision;
  argv_sha256 = sha;
  as_root = req.runner.as_root;
  side_effect = req.runner.side_effect;
}

-- The loop over `before_run`: the decision that denied, or all decisions.
pub data Gathered : Type 0 where
  denied : HookDecision → Gathered
  passed : List HookDecision → Gathered

cons_decision : HookDecision → Gathered → Gathered
cons_decision d (denied e) = denied e
cons_decision d (passed ds) = passed (d ∷ ds)

unfoldable pub gather : Digests → String → RunRequest → String → List Hook → Gathered
unfolding cons_decision
gather digests mode req sha [] = passed []
gather digests mode req sha (hook ∷ rest) =
    let decision = before_run digests mode hook req sha in
    let others = gather digests mode req sha rest in
    elim decision.decision [
      | deny ↦ denied decision
      | allow ↦ cons_decision decision others
      | warn ↦ cons_decision decision others
    ]

-- `next((d for d in decisions if d.decision == "warn"), decisions[-1] if decisions else None)`
last_decision : List HookDecision → Option HookDecision
last_decision [] = none
last_decision (d ∷ []) = some d
last_decision (d ∷ e ∷ ds) = last_decision (e ∷ ds)

first_warning : List HookDecision → Option HookDecision
first_warning [] = none
first_warning (d ∷ ds) = elim d.decision [
  | warn ↦ some d
  | allow ↦ first_warning ds
  | deny ↦ first_warning ds
]

unfoldable pub surfaced : List HookDecision → Option HookDecision
unfolding last_decision first_warning
surfaced ds = elim (first_warning ds) [ none ↦ last_decision ds | some d ↦ some d ]

-- `require_auth`: `none` is a pass
unfoldable pub require_auth : Host → Option String → Option Response
require_auth host none = if str_eq host.token "" then some not_configured else some unauthorized
require_auth host (some given) =
    if str_eq host.token ""
    then some not_configured
    else if str_eq given ("Bearer " <> host.token)
    then none
    else some unauthorized

unfoldable pub respond : Option RunResult → HookPayload → Response
respond none hook = internal_error
respond (some result) hook = ran result hook (not (str_eq result.status "success"))

-- the body of `run_command`, after authentication
unfoldable pub execute_request : Host → Digests → RunRequest → Response × List Launch
unfolding hook_payload respond
execute_request host digests req =
    let sha = argv_sha256 digests req.runner.argv in
    elim (gather digests host.policy_mode req sha hooks) [
      | denied decision ↦ (blocked (hook_payload (some decision) req sha), [])
      | passed decisions ↦ (
        respond (run host req.runner) (hook_payload (surfaced decisions) req sha),
        launch_for host req.runner ∷ [],
      )
    ]

unfoldable pub run_command : Host → Digests → Option String → RunRequest → Response × List Launch
run_command host digests authorization req = elim (require_auth host authorization) [
  | some refusal ↦ (refusal, [])
  | none ↦ execute_request host digests req
]

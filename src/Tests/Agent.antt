-- ===== src/Tests/Agent.antt =====
-- The On-Device Agent on a request to restart nginx.
use mathlib.Core.Logic.{◌≢◌}
use aads.Prelude.{
  ℕ, String, ◌≡◌, ◌≤◌, ◌↔◌, ◌⊎◌, refl, Bool, true, false, Option, none, some, List, [], ◌∷◌, ℤ, pos,
  arith, str_eq_iff,
}
use aads.Policy.{RunnerSpec, CommandPermission, PathPermission, ExecutionProfile, profile_allows}
use aads.Policy.Spec.{Permits}
use aads.Policy.Decides.{profile_allows_iff}
use aads.Agent.{
  Host, Launch, Outcome, completed, RunResult, run, launch_for, run_command, unauthorized,
  not_configured,
}
use aads.Agent.Card.{Digests, RunRequest}
use aads.Agent.Enforce.{
  Authorized, run_command-enforces, run_command-verdict, run_command-unauthorized, verdict_outcome,
}
use aads.Agent.Launches.{IsReport, IsConfined, run-IsReport, launch-IsConfined}
use aads.Agent.Health.{Node, found, answered, health_problems, IsHealthy, health_problems_iff}

abbrev restart : RunnerSpec
restart = record {
  mode = "argv";
  argv = "systemctl" ∷ "restart" ∷ "nginx" ∷ [];
  cwd = "/";
  env = [];
  timeout_seconds = pos 60;
  as_root = true;
  side_effect = "mutate";
  stdin = none;
}

abbrev profile : ExecutionProfile
profile = record {
  profile_version = "1.0";
  generated_by = "layer2";
  allowed_commands =
      (record {
        argv0 = "systemctl";
        argv_prefix = "restart" ∷ "nginx" ∷ [];
        allow_extra_args = false;
        as_root = true;
        side_effect = "mutate";
        max_timeout_seconds = pos 60;
      })
      ∷ [];
  path_permissions = (record { path = "/etc/nginx"; mode = "r" }) ∷ [];
}

abbrev host : Host
host = record {
  token = "secret";
  policy_mode = "enforce";
  root_runner = "/usr/local/sbin/aads-root-runner";
  max_timeout = pos 300;
  environ = [];
  execute = λ l. completed (pos 0) (some "done") none;
}

abbrev digests : Digests
digests = record { of_text = λ s. s; of_profile = λ p. "profile" }

abbrev req : RunRequest
req = record { runner = restart; execution_profile = some profile }

abbrev token : Option String
token = some "Bearer secret"

permits : profile_allows (some profile) restart ≡ none
unfolding profile_allows aads.Policy.find_permission aads.Policy.matches aads.Policy.check_matched
    aads.Policy.str_or aads.Policy.int_or aads.Policy.has_dotdot aads.Prelude.split
    aads.Policy.path_args_allowed aads.Prelude.begins_with
permits = refl

profile_allows_iff_example :
    (profile_allows (some profile) restart ≡ none) ↔ Permits profile restart
profile_allows_iff_example = profile_allows_iff profile restart

enforced : ◌≢◌ {A = String} "enforce" "audit"
enforced e = ground (arith, (str_eq_iff "enforce" "audit").1 e)

launches : (run_command host digests token req).1 ≡ launch_for host restart ∷ []
unfolding run_command aads.Agent.require_auth aads.Agent.execute_request aads.Agent.gather
    aads.Agent.Card.before_run profile_allows aads.Policy.find_permission aads.Policy.matches
    aads.Policy.check_matched aads.Policy.str_or aads.Policy.int_or aads.Policy.has_dotdot
    aads.Prelude.split aads.Policy.path_args_allowed aads.Prelude.begins_with
launches = refl

run_command-enforces_example :
    Authorized host token
    × ((p : ExecutionProfile) × (some profile ≡ some p) × Permits p restart)
    × (launch_for host restart ≡ launch_for host restart)
    × (◌≡◌ {A = List Launch} [] [])
run_command-enforces_example =
    run_command-enforces host digests token req (launch_for host restart) [] enforced launches

nonempty : ◌≢◌ {A = String} "secret" ""
nonempty e = ground (arith, (str_eq_iff "secret" "").1 e)

authorized : Authorized host token
authorized = record { configured = nonempty; bearer = refl }

run_command-verdict_example :
    run_command host digests token req
    ≡ verdict_outcome host digests req (profile_allows (some profile) restart)
run_command-verdict_example = run_command-verdict host digests req token authorized

unauthorized_none : ¬ Authorized host none
unauthorized_none a = cc (a.bearer)

run_command-unauthorized_example :
    (run_command host digests none req ≡ (unauthorized, []))
    ⊎ (run_command host digests none req ≡ (not_configured, []))
run_command-unauthorized_example = run_command-unauthorized host digests req none unauthorized_none

abbrev report : RunResult
report = record {
  status = "success";
  returncode = some (pos 0);
  stdout = "done";
  stderr = "";
  timed_out = false;
}

reported : run host restart ≡ some report
unfolding run aads.Agent.exit_status aads.Agent.clip aads.Prelude.last_chars
reported = refl

run-IsReport_example : IsReport report
run-IsReport_example = run-IsReport host restart report reported

launch-IsConfined_example : IsConfined host restart (launch_for host restart)
launch-IsConfined_example = launch-IsConfined host restart

abbrev node : Node
node = record {
  node_id_exists = true;
  root_runner = some (record { uid = 0; gid = 0; mode = 0o100755 });
  sudoers = found (record { uid = 0; gid = 0; mode = 0o100440 });
  sudo = answered (pos 0);
}

health_problems_iff_example : (health_problems node ≡ []) ↔ IsHealthy node
health_problems_iff_example = health_problems_iff node

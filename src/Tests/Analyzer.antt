-- ===== src/Tests/Analyzer.antt =====
-- A plan of the analyzer that starts nginx: from the display plan to the stored report.
use aads.Prelude.{
  ◌≡◌, refl, sym, ap, ◌∙◌, arith, ℕ, String, Bool, true, false, Option, none, some, List, [], ◌∷◌,
  ◌++◌, pos, All, In, here, there, all,
}
use aads.Python.{Py, ok, Json, bool, num, str, obj, Fields, end, field}
use aads.Policy.{RunnerSpec, ExecutionProfile, profile_allows}
use aads.Store.{Db, Status}
use aads.Executor.Validate
use aads.Executor.Validate.{validate_plan}
use aads.Gate.Auto
use aads.Catalog.{Key, VerificationSpec, spec_of, runner_for, lookup, mutation_runner}
use aads.Catalog.Profile.{execution_profile_for}
use aads.Catalog.Profile.Covers.{Agree, IsPlain, execution_profile_for-allows}
use aads.Schema.{FixingPlan, fixing_plan}
use aads.Schema.Accepted.{IsAccepted, fixing_plan-IsAccepted}
use aads.Schema.Dump.{dump_plan}
use aads.Schema.Dump.Executable.{fixing_plan-validate_plan}
use aads.Analyzer.{StepCommand, ExecutionStep, ClaudeStylePlan, Labels, Config, Cluster}
use aads.Analyzer.Convert.{executable_commands, is_evident, to_fixing_plan, fixing_steps}
use aads.Analyzer.Convert.Built.{IsNamed}
use aads.Analyzer.Convert.Returns.{HasRunner, services_of, to_fixing_plan-returns}
use aads.Analyzer.Storing.{store_diagnosis}
use aads.Analyzer.Storing.Tainted.{stored_plan, store_diagnosis-StaysForReview}

abbrev config : Config
config = record {
  default_node_id = "target-ubuntu";
  default_node_environment = "test";
  force_gate_approval = false;
  lower = λ s. s;
}

abbrev cluster : Cluster
cluster = record {
  cluster_id = "cluster_0";
  anomalies =
      (record { raw_message = "failed to start"; service = "nginx"; container = "web"; job = "" })
      ∷ [];
  containers = "web" ∷ [];
  services = "nginx" ∷ [];
  templates = [];
}

abbrev start : StepCommand
start = record {
  schema_version = "1.0";
  tool_name = "node_agent";
  operation = some "start";
  target_node_id = none;
  target = "nginx";
  command = "nginx.start";
  args = end;
  risk_level = "low";
  environment_policy = end;
}

abbrev display : ClaudeStylePlan
display = record {
  schema_version = "1.0";
  goal = "bring nginx back";
  context_analysis = "nginx is down";
  proposed_approach = "start it";
  execution_steps =
      (record {
        step_id = pos 1;
        title = "Start nginx";
        phase = "Execute";
        explanation = "";
        requires_approval = false;
        status = "pending";
        commands = start ∷ [];
        action_type = "k8s_exec";
        target = "nginx";
        command = "nginx.start";
        is_destructive = true;
      })
      ∷ [];
  root_cause = "";
}

abbrev start_key : Key
start_key = ("nginx", "start")

named : IsNamed config "bring nginx back" "diag_1" "rca_1"
named = record { node = refl; goal_given = refl; diagnosis = refl; report = refl }

displayed : executable_commands display ≡ start_key ∷ []
unfolding executable_commands aads.Analyzer.Convert.commands_of aads.Prelude.sorted_by
    aads.Prelude.insert_by aads.Analyzer.executable_of
displayed = refl

has_start : All HasRunner (start_key ∷ [])
unfolding runner_for lookup aads.Catalog.probes mutation_runner aads.Catalog.mutations
has_start = ((spec_of ("/usr/local/sbin/aads-nginx-start" ∷ []) true "mutate" (pos 30), refl), tt)

mentioned : all (is_evident config cluster) (services_of (start_key ∷ [])) ≡ true
unfolding is_evident aads.Analyzer.Convert.aliases aads.Prelude.contains
    aads.Analyzer.cluster_context_text aads.Prelude.join aads.Analyzer.messages_of
mentioned = refl

to_fixing_plan-returns_example :
    (fixing : FixingPlan) × ((to_fixing_plan config display cluster "diag_1" "rca_1" ≡ ok fixing)
      × (IsAccepted fixing × (fixing_steps 1 (start_key ∷ []) ≡ ok fixing.steps)))
to_fixing_plan-returns_example =
    to_fixing_plan-returns config cluster display "diag_1" "rca_1" named start_key [] displayed
      has_start mentioned

abbrev ready : RunnerSpec
ready = spec_of ("pg_isready" ∷ []) false "read" (pos 10)

abbrev ready_profile : ExecutionProfile
ready_profile = record {
  profile_version = "1.0";
  generated_by = "runner_catalog";
  allowed_commands =
      (record {
        argv0 = "pg_isready";
        argv_prefix = [];
        allow_extra_args = false;
        as_root = false;
        side_effect = "read";
        max_timeout_seconds = pos 10;
      })
      ∷ [];
  path_permissions = [];
}

derived : execution_profile_for (ready ∷ []) [] ≡ ok ready_profile
unfolding execution_profile_for aads.Catalog.Profile.grant_commands
    aads.Catalog.Profile.grant_command aads.Catalog.Profile.command_permission
    aads.Catalog.Profile.grant_services aads.Catalog.Profile.profile_of aads.Prelude.sorted_by
    aads.Prelude.insert_by
derived = refl

only : (r : RunnerSpec) → In r (ready ∷ []) → r ≡ ready
only r (here e) = e
only r (there m) = elim m [ ]

alone : Agree (ready ∷ [])
alone r s m n e =
    let same = only r m ∙ sym (only s n) in
    (ap (λ (x : RunnerSpec). x.as_root) same, ap (λ (x : RunnerSpec). x.side_effect) same)

plain : IsPlain [] ready
plain = record {
  program = "pg_isready";
  args = [];
  argv = refl;
  timeout = omega arith;
  cwd = refl;
  env = refl;
  covered = tt;
}

execution_profile_for-allows_example : profile_allows (some ready_profile) ready ≡ none
execution_profile_for-allows_example =
    execution_profile_for-allows (ready ∷ []) [] ready_profile derived alone ready (here refl) plain

abbrev check : VerificationSpec
check = record {
  runner = ready;
  extract = field "returncode" (obj (field "from" (str "returncode") end)) end;
  expected = field "returncode" (num (pos 0)) end;
}

abbrev fixing : FixingPlan
fixing = record {
  schema_version = "3.1";
  plan_id = "diag_1";
  rca_report_id = "rca_1";
  target_node_id = "target-ubuntu";
  goal = "check postgresql";
  risk_level = "low";
  environment_policy =
      field "environment" (str "test") (field "auto_execute_allowed" (bool true) end);
  execution_profile = ready_profile;
  pre_execution_snapshot = record {
    enabled = false;
    runner = none;
    scope = "nginx_config";
    on_failure = "block";
  };
  rollback = record { enabled = false; runner = none };
  steps =
      (record {
        step_id = pos 1;
        order = pos 1;
        runner = ready;
        context = end;
        idempotency = end;
        expected_outcome = "postgresql accepts connections";
        on_failure = "abort";
        verification = check;
      })
      ∷ [];
  final_verification = check;
  self_check = record { passed = true; rationale = "reads only"; checked_items = [] };
}

accepted : fixing_plan fixing ≡ ok fixing
unfolding fixing_plan aads.Schema.valid_fields aads.Schema.valid_profile
    aads.Catalog.Profile.command_permission aads.Schema.valid_snapshot
    aads.Schema.runner_required_when_enabled aads.Schema.valid_rollback aads.Schema.valid_step
    aads.Schema.valid_runner aads.Schema.valid_verification aads.Schema.valid_rules
    aads.Schema.valid_rule aads.Python.get aads.Schema.expected_must_be_structured aads.Python.has
    aads.Schema.validate_order_and_policy aads.Schema.unique_orders aads.Schema.same_orders
    aads.Policy.check_argv aads.Policy.check_commands aads.Policy.check_matched
    aads.Policy.find_permission aads.Policy.has_dotdot aads.Policy.int_or aads.Policy.matches
    aads.Policy.path_args_allowed profile_allows aads.Policy.str_or aads.Prelude.insert_by
    aads.Prelude.sorted_by aads.Prelude.split aads.Schema.all_runners aads.Schema.prod_auto
    aads.Schema.step_runners
accepted = refl

fixing_plan-IsAccepted_example : (fixing ≡ fixing) × IsAccepted fixing
fixing_plan-IsAccepted_example = fixing_plan-IsAccepted fixing fixing accepted

fixing_plan-validate_plan_example : validate_plan (dump_plan fixing) (str "3.1") ≡ ok none
fixing_plan-validate_plan_example = fixing_plan-validate_plan fixing fixing accepted

abbrev empty_db : Db
empty_db = record {
  executions = [];
  reports = [];
  approvals = [];
  steps = [];
  locks = [];
  escalations = [];
  records = [];
  nodes = [];
  audits = [];
}

abbrev hit : Fields
hit = field "pattern_id" (str "action_lure") end

abbrev kept_db : Db
kept_db = record empty_db {
  reports =
      (record {
        diagnosis_id = "diag_1";
        action_plan = stored_plan hit [] fixing;
        schema_version = "3.1";
        plan_status = Status.pending_approval;
      })
      ∷ [];
  audits =
      (record {
        event_type = "security.injection_suspected";
        plan_id = "diag_1";
        policy_decision = "flagged";
        result = "pending_approval";
      })
      ∷ [];
}

kept :
    store_diagnosis 5 "exec_1"
      (record {
        diagnosis_id = "diag_1";
        plan = stored_plan hit [] fixing;
        injection_findings = hit ∷ [];
      })
      empty_db
    ≡ ok kept_db
unfolding store_diagnosis aads.Analyzer.Storing.plan_auto_allowed dump_plan aads.Python.get
    aads.Analyzer.Storing.reviewed aads.Analyzer.Storing.fixing_plan_allowed
    aads.Analyzer.Storing.tainted_policy aads.Python.set aads.Analyzer.Storing.schema_version_of
    aads.Analyzer.Storing.insert_report aads.Store.fetchrow aads.Analyzer.Storing.flag_injection
    aads.Store.add_audit
kept = refl

store_diagnosis-StaysForReview_example :
    ((Auto.plan_auto_allowed (stored_plan hit [] fixing) ≡ ok false)
      × (Validate.plan_auto_allowed (stored_plan hit [] fixing) ≡ ok false))
    × ((kept_db.executions ≡ [])
        × (kept_db.reports
            ≡ record {
              diagnosis_id = "diag_1";
              action_plan = stored_plan hit [] fixing;
              schema_version = "3.1";
              plan_status = Status.pending_approval;
            }
              ∷ []))
store_diagnosis-StaysForReview_example =
    store_diagnosis-StaysForReview hit [] fixing refl 5 "exec_1" "diag_1" empty_db kept_db kept

-- ===== src/Analyzer/Storing.antt =====
-- layer2-analyzer/src/main.py: the policy of a tainted investigation in `analyze_cluster`, and what
-- `store_diagnosis` writes into the tables that the gate and the executor read. `id` is the fresh id
-- of an execution, `now` the time in seconds, and a stored text that is no dict is `end`.
pub mod Tainted
use aads.Prelude.{
  ℕ, ◌+◌, String, ◌<>◌, Bool, true, false, not, ◌&&◌, Option, none, some, List, [], ◌∷◌, map,
  str_eq, if◌then◌else◌,
}
use aads.Python.{
  Py, ok, raise, ◌>>=◌, value_error, Json, null, bool, num, str, arr, obj, Items, nil, Fields, end,
  field, get, set, truthy?, or_else, get_or, is_str, as_dict, in_set,
}
use aads.Store.{Status, Db, Execution, Diagnosis, IdempotencyRecord, fetchrow, add_audit, is_report}
use aads.Executor.Validate.{is_true}
use aads.Gate.Auto.{iterate, target_of_steps}
use aads.Gate.Queue.{expire, has_key, has_any_key}
use aads.Schema.{FixingPlan}

-- `fixing_plan.environment_policy.update({...})`
unfoldable pub tainted_policy : Fields → Fields
tainted_policy policy =
    set (set (set policy "auto_execute_allowed" (bool false)) "requires_approval" (bool true))
      "security_review_required" (bool true)

-- the plan that is stored, for the findings of the investigation
unfoldable pub reviewed : List Fields → FixingPlan → FixingPlan
reviewed [] plan = plan
reviewed (_ ∷ _) plan = record plan { environment_policy = tainted_policy plan.environment_policy }

abbrev pub executable_schemas : List String
executable_schemas = "2.0" ∷ "3.0" ∷ "3.1" ∷ []

abbrev command_allowed : Fields → Py Bool
command_allowed command =
    if not (is_str (get_or (get command "risk_level") null) "low") then ok false else (do
      policy ← as_dict (or_else (get command "environment_policy") (obj end))
      ok (
          is_str (get_or (get policy "environment") null) "test"
          && is_true (get policy "auto_execute_allowed")))

-- the first node_agent command decides; `none` is "no such command"
unfoldable pub first_command : List Json → Py (Option Bool)
first_command [] = ok none
first_command (x ∷ xs) =
    let rest = first_command xs in
    do
      command ← as_dict x
      if is_str (get_or (get command "tool_name") null) "node_agent"
          then (do allowed ← command_allowed command; ok (some allowed))
          else rest

unfoldable pub first_decision : List Json → Py Bool
first_decision [] = ok false
first_decision (x ∷ xs) =
    let rest = first_decision xs in
    do
      step ← as_dict x
      if not (is_str (get_or (get step "phase") null) "Execute") then rest else (do
        commands ← iterate (or_else (get step "commands") (arr nil))
        decision ← first_command commands
        elim decision [ none ↦ rest | some allowed ↦ ok allowed ])

unfoldable pub fixing_plan_allowed : Fields → Py Bool
fixing_plan_allowed plan =
    if not (is_str (get_or (get plan "risk_level") null) "low" && truthy? (get plan "steps"))
    then ok false
    else (do
      policy ← as_dict (or_else (get plan "environment_policy") (obj end))
      ok (
          is_str (get_or (get policy "environment") null) "test"
          && (is_true (get policy "auto_execute_allowed")
              && not (truthy? (get policy "security_review_required")))))

-- `_plan_auto_allowed`
unfoldable pub plan_auto_allowed : Fields → Py Bool
plan_auto_allowed end = ok false
plan_auto_allowed (field k v fs) =
    let plan = field k v fs in
    do
      executable ← in_set (get_or (get plan "schema_version") null) executable_schemas
      if executable then fixing_plan_allowed plan else (do
        steps ← iterate (get_or (get plan "execution_steps") (arr nil))
        first_decision steps)

-- `_first_plan_target_node`
unfoldable pub first_plan_target_node : Fields → Py (Option Json)
first_plan_target_node plan = do
  executable ← in_set (get_or (get plan "schema_version") null) executable_schemas
  if executable then ok (get plan "target_node_id") else (do
    steps ← iterate (get_or (get plan "execution_steps") (arr nil))
    target_of_steps steps)

-- `INTERVAL '30 minutes'`
abbrev auto_ttl : ℕ
auto_ttl = 1800

abbrev pub auto_key : String → String → String
auto_key diagnosis_id schema_version = "auto:" <> (diagnosis_id <> (":" <> schema_version))

unfoldable pub auto_insert :
    ℕ → String → String → String → Option Json → Db → Option IdempotencyRecord → Py Db
auto_insert now id diagnosis_id key target db (some _) = raise value_error
auto_insert now id diagnosis_id key target db none = ok (
    add_audit
      (record {
        event_type = "execution.auto_queued";
        plan_id = diagnosis_id;
        policy_decision = "allowed";
        result = "queued";
      })
      (record db {
        executions =
            (record {
              execution_id = id;
              plan_id = diagnosis_id;
              idempotency_key = key;
              status = Status.queued;
              target_node_id = target;
              result = end;
            })
            ∷ db.executions;
        records =
            (record {
              idempotency_key = key;
              is_plan_execute = true;
              plan_id = diagnosis_id;
              execution_id = id;
              expires_at = now + auto_ttl;
            })
            ∷ db.records;
      }))

unfoldable pub auto_unless :
    ℕ → String → String → String → Option Json → Db → Option IdempotencyRecord → Py Db
auto_unless now id diagnosis_id key target db (some _) = ok db
auto_unless now id diagnosis_id key target db none =
    auto_insert now id diagnosis_id key target db (fetchrow (has_any_key key) db.records)

-- `_queue_auto_execution`
unfoldable pub queue_auto_execution : ℕ → String → String → Fields → String → Db → Py Db
queue_auto_execution now id diagnosis_id plan schema_version db =
    let key = auto_key diagnosis_id schema_version in
    do
      target ← first_plan_target_node plan
      let kept : Db = expire now db
      auto_unless now id diagnosis_id key target kept (fetchrow (has_key now key) kept.records)

-- what `store_diagnosis` reads of the diagnosis
pub record Finding : Type 0 where
  pub diagnosis_id : String
  pub plan : Fields
  pub injection_findings : List Fields

unfoldable pub schema_version_of : Fields → Json
schema_version_of end = str "1.0"
schema_version_of (field k v fs) = get_or (get (field k v fs) "schema_version") (str "1.0")

-- the column is a text
abbrev pub as_text : Json → Py String
as_text (str s) = ok s
as_text _ = raise value_error

unfoldable pub flag_injection : String → List Fields → Db → Db
flag_injection diagnosis_id [] db = db
flag_injection diagnosis_id (_ ∷ _) db =
    add_audit
      (record {
        event_type = "security.injection_suspected";
        plan_id = diagnosis_id;
        policy_decision = "flagged";
        result = "pending_approval";
      })
      db

-- the primary key of the reports is the id of the diagnosis
unfoldable pub insert_report : Diagnosis → Db → Option Diagnosis → Py Db
insert_report report db (some _) = raise value_error
insert_report report db none = ok (record db { reports = report ∷ db.reports })

unfoldable pub store_diagnosis : ℕ → String → Finding → Db → Py Db
store_diagnosis now id finding db = do
  allowed ← plan_auto_allowed finding.plan
  schema_version ← as_text (schema_version_of finding.plan)
  inserted ←
      insert_report
        (record {
          diagnosis_id = finding.diagnosis_id;
          action_plan = finding.plan;
          schema_version = schema_version;
          plan_status = if allowed then Status.queued else Status.pending_approval;
        })
        db (fetchrow (is_report finding.diagnosis_id) db.reports)
  let flagged : Db = flag_injection finding.diagnosis_id finding.injection_findings inserted
  if allowed
      then queue_auto_execution now id finding.diagnosis_id finding.plan schema_version flagged
      else ok flagged

-- ===== src/Analyzer/Storing/Tainted.antt =====
-- layer2-analyzer/src/main.py: a plan from an investigation with injection findings, as the
-- analyzer, the gate (dashboard/app.py) and the executor (layer4-executor/src/executor.py) treat it.
use aads.Prelude.{
  ◌≡◌, refl, arith, ℕ, String, Bool, true, false, not, ◌&&◌, if◌then◌else◌, Option, none, some,
  List, [], ◌∷◌, ◌∙◌, sym, ap,
}
use aads.Python.{
  ok, Json, bool, str, obj, Fields, end, field, get, get_or, set, is_str, null, truthy?,
}
use aads.Python.Laws.{>>=-returns, get-set, or_else-obj}
use aads.Store.{Status, Db, Diagnosis, add_audit}
use aads.Executor.Validate
use aads.Executor.Validate.{is_true}
use aads.Gate.Auto
use aads.Gate.Auto.{policy_allows}
use aads.Schema.{FixingPlan}
use aads.Schema.Dump.{dump_plan}
use aads.Analyzer.Storing.{
  tainted_policy, reviewed, plan_auto_allowed, fixing_plan_allowed, schema_version_of, as_text,
  flag_injection, insert_report, store_diagnosis,
}

pub tainted_flag :
    (policy : Fields) → get (tainted_policy policy) "security_review_required" ≡ some (bool true)
unfolding tainted_policy
tainted_flag policy =
    get-set (set (set policy "auto_execute_allowed" (bool false)) "requires_approval" (bool true))
      "security_review_required" (bool true)

vetoed : (a b c : Bool) → (if a then ok false else ok (b && (c && false))) ≡ ok false
vetoed true b c = refl
vetoed false b c = ap ok (ground arith)

-- A plan whose environment policy asks for a review is refused, whatever else it holds.
module _ (plan policy : Fields) (holds : get plan "environment_policy" ≡ some (obj policy))
    (flag : get policy "security_review_required" ≡ some (bool true)) where
  analyzer_vetoes : fixing_plan_allowed plan ≡ ok false
  unfolding fixing_plan_allowed
  analyzer_vetoes =
      rw (holds, or_else-obj policy, flag)
        (vetoed
          (not (is_str (get_or (get plan "risk_level") null) "low" && truthy? (get plan "steps")))
          (is_str (get_or (get policy "environment") null) "test")
          (is_true (get policy "auto_execute_allowed")))

  gate_vetoes : policy_allows plan ≡ ok false
  unfolding policy_allows
  gate_vetoes =
      rw (holds, or_else-obj policy, flag)
        (vetoed
          (not (is_str (get_or (get plan "risk_level") null) "low" && truthy? (get plan "steps")))
          (is_str (get_or (get policy "environment") null) "test")
          (is_true (get policy "auto_execute_allowed")))

  executor_vetoes : Validate.plan_auto_allowed plan ≡ ok false
  unfolding Validate.plan_auto_allowed
  executor_vetoes =
      rw (holds, or_else-obj policy, flag)
        (vetoed (not (is_str (get_or (get plan "risk_level") null) "low"))
          (is_str (get_or (get policy "environment") null) "test")
          (is_true (get policy "auto_execute_allowed")))

executable_refused :
    (plan : Fields)
    → get plan "schema_version" ≡ some (str "3.1")
    → fixing_plan_allowed plan ≡ ok false
    → plan_auto_allowed plan ≡ ok false
unfolding plan_auto_allowed
executable_refused end v h = refl
executable_refused (field k w fs) v h = rw (v) h

stated_version :
    (plan : Fields) (v : Json) → get plan "schema_version" ≡ some v → schema_version_of plan ≡ v
unfolding schema_version_of get
stated_version end v h = cc
stated_version (field k w fs) v h = rw (h) refl

abbrev pub stored_plan : Fields → List Fields → FixingPlan → Fields
stored_plan finding findings plan = dump_plan (reviewed (finding ∷ findings) plan)

module _ (finding : Fields) (findings : List Fields) (plan : FixingPlan)
    (version : plan.schema_version ≡ "3.1") where
  policy_stored :
      get (stored_plan finding findings plan) "environment_policy"
      ≡ some (obj (tainted_policy plan.environment_policy))
  unfolding dump_plan reviewed get
  policy_stored = refl

  version_stored : get (stored_plan finding findings plan) "schema_version" ≡ some (str "3.1")
  unfolding dump_plan reviewed get
  version_stored = ap (λ v. some (str v)) version

  analyzer_refuses : plan_auto_allowed (stored_plan finding findings plan) ≡ ok false
  analyzer_refuses =
      executable_refused _ version_stored
        (analyzer_vetoes _ _ policy_stored (tainted_flag plan.environment_policy))

  column_stored : as_text (schema_version_of (stored_plan finding findings plan)) ≡ ok "3.1"
  column_stored = ap as_text (stated_version _ _ version_stored)

  gate_refuses : Auto.plan_auto_allowed (stored_plan finding findings plan) ≡ ok false
  unfolding Auto.plan_auto_allowed
  gate_refuses =
      rw (version_stored) (gate_vetoes _ _ policy_stored (tainted_flag plan.environment_policy))

  executor_refuses : Validate.plan_auto_allowed (stored_plan finding findings plan) ≡ ok false
  executor_refuses = executor_vetoes _ _ policy_stored (tainted_flag plan.environment_policy)

insert_report-reports :
    (report : Diagnosis) (db after : Db) (o : Option Diagnosis)
    → insert_report report db o ≡ ok after
    → record db { reports = report ∷ db.reports } ≡ after
unfolding insert_report
insert_report-reports report db after (some r) h = cc
insert_report-reports report db after none h = cc

flagged_tables :
    (diagnosis_id : String) (findings : List Fields) {report : Diagnosis} (db inserted after : Db)
    → record db { reports = report ∷ db.reports } ≡ inserted
    → ok (flag_injection diagnosis_id findings inserted) ≡ ok after
    → (after.executions ≡ db.executions) × (after.reports ≡ report ∷ db.reports)
unfolding flag_injection add_audit
flagged_tables diagnosis_id [] db inserted after e h =
    let same : inserted ≡ after = cc in
    let all = e ∙ same in
    (ap (λ (d : Db). d.executions) (sym all), ap (λ (d : Db). d.reports) (sym all))
flagged_tables diagnosis_id (f ∷ fs) db inserted after e h =
    let same : flag_injection diagnosis_id (f ∷ fs) inserted ≡ after = cc in
    (
      ap (λ (d : Db). d.executions) (sym same) ∙ ap (λ (d : Db). d.executions) (sym e),
      ap (λ (d : Db). d.reports) (sym same) ∙ ap (λ (d : Db). d.reports) (sym e),
    )

-- what storing a plan that may not run on its own does, for its version
stored_pending :
    (now : ℕ) (id diagnosis_id version : String) (plan : Fields) (findings : List Fields)
    (db after : Db)
    → plan_auto_allowed plan ≡ ok false
    → as_text (schema_version_of plan) ≡ ok version
    → store_diagnosis now id
        (record { diagnosis_id = diagnosis_id; plan = plan; injection_findings = findings })
        db
      ≡ ok after
    → (after.executions ≡ db.executions)
      × (after.reports
          ≡ record {
            diagnosis_id = diagnosis_id;
            action_plan = plan;
            schema_version = version;
            plan_status = Status.pending_approval;
          }
            ∷ db.reports)
unfolding store_diagnosis
stored_pending now id diagnosis_id version plan findings db after refused column h =
    let opened = rw (refused, column) at h in
    let (inserted, e, rest) = >>=-returns (insert_report _ db _) _ opened in
    flagged_tables diagnosis_id findings db inserted after (insert_report-reports _ db inserted _ e)
      rest

-- A plan of schema 3.1 from an investigation with injection findings does not run on its own: the
-- analyzer, the gate and the executor each refuse it, and storing it writes a report that awaits
-- approval and queues no execution.
pub store_diagnosis-StaysForReview :
    (finding : Fields) (findings : List Fields) (plan : FixingPlan)
    → plan.schema_version ≡ "3.1"
    → (now : ℕ) (id diagnosis_id : String) (db after : Db)
    → store_diagnosis now id
        (record {
          diagnosis_id = diagnosis_id;
          plan = stored_plan finding findings plan;
          injection_findings = finding ∷ findings;
        })
        db
      ≡ ok after
    → ((Auto.plan_auto_allowed (stored_plan finding findings plan) ≡ ok false)
        × (Validate.plan_auto_allowed (stored_plan finding findings plan) ≡ ok false))
      × ((after.executions ≡ db.executions)
          × (after.reports
              ≡ record {
                diagnosis_id = diagnosis_id;
                action_plan = stored_plan finding findings plan;
                schema_version = "3.1";
                plan_status = Status.pending_approval;
              }
                ∷ db.reports))
store_diagnosis-StaysForReview finding findings plan version now id diagnosis_id db after h = (
  (gate_refuses finding findings plan version, executor_refuses finding findings plan version),
  stored_pending now id diagnosis_id "3.1" (stored_plan finding findings plan) (finding ∷ findings)
      db after (analyzer_refuses finding findings plan version)
      (column_stored finding findings plan version) h,
)

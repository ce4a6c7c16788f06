-- ===== src/Store.antt =====
-- The tables that the executor and the gate console share (layer0-storage/timescaledb/migrations),
-- as lists of rows, with the statements of layer4-executor/src/executor.py and dashboard/app.py.
-- An approval that is inserted comes first, so `ORDER BY created_at DESC LIMIT 1` is the first match.
use aads.Prelude.{
  ℕ, String, Bool, false, Option, none, some, List, [], ◌∷◌, str_eq, ltb, if◌then◌else◌,
}
use aads.Python.{Json, Fields}

-- `plan_status` and `status`
pub data Status : Type 0 where
  pending_approval approved rejected queued executing final_verifying final_verified : Status
  kb_imported kb_skipped kb_import_failed execution_failed execution_failed_unknown_state : Status
  failed_retryable blocked paused_for_review : Status

pub data StepStatus : Type 0 where
  step_running step_verified step_failed_blocked step_failed_aborted : StepStatus

pub record Execution : Type 0 where
  pub execution_id : String
  pub plan_id : String
  pub idempotency_key : String
  pub status : Status
  pub target_node_id : Option Json
  pub result : Fields

pub record Diagnosis : Type 0 where
  pub diagnosis_id : String
  pub action_plan : Fields
  pub schema_version : String
  pub plan_status : Status

pub record Approval : Type 0 where
  pub plan_id : String
  pub is_approved : Bool
  pub approved_until : Option ℕ
  pub plan_sha256 : Option String

pub record StepRow : Type 0 where
  pub execution_id : String
  pub step_id : Json
  pub status : StepStatus
  pub command_id : String
  pub retry_count : ℕ
  pub result : Fields

pub record Lock : Type 0 where
  pub node_id : String
  pub lock_id : ℕ
  pub execution_id : String
  pub expires_at : ℕ

pub record Escalation : Type 0 where
  pub escalation_id : ℕ
  pub execution_id : String
  pub plan_id : String
  pub drift_type : String
  pub is_open : Bool
  pub resolution : Option String

-- A record of the other scope, "agent_task", has no plan and no execution.
pub record IdempotencyRecord : Type 0 where
  pub idempotency_key : String
  pub is_plan_execute : Bool
  pub plan_id : String
  pub execution_id : String
  pub expires_at : ℕ

pub record AgentNode : Type 0 where
  pub node_id : String
  pub base_url : String
  pub environment : String

-- the columns of `audit_events` but for the metadata and the keys that every caller passes on
pub record Audit : Type 0 where
  pub event_type : String
  pub plan_id : String
  pub policy_decision : String
  pub result : String

pub record Db : Type 0 where
  pub executions : List Execution
  pub reports : List Diagnosis
  pub approvals : List Approval
  pub steps : List StepRow
  pub locks : List Lock
  pub escalations : List Escalation
  pub records : List IdempotencyRecord
  pub nodes : List AgentNode
  pub audits : List Audit

-- the first row that satisfies a test, as `fetchrow` gives it
unfoldable pub fetchrow {ℓ} : {A : Type ℓ} → (A → Bool) → List A → Option A
fetchrow p [] = none
fetchrow p (x ∷ xs) = let rest = fetchrow p xs in if p x then some x else rest

-- `UPDATE … SET f WHERE p`
unfoldable pub update {ℓ} : {A : Type ℓ} → (A → Bool) → (A → A) → List A → List A
update p f [] = []
update p f (x ∷ xs) = (if p x then f x else x) ∷ update p f xs

-- `DELETE … WHERE p`
unfoldable pub delete {ℓ} : {A : Type ℓ} → (A → Bool) → List A → List A
delete p [] = []
delete p (x ∷ xs) = let rest = delete p xs in if p x then rest else x ∷ rest

abbrev pub is_execution : String → Execution → Bool
is_execution id e = str_eq e.execution_id id

abbrev pub is_report : String → Diagnosis → Bool
is_report id d = str_eq d.diagnosis_id id

unfoldable pub set_status : String → Status → Db → Db
set_status id s db = record db {
  executions = update (is_execution id) (λ e. record e { status = s }) db.executions;
}

unfoldable pub set_plan_status : String → Status → Db → Db
set_plan_status id s db = record db {
  reports = update (is_report id) (λ d. record d { plan_status = s }) db.reports;
}

unfoldable pub add_audit : Audit → Db → Db
add_audit a db = record db { audits = a ∷ db.audits }

-- `approval_valid`, the same function in executor.py and in app.py: the latest decision on the plan
-- is an approval that has not yet expired
unfoldable pub approval_holds : ℕ → Option Approval → Bool
approval_holds now none = false
approval_holds now (some a) =
    if a.is_approved
    then elim a.approved_until [ none ↦ false | some until ↦ ltb now until ]
    else false

unfoldable pub approval_valid : ℕ → String → Db → Bool
approval_valid now plan_id db =
    approval_holds now (fetchrow (λ (a : Approval). str_eq a.plan_id plan_id) db.approvals)

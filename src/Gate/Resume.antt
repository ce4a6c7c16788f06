-- ===== src/Gate/Resume.antt =====
-- `resume_plan` and `abort_plan` of dashboard/app.py, with the query of the executor's poller.
use mathlib.Core.Path.{subst}
use aads.Prelude.{
  ◌==◌, ◌≡◌, refl, sym, ◌≢◌, ap, ◌⊎◌, inl, inr, arith, ℕ, String, Bool, true, false, not, some,
  List, [], ◌∷◌, All, str_eq_iff, if◌then◌else◌, Option-cases,
}
use aads.Python.{ok, raise, Json}
use aads.Store.{
  Db, Status, paused_for_review, queued, Execution, Escalation, update, is_execution,
  approval_valid, set_status, set_plan_status, add_audit,
}
use aads.Executor.Poll.{is_runnable, oldest_runnable}
use aads.Executor.Poll.Paused.{oldest-All}
use aads.Gate.{
  Handled, Answer, failed, latest_execution, is_open_for, is_paused, resolve, resume_execution,
  resume_paused, resumed, outcome, resume_plan, abort_execution, abort_plan, aborted, aborted_db,
  audited,
}

-- What is true when a plan can be resumed.
pub record Resumable (now : ℕ) (plan_id : String) (db : Db) (e : Execution) : Type 0 where
  pub latest : latest_execution plan_id db ≡ some e
  pub paused : e.status ≡ paused_for_review
  pub approved : approval_valid now plan_id db ≡ true

abbrev pub Queued : String → Execution → Type 0
Queued id e = (is_execution id e ≡ false) ⊎ (e.status ≡ queued)

abbrev Stopped : String → Execution → Type 0
Stopped id e = is_execution id e ≡ true → is_runnable e.status ≢ true

abbrev pub Resolved : String → Escalation → Type 0
Resolved id e = is_open_for id e ≡ false

is_paused-eq : (s : Status) → is_paused s ≡ true → s ≡ paused_for_review
is_paused-eq paused_for_review h = refl
is_paused-eq _ h = cc

abbrev code_of : Handled → ℕ
code_of (ok (a, db)) = a.code
code_of (raise e) = 0

-- a test that was passed, where failing it gives another code
passed :
    (b : Bool) (code : ℕ) (m : String) (db : Db) (rest : Handled) (a : Answer) (db' : Db)
    → (if b then failed code m db else rest) ≡ ok (a, db')
    → a.code ≢ code
    → (b ≡ false) × (rest ≡ ok (a, db'))
unfolding failed
passed true code m db rest a db' h other = elim (other (sym (ap code_of h))) [ ]
passed false code m db rest a db' h other = (refl, h)

queue-Queued :
    (id : String) (b : Bool) (x : Execution)
    → is_execution id x ≡ b
    → Queued id (if b then record x { status = queued } else x)
queue-Queued id true x e = inr refl
queue-Queued id false x e = inl e

update-Queued :
    (id : String) (es : List Execution)
    → All (Queued id) (update (is_execution id) (λ x. record x { status = queued }) es)
unfolding update
update-Queued id [] = tt
update-Queued id (x ∷ es) = (queue-Queued id _ x refl, update-Queued id es)

close-Resolved :
    (id text : String) (b : Bool) (x : Escalation)
    → is_open_for id x ≡ b
    → Resolved id (if b then record x { is_open = false; resolution = some text } else x)
close-Resolved id text true x e = ground arith
close-Resolved id text false x e = e

update-Resolved :
    (id text : String) (es : List Escalation)
    → All
        (Resolved id)
        (update (is_open_for id) (λ x. record x { is_open = false; resolution = some text }) es)
unfolding update
update-Resolved id text [] = tt
update-Resolved id text (x ∷ es) = (close-Resolved id text _ x refl, update-Resolved id text es)

abbrev pub Resumed : Execution → Db → Type 0
Resumed e db =
    All (Queued e.execution_id) db.executions × All (Resolved e.execution_id) db.escalations

not-false : (b : Bool) → not b ≡ false → b ≡ true
not-false true h = refl
not-false false h = cc

other_code : (a : Answer) (n : ℕ) → a.code ≡ 200 → a.code ≡ n → (200 == n) ≡ false → ⊥
other_code a n e f h = cc (e, f, h)

db_of : Handled → Db → Db
db_of (ok (a, db)) other = db
db_of (raise e) other = other

resume_paused-Resumed :
    (now : ℕ) (plan_id : String) (db db' : Db) (a : Answer) (e : Execution)
    → resume_paused now plan_id e db ≡ ok (a, db')
    → a.code ≡ 200
    → (approval_valid now plan_id db ≡ true) × Resumed e db'
unfolding resume_paused resumed audited add_audit set_plan_status set_status resolve db_of
resume_paused-Resumed now plan_id db db' a e h ok200 =
    let done : Handled = ok (outcome "queued" plan_id e.execution_id, resumed plan_id e db) in
    let (v, result) =
      passed (not (approval_valid now plan_id db)) 403 _ db done a db' h
        (λ c. other_code a 403 ok200 c refl) in
    (
      not-false _ v,
      subst (Resumed e) (ap (λ (r : Handled). db_of r db) result) (
        update-Queued e.execution_id db.executions,
        update-Resolved e.execution_id "resumed" db.escalations,
      ),
    )

resume_execution-Resumed :
    (now : ℕ) (plan_id : String) (db db' : Db) (a : Answer) (e : Execution)
    → resume_execution now plan_id e db ≡ ok (a, db')
    → a.code ≡ 200
    → (e.status ≡ paused_for_review) × ((approval_valid now plan_id db ≡ true) × Resumed e db')
unfolding resume_execution
resume_execution-Resumed now plan_id db db' a e h ok200 =
    let (p, h1) =
      passed (not (is_paused e.status)) 409 _ db (resume_paused now plan_id e db) a db' h
        (λ c. other_code a 409 ok200 c refl) in
    let (v, result) = resume_paused-Resumed now plan_id db db' a e h1 ok200 in
    (is_paused-eq e.status (not-false (is_paused e.status) p), (v, result))

-- A plan is resumed only if its latest execution is paused and it has an approval that is valid now.
-- Then the execution is queued again, and none of its escalations is open.
pub resume_plan-Resumed :
    (now : ℕ) (plan_id : String) (db db' : Db) (a : Answer)
    → resume_plan now plan_id db ≡ ok (a, db')
    → a.code ≡ 200
    → (e : Execution) × (Resumable now plan_id db e × Resumed e db')
unfolding resume_plan failed
resume_plan-Resumed now plan_id db db' a h ok200 =
    elim (Option-cases (latest_execution plan_id db)) [
      | inl gone ↦
          elim (other_code a 404 ok200 (sym (ap code_of (rw (gone, resume_plan, failed) at h)))
            refl) [ ]
      | inr (e, found) ↦
          let (paused, (approved, resumed)) =
            resume_execution-Resumed now plan_id db db' a e (rw (found, resume_plan) at h) ok200 in
          (e, (record { latest = found; paused = paused; approved = approved }, resumed))
    ]

aborted-Stopped :
    (id : String) (reason : Json) (b : Bool) (x : Execution)
    → is_execution id x ≡ b
    → Stopped id (if b then aborted reason x else x)
unfolding aborted
aborted-Stopped id reason true x e = λ _ h. cc
aborted-Stopped id reason false x e = λ t. cc

update-Stopped :
    (id : String) (reason : Json) (es : List Execution)
    → All (Stopped id) (update (is_execution id) (aborted reason) es)
unfolding update
update-Stopped id reason [] = tt
update-Stopped id reason (x ∷ es) =
    (aborted-Stopped id reason _ x refl, update-Stopped id reason es)

abort_execution-Aborted :
    (plan_id : String) (reason : Json) (db db' : Db) (a : Answer) (e : Execution)
    → abort_execution plan_id reason e db ≡ ok (a, db')
    → a.code ≡ 200
    → All (Stopped e.execution_id) db'.executions × All (Resolved e.execution_id) db'.escalations
unfolding abort_execution aborted_db audited add_audit set_plan_status resolve db_of
abort_execution-Aborted plan_id reason db db' a e h ok200 =
    let done : Handled =
      ok (outcome "execution_failed" plan_id e.execution_id, aborted_db plan_id reason e db) in
    let (p, result) =
      passed (not (is_paused e.status)) 409 _ db done a db' h
        (λ c. other_code a 409 ok200 c refl) in
    subst
      (λ (d : Db).
        All (Stopped e.execution_id) d.executions × All (Resolved e.execution_id) d.escalations)
      (ap (λ (r : Handled). db_of r db) result)
      (
        update-Stopped e.execution_id reason db.executions,
        update-Resolved e.execution_id "aborted" db.escalations,
      )

-- An execution that was aborted is not the one that the poller picks, and none of its escalations is
-- open.
pub abort_plan-oldest_runnable :
    (plan_id : String) (reason : Json) (db db' : Db) (a : Answer) (e picked : Execution)
    → abort_plan plan_id reason db ≡ ok (a, db')
    → a.code ≡ 200
    → latest_execution plan_id db ≡ some e
    → oldest_runnable db'.executions ≡ some picked
    → (picked.execution_id ≢ e.execution_id) × All (Resolved e.execution_id) db'.escalations
unfolding abort_plan
abort_plan-oldest_runnable plan_id reason db db' a e picked h ok200 found p =
    let (stopped, resolved) =
      abort_execution-Aborted plan_id reason db db' a e (rw (found, abort_plan) at h) ok200 in
    let (not_here, runs) = oldest-All (Stopped e.execution_id) db'.executions picked stopped p in
    (λ same. not_here ((str_eq_iff picked.execution_id e.execution_id).1 same) runs, resolved)

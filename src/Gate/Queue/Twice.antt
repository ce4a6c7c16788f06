-- ===== src/Gate/Queue/Twice.antt =====
-- `queue_execution` of dashboard/app.py, for a second request with the same key.
use mathlib.Core.Path.{subst}
use aads.Prelude.{
  ◌==◌, not, ◌≡◌, refl, ap, ◌∙◌, arith, ℕ, ◌+◌, ◌<◌, String, Bool, true, false, Option, none, some,
  List, ◌∷◌, str_eq, str_eq_refl, leb, ltb, if◌then◌else◌,
}
use aads.Python.{Py, ok, raise, ◌>>=◌, Json, str, get, get_or, in_set}
use aads.Store.{
  Db, Execution, IdempotencyRecord, fetchrow, delete, is_execution, is_report, Diagnosis,
  approval_valid, set_plan_status, add_audit,
}
use aads.Gate.{Handled, Answer, Settings, supported_execution_schemas, failed, audited}
use aads.Gate.Auto.{plan_auto_allowed, first_target_node}
use aads.Gate.Queue.{
  queue_execution, has_key, has_any_key, is_for_plan, queue_execution, queue_known, joined,
  with_execution, queue_new, queue_report, existing, expire, insert_into, insert_execution,
  answer_existing, known,
}

-- The key's record and the execution that it names come first.
pub record Queued (settings : Settings) (now : ℕ) (id plan_id key : String) (db : Db) : Type 0 where
  pub execution : Execution
  pub executions : List Execution
  pub executed : db.executions ≡ execution ∷ executions
  pub named : execution.execution_id ≡ id
  pub recorded : IdempotencyRecord
  pub records : List IdempotencyRecord
  pub kept : db.records ≡ recorded ∷ records
  pub key_is : recorded.idempotency_key ≡ key
  pub scope : recorded.is_plan_execute ≡ true
  pub plan_is : recorded.plan_id ≡ plan_id
  pub refers : recorded.execution_id ≡ id
  pub expires : recorded.expires_at ≡ now + settings.idempotency_ttl

-- An answer with the code 202 leaves the tables so.
abbrev Post : Settings → ℕ → String → String → String → Handled → Type 0
Post settings now id plan_id key (ok (a, db)) = a.code ≡ 202 → Queued settings now id plan_id key db
Post settings now id plan_id key (raise e) = Unit {0}

wrong : (n : ℕ) {P : Type 0} → (n == 202) ≡ false → n ≡ 202 → P
wrong n f h = let no : ⊥ = ground (arith, f, h) in elim no [ ]

module _ (settings : Settings) (now : ℕ) (id plan_id key : String) where
  abbrev Ends : Handled → Type 0
  Ends = Post settings now id plan_id key

  Post-bind : {A : Type 0} (r : Py A) (f : A → Handled) → ((a : A) → Ends (f a)) → Ends (r >>= f)
  Post-bind (ok a) f h = h a
  Post-bind (raise e) f h = tt

  Post-if : (b : Bool) (x y : Handled) → Ends x → Ends y → Ends (if b then x else y)
  Post-if true x y hx hy = hx
  Post-if false x y hx hy = hy

  Post-option :
      {A : Type 0} (o : Option A) (x : Handled) (f : A → Handled)
      → Ends x
      → ((a : A) → Ends (f a))
      → Ends (elim o [ none ↦ x | some a ↦ f a ])
  Post-option none x f hx hf = hx
  Post-option (some a) x f hx hf = hf a

  Post-failed : (n : ℕ) (m : String) (db : Db) → (n == 202) ≡ false → Ends (failed n m db)
  unfolding failed
  Post-failed n m db f = wrong n f

  Post-insert :
      (target : Option Json) (db : Db)
      → Ends (insert_execution settings now id plan_id key target db)
  unfolding insert_execution insert_into audited set_plan_status add_audit
  Post-insert target db =
      elim (fetchrow (has_any_key key) db.records)
        as (λ o. Ends (insert_into settings now id plan_id key target db o)) [
          | none ↦ λ _. record {
            execution = _;
            executions = _;
            executed = refl;
            named = refl;
            recorded = _;
            records = _;
            kept = refl;
            key_is = refl;
            scope = refl;
            plan_is = refl;
            refers = refl;
            expires = refl;
          }
          | some r ↦ tt
        ]

  Post-report : (row : Diagnosis) (db : Db) → Ends (queue_report settings now id plan_id key row db)
  unfolding queue_report
  Post-report row db =
      Post-bind
        (in_set (get_or (get row.action_plan "schema_version") (str row.schema_version))
          supported_execution_schemas)
        _
        λ supported. Post-if (not supported) _ _ (Post-failed 400 _ _ refl) (
          Post-bind (first_target_node row.action_plan) _ λ target.
            Post-bind
              (if approval_valid now plan_id db then ok true else plan_auto_allowed row.action_plan)
              _ λ allowed. Post-if allowed _ _ (Post-insert target db) (Post-failed 403 _ _ refl))

  Post-new : (db : Db) → Ends (queue_new settings now id plan_id key db)
  unfolding queue_new
  Post-new db =
      Post-option (fetchrow (is_for_plan now plan_id) db.records) _ _
        (Post-option (fetchrow (is_report plan_id) db.reports) _ _ (Post-failed 404 _ _ refl)
          (λ row. Post-report row db))
        (λ r. wrong 409 refl)

  Post-existing :
      (r : IdempotencyRecord) (e : Execution) (db : Db) → Ends (answer_existing plan_id r e db)
  unfolding answer_existing
  Post-existing r e db =
      Post-if (not (str_eq r.plan_id plan_id)) _ _ (Post-failed 400 _ _ refl) (wrong 200 refl)

  Post-known :
      (db : Db) (o : Option (IdempotencyRecord × Execution))
      → Ends (queue_known settings now id plan_id key db o)
  unfolding queue_known
  Post-known db none = Post-new db
  Post-known db (some (r, e)) = Post-existing r e db

  Post-queue : (db : Db) → Ends (queue_execution settings now id plan_id key db)
  unfolding queue_execution
  Post-queue db = Post-known (expire now db) _

fetchrow-first :
    {A : Type 0} (p : A → Bool) (x : A) (xs ys : List A)
    → ys ≡ x ∷ xs
    → p x ≡ true
    → fetchrow p ys ≡ some x
unfolding fetchrow
fetchrow-first p x xs ys e t = rw (e, t) refl

delete-first :
    {A : Type 0} (p : A → Bool) (x : A) (xs ys : List A)
    → ys ≡ x ∷ xs
    → p x ≡ false
    → delete p ys ≡ x ∷ delete p xs
unfolding delete
delete-first p x xs ys e f = rw (e, f) refl

module _ (settings : Settings) (now later : ℕ) (id id' plan_id key : String) (db : Db)
    (q : Queued settings now id plan_id key db) (h : later < now + settings.idempotency_ttl) where
  later_ok : ltb later q.recorded.expires_at ≡ true
  later_ok = ground (arith, q.expires, h)

  kept_ok : leb q.recorded.expires_at later ≡ false
  kept_ok = ground (arith, q.expires, h)

  active : has_key later key q.recorded ≡ true
  active = rw (q.key_is, str_eq_refl key, q.scope, later_ok) refl

  is_same : is_execution q.recorded.execution_id q.execution ≡ true
  is_same = rw (q.refers, q.named) (str_eq_refl id)

  record-again : fetchrow (has_key later key) (expire later db).records ≡ some q.recorded
  unfolding expire
  record-again =
      fetchrow-first (has_key later key) q.recorded _ _
        (delete-first (λ (r : IdempotencyRecord). leb r.expires_at later) q.recorded q.records
          db.records q.kept kept_ok)
        active

  execution-again :
      fetchrow (is_execution q.recorded.execution_id) (expire later db).executions
      ≡ some q.execution
  unfolding expire
  execution-again =
      fetchrow-first (is_execution q.recorded.execution_id) q.execution q.executions db.executions
        q.executed is_same

  existing-again : existing later key (expire later db) ≡ some (q.recorded, q.execution)
  unfolding existing joined with_execution
  existing-again =
      ap (joined (expire later db)) record-again ∙ ap (with_execution q.recorded) execution-again

  answer-again :
      answer_existing plan_id q.recorded q.execution (expire later db)
      ≡ ok (known q.recorded q.execution, expire later db)
  unfolding answer_existing
  answer-again = rw (q.plan_is, str_eq_refl plan_id) refl

  queue-again :
      queue_execution settings later id' plan_id key db
      ≡ ok (known q.recorded q.execution, expire later db)
  unfolding queue_execution queue_known
  queue-again =
      ap (queue_known settings later id' plan_id key (expire later db)) existing-again
      ∙ answer-again

-- What a repeated request gets: the execution of the first, with the code 200, and no new one.
pub record Repeated (settings : Settings) (later : ℕ) (id id' plan_id key : String) (db : Db)
    : Type 0 where
  pub answer : Answer
  pub after : Db
  pub answered : queue_execution settings later id' plan_id key db ≡ ok (answer, after)
  pub code : answer.code ≡ 200
  pub names : get answer.body "execution_id" ≡ some (str id)
  pub executions : after.executions ≡ db.executions

-- A request that queued an execution may be repeated with the same key: until the record of the key
-- expires, the answer names the execution of the first request, and no other is queued.
pub queue_execution-Repeated :
    (settings : Settings) (now later : ℕ) (id id' plan_id key : String) (db db' : Db) (a : Answer)
    → queue_execution settings now id plan_id key db ≡ ok (a, db')
    → a.code ≡ 202
    → later < now + settings.idempotency_ttl
    → Repeated settings later id id' plan_id key db'
unfolding expire get
queue_execution-Repeated settings now later id id' plan_id key db db' a first queued h =
    let q : Queued settings now id plan_id key db' =
      subst (Post settings now id plan_id key) first (Post-queue settings now id plan_id key db)
        queued in
    record {
      answer = known q.recorded q.execution;
      after = expire later db';
      answered = queue-again settings now later id id' plan_id key db' q h;
      code = refl;
      names = ap (λ i. some (str i)) q.refers;
      executions = refl;
    }

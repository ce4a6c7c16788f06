-- ===== src/Executor/Effect.antt =====
-- Effects of layer4-executor/src/executor.py: the tables, the clock, the requests that were sent to
-- the On-Device Agent, and exceptions. What was written before an exception stays written.
pub mod Sends
pub mod Chain
pub mod Steps
pub mod Calls
use aads.Prelude.{
  ℕ, suc, ◌+◌, String, ◌<>◌, Bool, true, false, ◌&&◌, Option, none, some, List, [], ◌∷◌, ℤ, str_eq,
  leb, ltb, if◌then◌else◌,
}
use aads.Python.{
  Py, ok, raise, Exception, type_error, Json, str, num, obj, Fields, end, field, get, py_eq,
  or_else, item,
}
use aads.Store.{Db, Audit, add_audit, StepRow, StepStatus, update, fetchrow, AgentNode}

-- A request to the agent: `GET /v1/node/facts`, or `POST /v1/commands/run` with its body.
pub data Call : Type 0 where
  get_facts : (base_url : String) → Call
  run_command :
      (base_url : String) (runner context idempotency : Json) (execution_profile : Option Json)
      → Call

-- What comes back: a status with a JSON object, or an exception of the HTTP client.
pub data Reply : Type 0 where
  response : (status : ℕ) (payload : Fields) → Reply
  failure : String → Reply

pub record World : Type 0 where
  pub db : Db
  pub now : ℕ
  pub minted : ℕ
  pub calls : List Call

-- What the executor does not implement: the agent's answer to the n-th request and the seconds that
-- it takes, the seconds of the database writes around the n-th attempt, the texts of values, what the standard library reads from texts (numbers, patterns,
-- JSON), the error of inserting a case, the hash of a plan's canonical JSON, and the settings.
pub record Env : Type 0 where
  pub answer : ℕ → Call → Reply
  pub seconds : ℕ → Call → ℕ
  pub writes : ℕ → ℕ
  pub format : Json → String
  pub parse_int : String → Option ℤ
  pub regex_search : String → String → Py Bool
  pub json_loads : String → Option Json
  pub kb_insert : String → Option String
  pub plan_sha256 : Fields → String
  pub lock_ttl : ℕ
  pub knowledge_base : Bool

abbrev pub M : Type 0 → Type 0
M A = World → Py A × World

abbrev pub continue : {A B : Type 0} → Py A → (A → M B) → M B
continue (ok a) f w = f a w
continue (raise e) f w = (raise e, w)

infixl 10 ◌>>=◌ ◌>>◌
unfoldable pub ◌>>=◌ : {V W : Type 0} (first : M V) (rest : V → M W) → M W
◌>>=◌ first rest w = let (result, w') = first w in continue result rest w'

abbrev pub ◌>>◌ : {W : Type 0} (first : M (Unit {0})) (rest : M W) → M W
first >> rest = first >>= λ _. rest

unfoldable pub pure : {A : Type 0} → A → M A
pure a w = (ok a, w)

unfoldable pub lift : {A : Type 0} → Py A → M A
lift r w = (r, w)

unfoldable pub gets : {A : Type 0} → (World → A) → M A
gets f w = (ok (f w), w)

unfoldable pub change : (Db → Db) → M (Unit {0})
change f w = (ok tt, record w { db = f w.db })

-- `uuid.uuid4()`: never the same twice
unfoldable pub mint : M ℕ
mint w = (ok w.minted, record w { minted = suc w.minted })

-- `try: m finally: cleanup`
unfoldable pub finally : {A : Type 0} → M A → (World → World) → M A
finally m cleanup w = let (r, w') = m w in (r, cleanup w')

abbrev pub length : List Call → ℕ
length [] = 0
length (c ∷ cs) = suc (length cs)

pub data Transport : Type 0 where
  success blocked error : Transport

-- `call_agent`: the classes of the HTTP status
unfoldable pub classify : Reply → Transport × Fields
classify (failure message) =
    (error, field "error" (str message) (field "retryable" (Json.bool true) end))
classify (response status payload) =
    if leb 200 status && ltb status 300
    then (success, payload)
    else let kind = if leb 400 status && ltb status 500 then blocked else error in
      (
        kind,
        field "status" (num (ℤ.pos status))
            (field "payload" (obj payload) (field "retryable" (Json.bool (leb 500 status)) end)),
      )

module _ (env : Env) where
  unfoldable pub call_agent : Call → M (Transport × Fields)
  call_agent call w =
      let n = length w.calls in
      (
        ok (classify (env.answer n call)),
        record w { calls = call ∷ w.calls; now = w.now + env.seconds n call },
      )

  -- the request of an attempt; the writes of that attempt, before and after it, take their time here
  unfoldable pub timed_call : Call → M (Transport × Fields)
  unfolding call_agent
  timed_call call w =
      let (result, w') = call_agent call w in
      (result, record w' { now = w'.now + env.writes (length w.calls) })

-- `audit` and `audit_event`
unfoldable pub audit : String → String → String → String → M (Unit {0})
audit event_type plan_id policy_decision result = change (
    add_audit (record {
      event_type = event_type;
      plan_id = plan_id;
      policy_decision = policy_decision;
      result = result;
    }))

abbrev pub is_step : String → Json → StepRow → Bool
is_step execution_id step_id row = str_eq row.execution_id execution_id && py_eq row.step_id step_id

-- `INSERT … ON CONFLICT (execution_id, step_id) DO UPDATE`
unfoldable pub upserted : StepRow → List StepRow → List StepRow
upserted new rows = elim (fetchrow (is_step new.execution_id new.step_id) rows) [
  | none ↦ new ∷ rows
  | some _ ↦ update (is_step new.execution_id new.step_id) (λ _. new) rows
]

unfoldable pub upsert_step : String → Json → StepStatus → String → ℕ → Fields → M (Unit {0})
upsert_step execution_id step_id status command_id retry_count result = change (λ db. record db {
  steps =
      upserted
        (record {
          execution_id = execution_id;
          step_id = step_id;
          status = status;
          command_id = command_id;
          retry_count = retry_count;
          result = result;
        })
        db.steps;
})

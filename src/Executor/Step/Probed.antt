-- ===== src/Executor/Step/Probed.antt =====
-- `run_verification` of layer4-executor/src/executor.py, backwards from a verification that counts as
-- verified.
use aads.Prelude.{
  ◌≡◌, refl, sym, ap, ◌∙◌, ◌⊎◌, ◌≢◌, inl, inr, String, Bool, true, false, not, Option,
  if◌then◌else◌,
}
use aads.Python.{
  Py, ok, raise, Json, Fields, obj, end, str, field, get, get_or, or_else, is_str, as_dict, truthy?,
}
use aads.Store.{StepStatus, step_verified, step_failed_aborted, step_running}
use aads.Executor.Effect.{Env, World, M, ◌>>=◌, ◌>>◌, pure, audit, change}
use aads.Executor.Runner.{RunStatus, succeeded, refused, errored, failed_retryable}
use aads.Executor.Observe.{apply_extractors, matches_expected, AllMatch, matches_expected_iff}
use aads.Executor.Step.{Job, rejected, run_probe, verdict, judge, judge_answer, run_verification}
use aads.Executor.Effect.Calls.{SameCalls, SameCalls-Frame, audit-SameCalls}
use aads.Executor.Effect.Steps.{Stays, Stays-pure, Stays-lift, Stays-if, Stays-bind}
use aads.Executor.Effect.Chain.{bind-Chain, lift-Chain}

-- The answer of a probe was judged by the verification's rules, and every expected field was observed.
pub record Matched (env : Env) (verification payload : Fields) : Type 0 where
  pub rules : Fields
  pub ruled : as_dict (or_else (get verification "extract") (obj end)) ≡ ok rules
  pub observed : Fields
  pub extracted : apply_extractors env payload rules end ≡ ok observed
  pub expected : Fields
  pub stated : as_dict (or_else (get verification "expected") (obj end)) ≡ ok expected
  pub matches : AllMatch observed expected

abbrev pub status_of : Py (StepStatus × Fields) → StepStatus
status_of (ok (s, r)) = s
status_of (raise e) = step_running

step_if : (b : Bool) → (if b then step_verified else step_failed_aborted) ≡ step_verified → b ≡ true
step_if true h = refl
step_if false h = cc

module _ (env : Env) (job : Job) (prefix : String) where
  audited-verdict :
      (payload observed expected : Fields) (event seen_as : String) (seen : Fields) (w w' : World)
      → (audit event job.plan_id "allowed" seen_as
            >> pure (verdict env job payload observed expected))
          w
        ≡ (ok (step_verified, seen), w')
      → matches_expected observed expected ≡ true
  unfolding ◌>>=◌ pure audit change verdict matches_expected
  audited-verdict payload observed expected event seen_as seen w w' h =
      step_if (matches_expected observed expected) (ap (λ p. status_of p.0) h)

  judge_answer-Matched :
      (v payload seen : Fields) (w w' : World)
      → judge_answer env job prefix v payload w ≡ (ok (step_verified, seen), w')
      → Matched env v payload
  unfolding judge_answer
  judge_answer-Matched v payload seen w w' h =
      let (rules, (ruled, h1)) =
        lift-Chain (as_dict (or_else (get v "extract") (obj end))) _ w _ w' h in
      let (observed, (extracted, h2)) =
        lift-Chain (apply_extractors env payload rules end) _ w _ w' h1 in
      let (expected, (stated, h3)) =
        lift-Chain (as_dict (or_else (get v "expected") (obj end))) _ w _ w' h2 in
      record {
        rules = rules;
        ruled = ruled;
        observed = observed;
        extracted = extracted;
        expected = expected;
        stated = stated;
        matches =
            (matches_expected_iff observed expected).0
              (audited-verdict payload observed expected _ _ seen w w' h3);
      }

  judge-Matched :
      (v payload seen : Fields) (status : RunStatus) (w w' : World)
      → judge env job prefix v status payload w ≡ (ok (step_verified, seen), w')
      → (status ≢ refused) × ((status ≢ errored) × Matched env v payload)
  unfolding judge ◌>>=◌ pure audit change
  judge-Matched v payload seen refused w w' h = cc (h)
  judge-Matched v payload seen errored w w' h = cc (h)
  judge-Matched v payload seen succeeded w w' h =
      ((λ e. cc), ((λ e. cc), judge_answer-Matched v payload seen w w' h))
  judge-Matched v payload seen failed_retryable w w' h =
      ((λ e. cc), ((λ e. cc), judge_answer-Matched v payload seen w w' h))

ruleset judging = (audit-SameCalls, SameCalls-Frame, Stays-pure, Stays-lift, Stays-if, Stays-bind)

-- Judging an answer sends nothing.
module _ (env : Env) (job : Job) (prefix : String) where
  judge_answer-SameCalls :
      (v payload : Fields) → Stays SameCalls (judge_answer env job prefix v payload)
  unfolding judge_answer
  judge_answer-SameCalls v payload =
      Stays-bind SameCalls-Frame _ _ (Stays-lift SameCalls-Frame _) λ rules.
        Stays-bind SameCalls-Frame _ _ (Stays-lift SameCalls-Frame _) λ observed.
          Stays-bind SameCalls-Frame _ _ (Stays-lift SameCalls-Frame _) λ expected.
            Stays-bind SameCalls-Frame _ _ (audit-SameCalls _ _ _ _)
              λ _. Stays-pure SameCalls-Frame _

  judge-SameCalls :
      (v : Fields) (status : RunStatus) (payload : Fields)
      → Stays SameCalls (judge env job prefix v status payload)
  unfolding judge
  judge-SameCalls v refused payload = search judging
  judge-SameCalls v errored payload = search judging
  judge-SameCalls v succeeded payload = judge_answer-SameCalls v payload
  judge-SameCalls v failed_retryable payload = judge_answer-SameCalls v payload

-- A read-only probe was run from the world `before` to an answer that the verification's rules judged
-- a match; up to the world `last` no other request was sent.
pub record Probed (env : Env) (job : Job) (verification : Json) (step_id : Option Json)
    (id : Option String) (before last : World) : Type 0 where
  pub fields : Fields
  pub is_dict : as_dict verification ≡ ok fields
  pub runner : Fields
  pub runs : as_dict (or_else (get fields "runner") (obj end)) ≡ ok runner
  pub has_argv : truthy? (get runner "argv") ≡ true
  pub reads : is_str (get_or (get runner "side_effect") (str "read")) "read" ≡ true
  pub status : RunStatus
  pub payload : Fields
  pub after : World
  pub answered :
      run_probe env job
        (or_else (get fields "runner") (obj end))
        (or_else (get fields "context") (obj (field "purpose" (str "verify") end)))
        step_id
        id
        before
      ≡ (ok (status, payload), after)
  pub not_refused : status ≢ refused
  pub not_errored : status ≢ errored
  pub matched : Matched env fields payload
  pub nothing_more : last.calls ≡ after.calls

pass :
    {A : Type 0} (b : Bool) (m n : M A) (w : World) (r : Py A × World)
    → (if not b then m else n) w ≡ r
    → ((b ≡ true) × (n w ≡ r)) ⊎ (m w ≡ r)
pass true m n w r h = inl (refl, h)
pass false m n w r h = inr h

module _ (env : Env) (job : Job) where
  rejected-not :
      (prefix why : String) (seen : Fields) (w w' : World)
      → rejected env job prefix why w ≡ (ok (step_verified, seen), w')
      → ⊥
  unfolding rejected ◌>>=◌ pure audit change
  rejected-not prefix why seen w w' h = cc (h)

  pub run_verification-Probed :
      (verification : Json) (step_id : Option Json) (prefix : String) (id : Option String)
      (seen : Fields) (w w' : World)
      → run_verification env job verification step_id prefix id w ≡ (ok (step_verified, seen), w')
      → Probed env job verification step_id id w w'
  unfolding run_verification
  run_verification-Probed verification step_id prefix id seen w w' h =
      let (v, (is_dict, h1)) = lift-Chain (as_dict verification) _ w _ w' h in
      let (r, (runs, h2)) = lift-Chain (as_dict (or_else (get v "runner") (obj end))) _ w _ w' h1 in
      elim (pass (truthy? (get r "argv")) _ _ w _ h2) [
        | inr other ↦ elim (rejected-not prefix _ seen w w' other) [ ]
        | inl (has_argv, h3) ↦
            (elim (pass (is_str (get_or (get r "side_effect") (str "read")) "read") _ _ w _ h3) [
              | inr other ↦ elim (rejected-not prefix _ seen w w' other) [ ]
              | inl (reads, h4) ↦
                  let c =
                    bind-Chain
                      (run_probe env job (or_else (get v "runner") (obj end))
                        (or_else (get v "context") (obj (field "purpose" (str "verify") end)))
                        step_id id)
                      _ w _ w' h4 in
                  let (not_refused, (not_errored, matched)) =
                    judge-Matched env job prefix v c.value.1 seen c.value.0 c.between w' c.second in
                  record {
                    fields = v;
                    is_dict = is_dict;
                    runner = r;
                    runs = runs;
                    has_argv = has_argv;
                    reads = reads;
                    status = c.value.0;
                    payload = c.value.1;
                    after = c.between;
                    answered = c.first;
                    not_refused = not_refused;
                    not_errored = not_errored;
                    matched = matched;
                    nothing_more =
                        sym (ap (λ (p : Py (StepStatus × Fields) × World). p.1.calls) c.second)
                        ∙ (judge-SameCalls env job prefix v c.value.0 c.value.1).at c.between;
                  }
            ])
      ]

-- What sends nothing may follow.
pub up_to :
    {env : Env} {job : Job} {verification : Json} {step_id : Option Json} {id : Option String}
    {before v w : World}
    → w.calls ≡ v.calls
    → Probed env job verification step_id id before v
    → Probed env job verification step_id id before w
up_to same p = record {
  fields = p.fields;
  is_dict = p.is_dict;
  runner = p.runner;
  runs = p.runs;
  has_argv = p.has_argv;
  reads = p.reads;
  status = p.status;
  payload = p.payload;
  after = p.after;
  answered = p.answered;
  not_refused = p.not_refused;
  not_errored = p.not_errored;
  matched = p.matched;
  nothing_more = same ∙ p.nothing_more;
}

-- ===== src/Executor/Step/Verified.antt =====
-- `execute_fixing_step` of layer4-executor/src/executor.py, backwards from a step that counts as
-- verified.
use aads.Prelude.{◌≡◌, refl, sym, ap, ◌∙◌, String, some}
use aads.Python.{Py, ok, Json, Fields, item}
use aads.Store.{StepStatus, step_verified}
use aads.Executor.Effect.{Env, World, ◌>>=◌, pure, change, upsert_step}
use aads.Executor.Runner.{
  RunStatus, succeeded, refused, errored, failed_retryable, run_runner_command,
}
use aads.Executor.Step.{
  Job, run_verification, step_label, record_step, judged, step_command, verify_step, after_command,
  execute_fixing_step,
}
use aads.Executor.Effect.Chain.{bind-Chain, lift-Chain}
use aads.Executor.Step.Probed.{Probed, status_of, run_verification-Probed, up_to}

-- From the world `first` the step's command ran and succeeded, from the world in which that ended its
-- probe ran and matched, and up to the world `last` nothing else was sent.
pub record StepVerified (env : Env) (job : Job) (step : Fields) (first last : World) : Type 0 where
  pub step_id : Json
  pub identified : item step "step_id" ≡ ok step_id
  pub runner : Json
  pub runs : item step "runner" ≡ ok runner
  pub verification : Json
  pub verifies : item step "verification" ≡ ok verification
  pub result : Fields
  pub between : World
  pub succeeds :
      run_runner_command env (step_command env job step step_id runner) first
      ≡ (ok (succeeded, result), between)
  pub probed : Probed env job verification (some step_id) (some job.execution_id) between last

module _ (env : Env) (job : Job) (step : Fields) where
  recorded_calls :
      (step_id : Json) (label : String) (n : _) (outcome : StepStatus × Fields) (seen : Fields)
      (w w' : World)
      → record_step env job step_id label n outcome w ≡ (ok (step_verified, seen), w')
      → w'.calls ≡ w.calls
  unfolding record_step upsert_step change ◌>>=◌ pure
  recorded_calls step_id label n outcome seen w w' h =
      sym (ap (λ (p : Py (StepStatus × Fields) × World). p.1.calls) h)

  recorded :
      (step_id : Json) (label : String) (n : _) (outcome : StepStatus × Fields) (seen : Fields)
      (w w' : World)
      → record_step env job step_id label n outcome w ≡ (ok (step_verified, seen), w')
      → outcome.0 ≡ step_verified
  unfolding record_step upsert_step change ◌>>=◌ pure
  recorded step_id label n outcome seen w w' h = ap (λ p. status_of p.0) h

  judged-verified :
      (s : StepStatus) (r : Fields) → (judged env job s r).0 ≡ step_verified → s ≡ step_verified
  judged-verified step_verified r h = refl
  judged-verified _ r h = cc

  verify_step-Probed :
      (step_id : Json) (label : String) (command seen : Fields) (w w' : World)
      → verify_step env job step step_id label command w ≡ (ok (step_verified, seen), w')
      → (verification : Json) × ((item step "verification" ≡ ok verification)
          × Probed env job verification (some step_id) (some job.execution_id) w w')
  unfolding verify_step
  verify_step-Probed step_id label command seen w w' h =
      let (v, (verifies, h1)) = lift-Chain (item step "verification") _ w _ w' h in
      let c =
        bind-Chain
          (run_verification env job v (some step_id) "step_verification" (some job.execution_id)) _
          w _ w' h1 in
      let verified =
        judged-verified c.value.0 _ (recorded step_id label _ _ seen c.between w' c.second) in
      (
        v,
        (
          verifies,
          up_to (recorded_calls step_id label _ _ seen c.between w' c.second) (
              run_verification-Probed env job v (some step_id) "step_verification"
                (some job.execution_id) c.value.1 w c.between
                (c.first ∙ ap (λ (s : StepStatus). (ok (s, c.value.1), c.between)) verified)),
        ),
      )

  after_command-Probed :
      (step_id : Json) (label : String) (status : RunStatus) (command seen : Fields) (w w' : World)
      → after_command env job step step_id label status command w ≡ (ok (step_verified, seen), w')
      → (status ≡ succeeded)
        × ((verification : Json) × ((item step "verification" ≡ ok verification)
              × Probed env job verification (some step_id) (some job.execution_id) w w'))
  unfolding after_command
  after_command-Probed step_id label succeeded command seen w w' h =
      (refl, verify_step-Probed step_id label command seen w w' h)
  after_command-Probed step_id label refused command seen w w' h =
      cc (recorded step_id label _ _ seen w w' h)
  after_command-Probed step_id label errored command seen w w' h =
      cc (recorded step_id label _ _ seen w w' h)
  after_command-Probed step_id label failed_retryable command seen w w' h =
      cc (recorded step_id label _ _ seen w w' h)

-- A step that is reported as verified has had its command succeed on the node in this run, and right
-- after it, from the world that the command left, a probe that only reads was run to an answer with an
-- equal value for every field that the step expects (a field that is not observed counts as `None`);
-- after the probe nothing more was sent.
pub execute_fixing_step-StepVerified :
    (env : Env) (job : Job) (step seen : Fields) (w w' : World)
    → execute_fixing_step env job step w ≡ (ok (step_verified, seen), w')
    → StepVerified env job step w w'
unfolding execute_fixing_step
execute_fixing_step-StepVerified env job step seen w w' h =
    let (label, (_, h1)) = lift-Chain (step_label env job step) _ w _ w' h in
    let (step_id, (identified, h2)) = lift-Chain (item step "step_id") _ w _ w' h1 in
    let (runner, (runs, h3)) = lift-Chain (item step "runner") _ w _ w' h2 in
    let c =
      bind-Chain (run_runner_command env (step_command env job step step_id runner)) _ w _ w' h3 in
    let (done, (verification, (verifies, probed))) =
      after_command-Probed env job step step_id label c.value.0 c.value.1 seen c.between w'
        c.second in
    record {
      step_id = step_id;
      identified = identified;
      runner = runner;
      runs = runs;
      verification = verification;
      verifies = verifies;
      result = c.value.1;
      between = c.between;
      succeeds = c.first ∙ ap (λ (s : RunStatus). (ok (s, c.value.1), c.between)) done;
      probed = probed;
    }

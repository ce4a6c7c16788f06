-- ===== src/Analyzer/Convert/Catalogued.antt =====
-- layer2-analyzer/src/runner_catalog.py, as layer4-executor/src/executor.py reads what it gives.
use aads.Prelude.{◌≡◌, String, false, none, some}
use aads.Python.{ok, obj}
use aads.Policy.{RunnerSpec}
use aads.Executor.Validate.{validate_runner, validate_verification}
use aads.Catalog.{VerificationSpec, runner_for, verification_for}
use aads.Schema.Accepted.{valid_verification-IsProbe}
use aads.Schema.Dump.{dump_runner, dump_verification}
use aads.Schema.Dump.Executable.{dump_runner-valid, dump_verification-valid}
use aads.Analyzer.Convert.Tables.{key_facts}
use aads.Analyzer.Convert.Steps.{is_ready-valid, is_check-parts}

-- For every service and operation that the catalog has a runner for, it has a verification too, and
-- the executor accepts both, once they are stored as the JSON of the models.
pub runner_for-validate_runner :
    (service operation : String) (r : RunnerSpec)
    → runner_for service operation ≡ ok r
    → (v : VerificationSpec) × ((verification_for service operation ≡ ok v)
        × ((validate_runner (some (obj (dump_runner r))) false ≡ none)
            × (validate_verification (obj (dump_verification v)) ≡ ok none)))
runner_for-validate_runner service operation r h =
    let (v, (found, facts)) = key_facts (service, operation) r h in
    let (valid, _) = is_check-parts service v facts.check in
    (
      v,
      (
        found,
        (
          dump_runner-valid r (is_ready-valid service r facts.ready),
          dump_verification-valid v (valid_verification-IsProbe v valid),
        ),
      ),
    )

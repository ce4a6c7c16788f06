-- ===== src/Tests/Catalog.antt =====
-- The catalog for an operation of nginx.
use aads.Prelude.{◌≡◌, refl, true, false, none, some, pos, [], ◌∷◌, if◌then◌else◌}
use aads.Python.{ok, obj}
use aads.Policy.{RunnerSpec}
use aads.Executor.Validate.{validate_runner, validate_verification}
use aads.Executor.Runner.{max_attempts}
use aads.Catalog.{
  VerificationSpec, runner_for, spec_of, verification_for, idempotency_for, idempotent?, lookup,
  mutations,
}
use aads.Catalog.Sound.{IsCheck, verification_for-IsCheck, max_attempts-idempotency_for}
use aads.Schema.Dump.{dump_runner, dump_verification}
use aads.Analyzer.Convert.Catalogued.{runner_for-validate_runner}
use aads.Tests.Executor.{env}

verification_for-IsCheck_example : IsCheck (verification_for "nginx" "start")
verification_for-IsCheck_example = verification_for-IsCheck "nginx" "start"

max_attempts-idempotency_for_example :
    max_attempts env (obj (idempotency_for "nginx" "reload"))
    ≡ ok (if idempotent? (lookup ("nginx", "reload") mutations) then 2 else 1)
max_attempts-idempotency_for_example = max_attempts-idempotency_for env "nginx" "reload"

abbrev reload : RunnerSpec
reload = spec_of ("/usr/local/sbin/aads-nginx-reload" ∷ []) true "mutate" (pos 30)

reloads : runner_for "nginx" "reload" ≡ ok reload
unfolding runner_for lookup aads.Catalog.probes aads.Catalog.mutation_runner mutations
reloads = refl

runner_for-validate_runner_example :
    (v : VerificationSpec) × ((verification_for "nginx" "reload" ≡ ok v)
      × ((validate_runner (some (obj (dump_runner reload))) false ≡ none)
          × (validate_verification (obj (dump_verification v)) ≡ ok none)))
runner_for-validate_runner_example = runner_for-validate_runner "nginx" "reload" reload reloads

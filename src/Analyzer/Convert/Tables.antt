-- ===== src/Analyzer/Convert/Tables.antt =====
-- The tables of layer2-analyzer/src/runner_catalog.py, as `_to_fixing_plan` of
-- layer2-analyzer/src/main.py uses them: tests that are run over all their keys.
use aads.Prelude.{
  ◌≡◌, refl, arith, String, Bool, true, false, not, ◌&&◌, ◌||◌, &&-true, Option, none, some, List,
  [], ◌∷◌, all-In, all, str_eq, str_mem, begins_with,
}
use aads.Python.{Py, ok, raise, get, has}
use aads.Policy.{RunnerSpec}
use aads.Catalog.{
  Key, VerificationSpec, lookup, probes, mutations, mutation_runner, runner_for, verify_probes,
  verification_from_probe, verification_for, final_probe, snapshot_for, snapshot_scope,
  rollback_for, by_priority,
}
use aads.Catalog.Known.{known_keys, runner_for-In}
use aads.Schema.{
  valid_rules, expected_must_be_structured, nonempty, valid_runner, valid_verification, scopes,
}
use aads.Analyzer.Convert.{expected_outcome_for}

-- The arguments are no absolute path but for the one that the profile of nginx covers.
abbrev pub args_ok : String → List String → Bool
args_ok service args =
    all (λ a. not (begins_with a "/") || (str_eq service "nginx" && str_eq a "/dev/null")) args

abbrev pub no_env : List (String × String) → Bool
no_env [] = true
no_env (_ ∷ _) = false

abbrev pub args_of : List String → List String
args_of [] = []
args_of (_ ∷ args) = args

-- The runner passes the validators, and may run in a plan that repairs the service.
unfoldable pub is_ready : String → RunnerSpec → Bool
is_ready service r =
    (valid_runner r && args_ok service (args_of r.argv)) && (str_eq r.cwd "/" && no_env r.env)

abbrev pub on_ok {ℓ} : {A : Type ℓ} → (A → Bool) → Py A → Bool
on_ok p (ok a) = p a
on_ok p (raise e) = false

abbrev on_ok_if {ℓ} : {A : Type ℓ} → (A → Bool) → Py A → Bool
on_ok_if p (ok a) = p a
on_ok_if p (raise e) = true

unfoldable pub is_check : String → VerificationSpec → Bool
unfolding is_ready
is_check service v = valid_verification v && is_ready service v.runner

key_test : Key → Bool
unfolding is_ready is_check
key_test key =
    (on_ok_if (is_ready key.0) (runner_for key.0 key.1)
      && on_ok (is_check key.0) (verification_for key.0 key.1))
    && (nonempty (expected_outcome_for key) && str_mem key.0 by_priority)

keys_pass : all key_test known_keys ≡ true
unfolding key_test known_keys runner_for lookup probes mutations mutation_runner verification_for
    verify_probes verification_from_probe valid_verification valid_runner expected_outcome_for
    valid_rules aads.Schema.valid_rule get expected_must_be_structured has begins_with
keys_pass = refl

abbrev pub mutates : String → RunnerSpec → Bool
mutates service r = is_ready service r && str_eq r.side_effect "mutate"

abbrev pub mutates? : String → Option RunnerSpec → Bool
mutates? service none = true
mutates? service (some r) = mutates service r

unfoldable pub service_test : String → Bool
unfolding is_ready is_check
service_test name =
    on_ok (is_check name) (verification_from_probe (final_probe name))
    && (on_ok (λ (s : RunnerSpec × String). mutates name s.0 && str_mem s.1 scopes)
          (snapshot_for name)
        && on_ok (mutates? name) (rollback_for name))

pub services_pass : all service_test by_priority ≡ true
unfolding service_test runner_for lookup probes mutations mutation_runner verification_from_probe
    final_probe snapshot_for snapshot_scope rollback_for valid_verification valid_runner valid_rules
    aads.Schema.valid_rule get expected_must_be_structured has begins_with
services_pass = refl

-- What holds of a runner that the tables give for a key.
pub record KeyFacts (key : Key) (r : RunnerSpec) (v : VerificationSpec) : Type 0 where
  pub ready : is_ready key.0 r ≡ true
  pub check : is_check key.0 v ≡ true
  pub outcome : nonempty (expected_outcome_for key) ≡ true
  pub service : str_mem key.0 by_priority ≡ true

pub key_facts :
    (key : Key) (r : RunnerSpec)
    → runner_for key.0 key.1 ≡ ok r
    → (v : VerificationSpec) × ((verification_for key.0 key.1 ≡ ok v) × KeyFacts key r v)
unfolding key_test
key_facts key r e =
    let test = all-In key_test known_keys key keys_pass (runner_for-In key r e) in
    facts (verification_for key.0 key.1) refl (rw (e, key_test) at test)
  where
    facts :
        (o : Py VerificationSpec)
        → verification_for key.0 key.1 ≡ o
        → ((is_ready key.0 r && on_ok (is_check key.0) o)
            && (nonempty (expected_outcome_for key) && str_mem key.0 by_priority))
          ≡ true
        → (v : VerificationSpec) × ((verification_for key.0 key.1 ≡ ok v) × KeyFacts key r v)
    facts (ok v) f h =
        let (front, back) = &&-true (is_ready key.0 r && is_check key.0 v) _ h in
        let (ready, check) = &&-true (is_ready key.0 r) (is_check key.0 v) front in
        let (outcome, service) = &&-true (nonempty (expected_outcome_for key)) _ back in
        (v, (f, record { ready = ready; check = check; outcome = outcome; service = service }))
    facts (raise x) f h = absurd (ground arith)

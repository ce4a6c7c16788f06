-- ===== src/Analyzer/Convert/Steps.antt =====
-- `_to_fixing_plan` of layer2-analyzer/src/main.py: the steps for commands that the catalog knows.
use aads.Prelude.{
  ◌≡◌, refl, arith, ℕ, suc, String, true, ◌&&◌, &&-true, &&-intro, List, [], ◌∷◌, map, ℤ, pos,
  leb_ℤ, ltb_ℤ, All, all, str_mem,
}
use aads.Python.{ok}
use aads.Policy.{RunnerSpec}
use aads.Catalog.{
  Key, VerificationSpec, runner_for, verification_for, probe_or_default, lookup, verify_probes,
}
use aads.Catalog.Known.{IsKnown}
use aads.Schema.{FixingPlanStep, valid_step, valid_runner, valid_verification, nonempty}
use aads.Schema.Orders.{Increasing}
use aads.Analyzer.Convert.{step_for, fixing_step, fixing_steps, expected_outcome_for}
use aads.Analyzer.Convert.Tables.{is_ready, is_check, key_facts}
use aads.Analyzer.Convert.Services.{verification_from_probe-IsKnown}

-- The runner is one of the catalog, and ready to run in a plan that repairs the services.
abbrev pub Fits : List String → RunnerSpec → Type 0
Fits services r =
    IsKnown r × ((name : String) × (str_mem name services ≡ true) × (is_ready name r ≡ true))

pub record StepFacts (services : List String) (index : ℕ) (s : FixingPlanStep) : Type 0 where
  pub order : s.order ≡ pos index
  pub valid : valid_step s ≡ true
  pub repair : Fits services s.runner
  pub probe : Fits services s.verification.runner

-- The catalog has a runner for the command, and its service is one of those.
abbrev pub Repairs : List String → Key → Type 0
Repairs services key =
    (r : RunnerSpec) × (runner_for key.0 key.1 ≡ ok r) × (str_mem key.0 services ≡ true)

pub is_ready-valid :
    (name : String) (r : RunnerSpec) → is_ready name r ≡ true → valid_runner r ≡ true
unfolding is_ready
is_ready-valid name r h = (&&-true (valid_runner r) _ (&&-true (valid_runner r && _) _ h).0).0

pub is_check-parts :
    (name : String) (v : VerificationSpec)
    → is_check name v ≡ true
    → (valid_verification v ≡ true) × (is_ready name v.runner ≡ true)
unfolding is_check
is_check-parts name v h = &&-true (valid_verification v) (is_ready name v.runner) h

verification-IsKnown :
    (key : Key) (v : VerificationSpec) → verification_for key.0 key.1 ≡ ok v → IsKnown v.runner
unfolding verification_for
verification-IsKnown key v h =
    verification_from_probe-IsKnown (probe_or_default (lookup key verify_probes)) v h

positive : (n : ℕ) → leb_ℤ (pos 1) (pos (suc n)) ≡ true
positive n = ground arith

step_for-valid :
    (index : ℕ) (key : Key) (r : RunnerSpec) (v : VerificationSpec)
    → valid_runner r ≡ true
    → nonempty (expected_outcome_for key) ≡ true
    → valid_verification v ≡ true
    → valid_step (step_for (suc index) key r v) ≡ true
unfolding valid_step
step_for-valid index key r v runner outcome valid = rw (positive index, runner, outcome, valid) refl

fixing_step-returns :
    (services : List String) (index : ℕ) (key : Key)
    → Repairs services key
    → (s : FixingPlanStep) × ((fixing_step (suc index) key ≡ ok s)
        × StepFacts services (suc index) s)
unfolding fixing_step
fixing_step-returns services index key (r, e, m) =
    let (v, (f, facts)) = key_facts key r e in
    let (valid, probe) = is_check-parts key.0 v facts.check in
    let passes =
      step_for-valid index key r v (is_ready-valid key.0 r facts.ready) facts.outcome valid in
    (
      step_for (suc index) key r v,
      (
        rw (e, f, passes) refl,
        record {
          order = refl;
          valid = passes;
          repair = ((key, e), (key.0, m, facts.ready));
          probe = (verification-IsKnown key v f, (key.0, m, probe));
        },
      ),
    )

abbrev orders_of : List FixingPlanStep → List ℤ
orders_of steps = map (λ (s : FixingPlanStep). s.order) steps

-- Steps for the commands, in their order.
pub record StepsFacts (services : List String) (index : ℕ) (steps : List FixingPlanStep)
    : Type 0 where
  pub above : All (λ m. ltb_ℤ (pos index) m ≡ true) (orders_of steps)
  pub increasing : Increasing (orders_of steps)
  pub valid : all valid_step steps ≡ true
  pub repairs : All (Fits services) (map (λ (s : FixingPlanStep). s.runner) steps)
  pub probes : All (Fits services) (map (λ (s : FixingPlanStep). s.verification.runner) steps)

All-lower :
    (index : ℕ) (ms : List ℤ)
    → All (λ m. ltb_ℤ (pos (suc index)) m ≡ true) ms
    → All (λ m. ltb_ℤ (pos index) m ≡ true) ms
All-lower index [] a = tt
All-lower index (m ∷ ms) a = (ground (arith, a.0), All-lower index ms a.1)

pub fixing_steps-returns :
    (services : List String) (index : ℕ) (keys : List Key)
    → All (Repairs services) keys
    → (steps : List FixingPlanStep) × ((fixing_steps (suc index) keys ≡ ok steps)
        × StepsFacts services index steps)
unfolding fixing_steps
fixing_steps-returns services index [] a =
    ([], (refl, record { above = tt; increasing = tt; valid = refl; repairs = tt; probes = tt }))
fixing_steps-returns services index (key ∷ keys) a =
    let (s, (e, first)) = fixing_step-returns services index key a.0 in
    let (steps, (f, rest)) = fixing_steps-returns services (suc index) keys a.1 in
    (
      s ∷ steps,
      (
        rw (e, f) refl,
        record {
          above = (rw (first.order) (below index), All-lower index (orders_of steps) rest.above);
          increasing = (rw (first.order) rest.above, rest.increasing);
          valid = &&-intro (valid_step s) (all valid_step steps) first.valid rest.valid;
          repairs = (first.repair, rest.repairs);
          probes = (first.probe, rest.probes);
        },
      ),
    )
  where
    below : (n : ℕ) → ltb_ℤ (pos n) (pos (suc n)) ≡ true
    below n = ground arith

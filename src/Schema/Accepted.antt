-- ===== src/Schema/Accepted.antt =====
-- `FixingPlan` of layer2-analyzer/src/schemas/action_plan.py: the plans that its validators accept.
use aads.Prelude.{
  ◌≡◌, refl, arith, inl, inr, Bool, true, false, not, ◌&&◌, &&-true, Option, none, some, List, [],
  ◌∷◌, map, str_eq, str_eq_iff, All, all, Bool-cases,
}
use aads.Python.{ok, has, keys}
use aads.Policy.{Reason, RunnerSpec, ExecutionProfile, profile_allows}
use aads.Policy.Spec.{Permits}
use aads.Policy.Decides.{profile_allows_iff}
use aads.Executor.Valid.{all-All}
use aads.Catalog.{VerificationSpec}
use aads.Schema.{
  FixingPlan, FixingPlanStep, filled, valid_runner, valid_rules, expected_must_be_structured,
  valid_verification, valid_step, all_runners, prod_auto, is_none, valid_profile, valid_rollback,
  valid_fields, validate_order_and_policy, fixing_plan,
}
use aads.Schema.Orders.{Increasing, orders-Increasing}

-- A check that only reads and extracts every field that it expects.
pub record IsProbe (v : VerificationSpec) : Type 0 where
  pub reads : v.runner.side_effect ≡ "read"
  pub runnable : valid_runner v.runner ≡ true
  pub structured : expected_must_be_structured v.expected ≡ true
  pub extracted : All (λ k. has v.extract k ≡ true) (keys v.expected)

pub record IsAccepted (plan : FixingPlan) : Type 0 where
  pub version : plan.schema_version ≡ "3.1"
  pub permitted : All (Permits plan.execution_profile) (all_runners plan)
  pub increasing : Increasing (map (λ (s : FixingPlanStep). s.order) plan.steps)
  pub some_step : filled plan.steps ≡ true
  pub valid_steps : all valid_step plan.steps ≡ true
  pub grants : valid_profile plan.execution_profile ≡ true
  pub probes : All (λ (s : FixingPlanStep). IsProbe s.verification) plan.steps
  pub final : IsProbe plan.final_verification
  pub policy : prod_auto plan.environment_policy ≡ false
  pub checked : plan.self_check.passed ≡ true

pub valid_verification-IsProbe : (v : VerificationSpec) → valid_verification v ≡ true → IsProbe v
unfolding valid_verification
valid_verification-IsProbe v h =
    let (fields, model) =
      &&-true
        (valid_runner v.runner && (valid_rules v.extract && expected_must_be_structured v.expected))
        _ h in
    let (runner, rest) = &&-true (valid_runner v.runner) _ fields in
    let (reads, covers) = &&-true (str_eq v.runner.side_effect "read") _ model in
    record {
      reads = (str_eq_iff v.runner.side_effect "read").0 reads;
      runnable = runner;
      structured = (&&-true (valid_rules v.extract) _ rest).1;
      extracted = all-All (has v.extract) (keys v.expected) covers;
    }

steps-IsProbe :
    (steps : List FixingPlanStep)
    → all valid_step steps ≡ true
    → All (λ (s : FixingPlanStep). IsProbe s.verification) steps
unfolding valid_step
steps-IsProbe [] h = tt
steps-IsProbe (s ∷ steps) h =
    let (first, others) = &&-true (valid_step s) (all valid_step steps) h in
    (
      valid_verification-IsProbe s.verification (&&-true _ _ (&&-true _ _ first).1).1,
      steps-IsProbe steps others,
    )

runners-Permits :
    (profile : ExecutionProfile) (runners : List RunnerSpec)
    → all (λ r. is_none (profile_allows (some profile) r)) runners ≡ true
    → All (Permits profile) runners
runners-Permits profile [] h = tt
runners-Permits profile (r ∷ runners) h =
    let (first, others) = &&-true (is_none (profile_allows (some profile) r)) _ h in
    (
      (profile_allows_iff profile r).0 (is_none-none (profile_allows (some profile) r) first),
      runners-Permits profile runners others,
    )
  where
    is_none-none : (o : Option Reason) → is_none o ≡ true → o ≡ none
    is_none-none none e = refl
    is_none-none (some x) e = cc

fixing_plan-tests :
    (plan accepted : FixingPlan)
    → fixing_plan plan ≡ ok accepted
    → (plan ≡ accepted) × ((valid_fields plan ≡ true) × (validate_order_and_policy plan ≡ true))
unfolding fixing_plan
fixing_plan-tests plan accepted h =
    elim (Bool-cases (valid_fields plan && validate_order_and_policy plan)) [
      | inl t ↦ (cc (rw (t, fixing_plan) at h), &&-true (valid_fields plan) _ t)
      | inr f ↦ cc (rw (f, fixing_plan) at h)
    ]

refuted : (b : Bool) → not b ≡ true → b ≡ false
refuted b h = ground arith

tests-IsAccepted :
    (plan : FixingPlan)
    → valid_fields plan ≡ true
    → validate_order_and_policy plan ≡ true
    → IsAccepted plan
unfolding valid_fields validate_order_and_policy
tests-IsAccepted plan h v =
    let (names, parts) = &&-true (str_eq plan.schema_version "3.1" && _ && _) _ h in
    let (specs, ends) = &&-true _ _ parts in
    let (_, stepped) = &&-true (valid_rollback plan.rollback) _ (&&-true _ _ specs).1 in
    let (some_step, steps) = &&-true (filled plan.steps) _ stepped in
    let (policy, runners) = &&-true _ _ v in
    let (ordered, others) = &&-true _ _ policy in
    let (unique, sorted) = &&-true _ _ ordered in
    let (safe, passed) = &&-true _ _ others in
    record {
      version = (str_eq_iff plan.schema_version "3.1").0 (&&-true _ _ (&&-true _ _ names).0).0;
      permitted = runners-Permits plan.execution_profile (all_runners plan) runners;
      increasing = orders-Increasing _ unique sorted;
      some_step = some_step;
      valid_steps = steps;
      grants = (&&-true _ _ (&&-true _ _ specs).0).0;
      probes = steps-IsProbe plan.steps steps;
      final = valid_verification-IsProbe plan.final_verification (&&-true _ _ ends).0;
      policy = refuted _ safe;
      checked = passed;
    }

-- A plan that the model accepts is the plan that was given, and every runner that it can execute,
-- of its steps, checks, snapshot and rollback, is permitted by its own profile; its orders increase;
-- its checks only read and extract what they expect; it does not run on its own in production; and
-- its self-check passed.
pub fixing_plan-IsAccepted :
    (plan accepted : FixingPlan)
    → fixing_plan plan ≡ ok accepted
    → (plan ≡ accepted) × IsAccepted plan
fixing_plan-IsAccepted plan accepted h =
    let (same, (fields, policy)) = fixing_plan-tests plan accepted h in
    (same, tests-IsAccepted plan fields policy)

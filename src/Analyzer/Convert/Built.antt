-- ===== src/Analyzer/Convert/Built.antt =====
-- `_to_fixing_plan` of layer2-analyzer/src/main.py: the plan that it builds, against its model.
use aads.Prelude.{
  ◌≡◌, refl, inl, inr, ◌⊎◌, arith, String, Bool, true, false, ◌&&◌, ◌||◌, &&-true, &&-intro, Option,
  none, some, List, [], ◌∷◌, ◌++◌, map, In, In-all, In-append_left, In-append_right, append-In,
  here, there, all, str_eq, str_eq_iff, str_eq_refl, str_lt, str_mem, Bool-cases, In-sorted_by,
}
use aads.Python.{ok, get}
use aads.Policy.{RunnerSpec, profile_allows}
use aads.Catalog.{VerificationSpec}
use aads.Schema.{
  FixingPlan, FixingPlanStep, filled, nonempty, is_none, option_list, step_runners, all_runners,
  valid_fields, validate_order_and_policy, prod_auto, fixing_plan, valid_snapshot, valid_rollback,
  valid_verification, runner_required_when_enabled, valid_runner,
}
use aads.Schema.Orders.{Increasing-orders}
use aads.Analyzer.{Config, is_test, distinct, sorted_set}
use aads.Analyzer.Convert.{environment_policy, profile_runners, plan_with, is_some}
use aads.Analyzer.Convert.Tables.{is_ready, mutates, mutates?}
use aads.Analyzer.Convert.Services.{ServiceFacts}
use aads.Analyzer.Convert.Steps.{StepsFacts, is_ready-valid}
use aads.Analyzer.Convert.Profiles.{ProfileFacts}

str_mem-In : (x : String) (xs : List String) → str_mem x xs ≡ true → In x xs
str_mem-In x [] h = cc
str_mem-In x (y ∷ ys) h = elim (Bool-cases (str_eq x y)) [
  | inl t ↦ here ((str_eq_iff x y).0 t)
  | inr f ↦ there (str_mem-In x ys (rw (f, ◌||◌) at h))
]

mem_later : (x y : String) (ys : List String) → str_mem x ys ≡ true → str_mem x (y ∷ ys) ≡ true
mem_later x y ys h = ground arith

pub In-str_mem : (x : String) (xs : List String) → In x xs → str_mem x xs ≡ true
In-str_mem x [] m = elim m [ ]
In-str_mem x (y ∷ ys) (here e) = rw (← e) (rw (str_eq_refl x) refl)
In-str_mem x (y ∷ ys) (there m) = mem_later x y ys (In-str_mem x ys m)

In-distinct : (x : String) (xs : List String) → In x xs → In x (distinct xs)
unfolding distinct
In-distinct x [] m = m
In-distinct x (y ∷ ys) (here e) = elim (Bool-cases (str_mem y (distinct ys))) [
  | inl t ↦ rw (t) (rw (e) (str_mem-In y (distinct ys) t))
  | inr f ↦ rw (f) (here e)
]
In-distinct x (y ∷ ys) (there m) = elim (Bool-cases (str_mem y (distinct ys))) [
  | inl t ↦ rw (t) (In-distinct x ys m)
  | inr f ↦ rw (f) (there (In-distinct x ys m))
]

pub mem-sorted_set :
    (x : String) (xs : List String) → str_mem x xs ≡ true → str_mem x (sorted_set xs) ≡ true
unfolding sorted_set
mem-sorted_set x xs h =
    In-str_mem x _ (In-sorted_by str_lt x (distinct xs) (In-distinct x xs (str_mem-In x xs h)))

no_auto : (b : Bool) → (b && false) ≡ false
no_auto b = ground arith

-- the environment of a policy that allows automatic execution is "test"
never_prod : (config : Config) → prod_auto (environment_policy config) ≡ false
unfolding prod_auto environment_policy is_test get
never_prod config = elim (Bool-cases (str_eq config.default_node_environment "test")) [
  | inl t ↦ rw ((str_eq_iff config.default_node_environment "test").0 t) refl
  | inr f ↦ rw (f) (no_auto (str_eq config.default_node_environment "prod"))
]

-- the runners of the steps are those of the repairs and those of the checks
step_runners-In :
    (r : RunnerSpec) (steps : List FixingPlanStep)
    → In r (step_runners steps)
    → In r (map (λ (s : FixingPlanStep). s.runner) steps)
      ⊎ In r (map (λ (s : FixingPlanStep). s.verification.runner) steps)
unfolding step_runners
step_runners-In r [] m = inl m
step_runners-In r (s ∷ steps) (here e) = inl (here e)
step_runners-In r (s ∷ steps) (there (here e)) = inr (here e)
step_runners-In r (s ∷ steps) (there (there m)) = elim (step_runners-In r steps m) [
  | inl n ↦ inl (there n)
  | inr n ↦ inr (there n)
]

module _ (steps : List FixingPlanStep) (final : VerificationSpec) (snapshot : RunnerSpec)
    (rollback : Option RunnerSpec) where
  from_ends :
      (r : RunnerSpec)
      → In r (final.runner ∷ snapshot ∷ option_list rollback)
      → In r (profile_runners steps final snapshot rollback)
  unfolding profile_runners
  from_ends r m =
      In-append_right (map (λ (s : FixingPlanStep). s.runner) steps) _
        (In-append_right (map (λ (s : FixingPlanStep). s.verification.runner) steps) _ m)

  from_steps :
      (r : RunnerSpec)
      → In r (step_runners steps)
      → In r (profile_runners steps final snapshot rollback)
  unfolding profile_runners
  from_steps r m = elim (step_runners-In r steps m) [
    | inl n ↦ In-append_left (map (λ (s : FixingPlanStep). s.runner) steps) _ n
    | inr n ↦
        In-append_right (map (λ (s : FixingPlanStep). s.runner) steps) _
          (In-append_left (map (λ (s : FixingPlanStep). s.verification.runner) steps) _ n)
  ]

  -- Every runner of the plan is one of those that the profile is derived from.
  covers :
      (r : RunnerSpec)
      → In r (step_runners steps ++ (final.runner ∷ snapshot ∷ option_list rollback))
      → In r (profile_runners steps final snapshot rollback)
  covers r m = elim (append-In (step_runners steps) _ m) [
    | inl n ↦ from_steps r n
    | inr n ↦ from_ends r n
  ]

mutates-parts :
    (name : String) (r : RunnerSpec)
    → mutates name r ≡ true
    → (valid_runner r && str_eq r.side_effect "mutate") ≡ true
mutates-parts name r h =
    let (ready, effect) = &&-true (is_ready name r) _ h in
    &&-intro _ _ (is_ready-valid name r ready) effect

rollback_valid :
    (name : String) (o : Option RunnerSpec)
    → mutates? name o ≡ true
    → runner_required_when_enabled (is_some o) o ≡ true
unfolding runner_required_when_enabled
rollback_valid name none h = refl
rollback_valid name (some r) h = mutates-parts name r h

-- what the names of a plan have to be
pub record IsNamed (config : Config) (goal diagnosis_id report_id : String) : Type 0 where
  pub node : nonempty config.default_node_id ≡ true
  pub goal_given : nonempty goal ≡ true
  pub diagnosis : nonempty diagnosis_id ≡ true
  pub report : nonempty report_id ≡ true

module _ (config : Config) (goal diagnosis_id report_id : String)
    (named : IsNamed config goal diagnosis_id report_id) (services listed : List String)
    (steps : List FixingPlanStep) (step_facts : StepsFacts services 0 steps)
    (some_step : filled steps ≡ true) (name : String) (facts : ServiceFacts name)
    (final : VerificationSpec) (final_valid : valid_verification final ≡ true)
    (pf : ProfileFacts (profile_runners steps final facts.snapshot.0 facts.rollback) listed) where
  abbrev built : FixingPlan
  built =
      plan_with config goal diagnosis_id report_id steps final facts.snapshot facts.rollback
        pf.profile

  snapshot_ok : valid_snapshot built.pre_execution_snapshot ≡ true
  unfolding valid_snapshot runner_required_when_enabled
  snapshot_ok = rw (mutates-parts name facts.snapshot.0 facts.snapshot_mutates, facts.scope) refl

  rollback_ok : valid_rollback built.rollback ≡ true
  unfolding valid_rollback
  rollback_ok = rollback_valid name facts.rollback facts.rollback_mutates

  fields_ok : valid_fields built ≡ true
  unfolding valid_fields
  fields_ok =
      rw
        (
          named.node, named.goal_given, named.diagnosis, named.report, pf.valid, snapshot_ok,
          rollback_ok, some_step, step_facts.valid, final_valid,
        )
        refl

  runners_ok : all (λ r. is_none (profile_allows (some pf.profile) r)) (all_runners built) ≡ true
  unfolding all_runners
  runners_ok =
      In-all (λ r. is_none (profile_allows (some pf.profile) r)) _
        (λ r m. rw (pf.allows r (covers steps final facts.snapshot.0 facts.rollback r m)) refl)

  order_ok : validate_order_and_policy built ≡ true
  unfolding validate_order_and_policy
  order_ok =
      let (unique, sorted) = Increasing-orders _ step_facts.increasing in
      rw (unique, sorted, never_prod config, runners_ok) refl

  pub built_ok : fixing_plan built ≡ ok built
  unfolding fixing_plan
  built_ok = rw (fields_ok, order_ok) refl

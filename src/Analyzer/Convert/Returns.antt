-- ===== src/Analyzer/Convert/Returns.antt =====
-- `_to_fixing_plan` of layer2-analyzer/src/main.py, for commands that the catalog knows.
use aads.Prelude.{
  ◌≡◌, refl, arith, String, true, &&-true, Option, none, some, List, [], ◌∷◌, ◌++◌, map, All, In,
  In-map, here, there, all, str_mem,
}
use aads.Python.{ok}
use aads.Python.Laws.{>>=-returns}
use aads.Policy.{RunnerSpec}
use aads.Catalog.{
  Key, VerificationSpec, runner_for, rollback_for, by_priority, final_probe, final_verification_for,
  primary_service, first_named, first_or,
}
use aads.Schema.{FixingPlan, FixingPlanStep, filled, option_list, fixing_plan}
use aads.Schema.Accepted.{IsAccepted, fixing_plan-IsAccepted}
use aads.Analyzer.{ClaudeStylePlan, Config, Cluster, sorted_set}
use aads.Analyzer.Convert.{
  executable_commands, is_evident, assert_plan_matches_evidence, fixing_step, fixing_steps,
  profile_runners, plan_with, plan_for, fixing_plan_of, to_fixing_plan,
}
use aads.Analyzer.Convert.Tables.{is_ready, mutates, mutates?, key_facts}
use aads.Analyzer.Convert.Services.{
  service_facts, first_named-mem, verification_from_probe-IsKnown, snapshot_for-IsKnown,
  rollback_for-IsKnown,
}
use aads.Analyzer.Convert.Steps.{Fits, Repairs, StepsFacts, fixing_steps-returns, is_check-parts}
use aads.Analyzer.Convert.Profiles.{ProfileFacts, profile_facts}
use aads.Analyzer.Convert.Built.{IsNamed, mem-sorted_set, In-str_mem, built_ok}

-- The catalog has a runner for the command.
abbrev pub HasRunner : Key → Type 0
HasRunner key = (r : RunnerSpec) × (runner_for key.0 key.1 ≡ ok r)

abbrev pub services_of : List Key → List String
services_of keys = map (λ (k : Key). k.0) keys

all_Repairs :
    (services : List String) (keys : List Key)
    → ((k : Key) → In k keys → str_mem k.0 services ≡ true)
    → All HasRunner keys
    → All (Repairs services) keys
all_Repairs services [] m a = tt
all_Repairs services (key ∷ keys) m a =
    let (r, e) = a.0 in
    ((r, e, m key (here refl)), all_Repairs services keys (λ k n. m k (there n)) a.1)

Repairs-own : (keys : List Key) → All HasRunner keys → All (Repairs (services_of keys)) keys
Repairs-own keys a =
    all_Repairs (services_of keys) keys
      (λ k m. In-str_mem k.0 (services_of keys) (In-map (λ (k : Key). k.0) keys m)) a

append-All :
    (services : List String) (xs ys : List RunnerSpec)
    → All (Fits services) xs
    → All (Fits services) ys
    → All (Fits services) (xs ++ ys)
append-All services [] ys a b = b
append-All services (x ∷ xs) ys a b = (a.0, append-All services xs ys a.1 b)

rollback_fits :
    (services : List String) (name : String) (o : Option RunnerSpec)
    → str_mem name services ≡ true
    → rollback_for name ≡ ok o
    → mutates? name o ≡ true
    → All (Fits services) (option_list o)
rollback_fits services name none m e h = tt
rollback_fits services name (some r) m e h =
    ((rollback_for-IsKnown name r e, (name, m, ready name r h)), tt)
  where
    ready : (name : String) (r : RunnerSpec) → mutates name r ≡ true → is_ready name r ≡ true
    ready name r h = (&&-true (is_ready name r) _ h).0

steps_filled :
    (key : Key) (keys : List Key) (steps : List FixingPlanStep)
    → fixing_steps 1 (key ∷ keys) ≡ ok steps
    → filled steps ≡ true
unfolding fixing_steps
steps_filled key keys [] e =
    let (s, _, rest) = >>=-returns (fixing_step 1 key) _ e in
    let (ss, _, last) = >>=-returns (fixing_steps 2 keys) _ rest in cc (last)
steps_filled key keys (s ∷ steps) e = refl

later : (x y : String) (ys : List String) → str_mem x ys ≡ true → str_mem x (y ∷ ys) ≡ true
later x y ys h = ground arith

profiled :
    (services : List String) (s : FixingPlanStep) (steps : List FixingPlanStep)
    (final : VerificationSpec) (snapshot : RunnerSpec) (rollback : Option RunnerSpec)
    (listed : List String)
    → All (Fits services) (
        map (λ (s : FixingPlanStep). s.runner) (s ∷ steps)
        ++ (map (λ (s : FixingPlanStep). s.verification.runner) (s ∷ steps)
            ++ (final.runner ∷ snapshot ∷ option_list rollback)))
    → (str_mem "nginx" services ≡ true → str_mem "nginx" listed ≡ true)
    → ProfileFacts (profile_runners (s ∷ steps) final snapshot rollback) listed
unfolding profile_runners
profiled services s steps final snapshot rollback listed fits mem =
    profile_facts services listed s.runner _ fits mem

module _ (config : Config) (cluster : Cluster) (goal diagnosis_id report_id : String)
    (named : IsNamed config goal diagnosis_id report_id) (key : Key) (keys : List Key)
    (known : All HasRunner (key ∷ keys)) where
  abbrev services : List String
  services = services_of (key ∷ keys)

  -- the service that a preference list picks, for a default
  picked_service :
      (default : String)
      → (str_mem (first_named by_priority services default) services ≡ true)
        × (str_mem (first_named by_priority services default) by_priority ≡ true)
  picked_service default =
      let (r, e) = known.0 in
      let (v, (f, facts)) = key_facts key r e in
      first_named-mem by_priority services default key.0 facts.service
        (In-str_mem key.0 services (here refl))

  plan_returns :
      (steps : List FixingPlanStep)
      → StepsFacts services 0 steps
      → filled steps ≡ true
      → (plan : FixingPlan) × ((plan_for config goal diagnosis_id report_id steps services
            ≡ ok plan)
          × ((fixing_plan plan ≡ ok plan) × (plan.steps ≡ steps)))
  unfolding plan_for final_verification_for primary_service
  plan_returns [] facts some_step = cc
  plan_returns (s ∷ steps) facts some_step =
      let (mem, prior) = picked_service (first_or services "nginx") in
      let primary = first_named by_priority services (first_or services "nginx") in
      let ends = service_facts primary prior in
      let (mem', prior') = picked_service "nginx" in
      let closing = first_named by_priority services "nginx" in
      let last = service_facts closing prior' in
      let (valid, ready) = is_check-parts closing last.final last.check in
      let final_fits : Fits services last.final.runner = (
        verification_from_probe-IsKnown (final_probe closing) last.final last.finds,
        (closing, mem', ready),
      ) in
      let snapshot_fits : Fits services ends.snapshot.0 = (
        snapshot_for-IsKnown primary ends.snapshot ends.takes,
        (primary, mem, (&&-true (is_ready primary ends.snapshot.0) _ ends.snapshot_mutates).0),
      ) in
      let fits =
        append-All services (map (λ (s : FixingPlanStep). s.runner) (s ∷ steps)) _ facts.repairs (
          append-All services (map (λ (s : FixingPlanStep). s.verification.runner) (s ∷ steps)) _
            facts.probes
            (
              final_fits,
              (
                snapshot_fits,
                rollback_fits services primary ends.rollback mem ends.restores
                    ends.rollback_mutates,
              ),
            )) in
      let pf =
        profiled services s steps last.final ends.snapshot.0 ends.rollback
          (sorted_set (primary ∷ services)) fits
          (λ h. mem-sorted_set "nginx" (primary ∷ services) (later "nginx" primary services h)) in
      (
        plan_with config goal diagnosis_id report_id (s ∷ steps) last.final ends.snapshot
            ends.rollback pf.profile,
        (
          rw (last.finds, ends.takes, ends.restores, pf.derives)
              (built_ok config goal diagnosis_id report_id named services _ (s ∷ steps) facts refl
                primary ends last.final valid pf),
          (
            built_ok config goal diagnosis_id report_id named services _ (s ∷ steps) facts refl
                primary ends last.final valid pf,
            refl,
          ),
        ),
      )

  given_returns :
      all (is_evident config cluster) services ≡ true
      → (plan : FixingPlan) × ((fixing_plan_of config cluster goal diagnosis_id report_id
              (key ∷ keys)
            ≡ ok plan)
          × (IsAccepted plan × (fixing_steps 1 (key ∷ keys) ≡ ok plan.steps)))
  unfolding fixing_plan_of assert_plan_matches_evidence
  given_returns evident =
      let (steps, (e, facts)) =
        fixing_steps-returns services 0 (key ∷ keys) (Repairs-own (key ∷ keys) known) in
      let (plan, (f, (accepted, same))) =
        plan_returns steps facts (steps_filled key keys steps e) in
      (plan, (rw (e, evident) f, ((fixing_plan-IsAccepted plan plan accepted).1, rw (same) e)))

-- The conversion succeeds on every plan whose `Execute` steps hold at least one command, if the
-- catalog has a runner for each, the cluster mentions each service, and the names are not empty:
-- the result has the steps of the commands in their order and is one that the model accepts, so its
-- derived profile permits every runner of its steps, checks, snapshot and rollback.
pub to_fixing_plan-returns :
    (config : Config) (cluster : Cluster) (plan : ClaudeStylePlan) (diagnosis_id report_id : String)
    → IsNamed config plan.goal diagnosis_id report_id
    → (key : Key) (keys : List Key) → executable_commands plan ≡ key ∷ keys
    → All HasRunner (key ∷ keys)
    → all (is_evident config cluster) (services_of (key ∷ keys)) ≡ true
    → (fixing : FixingPlan) × ((to_fixing_plan config plan cluster diagnosis_id report_id
          ≡ ok fixing)
        × (IsAccepted fixing × (fixing_steps 1 (key ∷ keys) ≡ ok fixing.steps)))
unfolding to_fixing_plan
to_fixing_plan-returns config cluster plan diagnosis_id report_id named key keys e known evident =
    rw (e)
      (given_returns config cluster plan.goal diagnosis_id report_id named key keys known evident)

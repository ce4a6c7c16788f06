-- ===== src/Schema/Dump/Executable.antt =====
-- The plans of layer2-analyzer/src/schemas/action_plan.py, against `validate_plan` of
-- layer4-executor/src/executor.py.
use mathlib.Core.Path.{subst}
use aads.Prelude.{
  ◌≡◌, refl, ap, arith, String, Bool, true, false, not, ◌&&◌, ◌||◌, &&-true, none, some, List, [],
  ◌∷◌, map, ℤ, str_eq, All, all,
}
use aads.Python.{ok, ◌>>=◌, str, obj, arr, Fields, end, field, has, get, keys, items, item, truthy}
use aads.Python.Laws.{or_else-obj}
use aads.Policy.{RunnerSpec, CommandPermission, ExecutionProfile}
use aads.Catalog.{VerificationSpec}
use aads.Catalog.Profile.{is_side_effect}
use aads.Executor.Validate.{
  and_then, required, is_argv, is_nonempty_str, validate_runner, validate_expected,
  validate_verification, require_fields, validate_step, validate_steps, as_dicts, orders,
  validate_step_list, validate_profile, validate_version, validate_schema, validate_self_check,
  validate_plan,
}
use aads.Schema.{
  FixingPlan, FixingPlanStep, filled, nonempty, valid_runner, expected_must_be_structured,
  valid_step, valid_profile, fixing_plan,
}
use aads.Schema.Orders.{Increasing}
use aads.Executor.Order.Increasing.{numbers, misordered-Increasing}
use aads.Schema.Accepted.{IsProbe, IsAccepted, fixing_plan-IsAccepted}
use aads.Schema.Dump.{
  texts, dump_runner, dump_rules, dump_verification, dump_step, dump_steps, dump_profile,
  dump_commands, dump_plan, dump_self_check,
}

texts-argv :
    (xs : List String) → all nonempty xs ≡ true → all is_nonempty_str (items (texts xs)) ≡ true
texts-argv [] h = refl
texts-argv (x ∷ xs) h =
    let (first, others) = &&-true (nonempty x) (all nonempty xs) h in
    rw (first) (texts-argv xs others)

dump-is_argv :
    (argv : List String)
    → filled argv ≡ true
    → all nonempty argv ≡ true
    → is_argv (some (arr (texts argv))) ≡ true
dump-is_argv [] f h = cc
dump-is_argv (x ∷ xs) f h = texts-argv (x ∷ xs) h

-- A runner that the model accepts is one that the executor accepts, also as a check if it only reads.
pub dump_runner-valid :
    (r : RunnerSpec)
    → valid_runner r ≡ true
    → validate_runner (some (obj (dump_runner r))) false ≡ none
unfolding valid_runner validate_runner dump_runner get
dump_runner-valid r h =
    let (front, back) =
      &&-true (str_eq r.mode "argv" && (filled r.argv && all nonempty r.argv)) _ h in
    let (mode, argv) = &&-true (str_eq r.mode "argv") _ front in
    let (some_arg, args) = &&-true (filled r.argv) _ argv in
    let (_, effect) = &&-true _ (is_side_effect r.side_effect) back in
    rw (dump-is_argv r.argv some_arg args, mode, effect) refl

dump_runner-reads :
    (r : RunnerSpec)
    → valid_runner r ≡ true
    → r.side_effect ≡ "read"
    → validate_runner (some (obj (dump_runner r))) true ≡ none
unfolding valid_runner validate_runner dump_runner get
dump_runner-reads r h e =
    let (front, back) =
      &&-true (str_eq r.mode "argv" && (filled r.argv && all nonempty r.argv)) _ h in
    let (mode, argv) = &&-true (str_eq r.mode "argv") _ front in
    let (some_arg, args) = &&-true (filled r.argv) _ argv in
    rw (dump-is_argv r.argv some_arg args, mode, e) refl

has-dump_rules : (rules : Fields) (k : String) → has (dump_rules rules) k ≡ has rules k
unfolding has
has-dump_rules end k = refl
has-dump_rules (field name rule rules) k = ap (λ b. str_eq name k || b) (has-dump_rules rules k)

extracted-all :
    (rules : Fields) (names : List String)
    → All (λ k. has rules k ≡ true) names
    → all (has (dump_rules rules)) names ≡ true
extracted-all rules [] a = refl
extracted-all rules (k ∷ ks) a = rw (has-dump_rules rules k, a.0) (extracted-all rules ks a.1)

expected-valid :
    (expected rules : Fields)
    → expected_must_be_structured expected ≡ true
    → All (λ k. has rules k ≡ true) (keys expected)
    → validate_expected (some (obj expected)) (obj (dump_rules rules)) ≡ ok none
unfolding expected_must_be_structured validate_expected
expected-valid end rules s a = cc
expected-valid (field k v fs) rules s a =
    rw (free_text (has (field k v fs) "text") _ _ s, extracted-all rules (keys (field k v fs)) a)
      refl
  where
    free_text : (a b c : Bool) → not (a || (b || c)) ≡ true → (a || (b || (c || false))) ≡ false
    free_text a b c h = ground arith

pub dump_verification-valid :
    (v : VerificationSpec) → IsProbe v → validate_verification (obj (dump_verification v)) ≡ ok none
unfolding validate_verification dump_verification get
dump_verification-valid v p =
    rw (dump_runner-reads v.runner p.runnable p.reads, or_else-obj (dump_rules v.extract))
      (expected-valid v.expected v.extract p.structured p.extracted)

dump_step-valid :
    (s : FixingPlanStep)
    → valid_step s ≡ true
    → IsProbe s.verification
    → validate_step (dump_step s) ≡ ok none
unfolding valid_step validate_step dump_step get has require_fields item
dump_step-valid s h p =
    let (front, back) = &&-true (_ && valid_runner s.runner) _ h in
    let (_, runner) = &&-true _ (valid_runner s.runner) front in
    let (texts, _) = &&-true (nonempty s.expected_outcome && _) _ back in
    let (_, on_failure) = &&-true (nonempty s.expected_outcome) _ texts in
    rw
      (
        either (str_eq s.on_failure "abort") (str_eq s.on_failure "rollback") on_failure,
        dump_runner-valid s.runner runner,
      )
      (dump_verification-valid s.verification p)
  where
    either : (a b : Bool) → (a || (b || false)) ≡ true → (a || b) ≡ true
    either a b h = ground arith

step_order :
    (s : FixingPlanStep) (ds : List Fields) (ns : List ℤ)
    → orders ds ≡ numbers ns
    → orders (dump_step s ∷ ds) ≡ numbers (s.order ∷ ns)
unfolding dump_step get
step_order s ds ns o = rw (o) refl

dump_steps-valid :
    (steps : List FixingPlanStep)
    → all valid_step steps ≡ true
    → All (λ (s : FixingPlanStep). IsProbe s.verification) steps
    → (ds : List Fields) × ((as_dicts (items (dump_steps steps)) ≡ ok ds)
        × ((orders ds ≡ numbers (map (λ (s : FixingPlanStep). s.order) steps))
            × (validate_steps ds ≡ ok none)))
unfolding as_dicts validate_steps
dump_steps-valid [] h a = ([], (refl, (refl, refl)))
dump_steps-valid (s ∷ steps) h a =
    let (first, others) = &&-true (valid_step s) (all valid_step steps) h in
    let (ds, (e, (o, v))) = dump_steps-valid steps others a.1 in
    (dump_step s ∷ ds, (rw (e) refl, (step_order s ds _ o, rw (dump_step-valid s first a.0) v)))

step_list-valid :
    (steps : List FixingPlanStep)
    → filled steps ≡ true
    → all valid_step steps ≡ true
    → All (λ (s : FixingPlanStep). IsProbe s.verification) steps
    → Increasing (map (λ (s : FixingPlanStep). s.order) steps)
    → validate_step_list (some (arr (dump_steps steps))) ≡ ok none
unfolding validate_step_list
step_list-valid [] f h a i = cc
step_list-valid (s ∷ steps) f h a i =
    let (ds, (e, (o, v))) = dump_steps-valid (s ∷ steps) h a in
    rw (e, o, misordered-Increasing _ i) v

profile-valid :
    (p : ExecutionProfile)
    → valid_profile p ≡ true
    → truthy (arr (dump_commands p.allowed_commands)) ≡ true
unfolding valid_profile
profile-valid p h =
    grants p.allowed_commands (&&-true _ _ (&&-true (_ && filled p.allowed_commands) _ h).0).1
  where
    grants :
        (cs : List CommandPermission) → filled cs ≡ true → truthy (arr (dump_commands cs)) ≡ true
    grants [] f = cc
    grants (c ∷ cs) f = refl

accepted_schema :
    (p : FixingPlan) → IsAccepted p → validate_schema (dump_plan p) (str p.schema_version) ≡ ok none
unfolding validate_schema validate_version validate_profile dump_plan dump_profile get
accepted_schema p a = rw (a.version) (rw (profile-valid p.execution_profile a.grants) refl)

accepted_self_check : (p : FixingPlan) → IsAccepted p → validate_self_check (dump_plan p) ≡ ok none
unfolding validate_self_check dump_plan dump_self_check get
accepted_self_check p a = rw (a.checked) refl

accepted_parts :
    (p : FixingPlan)
    → IsAccepted p
    → and_then (ok (require_fields "missing_" (dump_plan p) required)) (
        and_then (ok none) (
          and_then
            (validate_step_list (get (dump_plan p) "steps"))
            (do final ← item (dump_plan p) "final_verification"; validate_verification final)))
      ≡ ok none
unfolding dump_plan get require_fields has item
accepted_parts p a =
    rw (step_list-valid p.steps a.some_step a.valid_steps a.probes a.increasing)
      (dump_verification-valid p.final_verification a.final)

accepted_plan :
    (p : FixingPlan) → IsAccepted p → validate_plan (dump_plan p) (str p.schema_version) ≡ ok none
unfolding validate_plan
accepted_plan p a = rw (accepted_schema p a, accepted_self_check p a) (accepted_parts p a)

-- A plan that the analyzer's model accepts is one that the executor validates, once it is stored as
-- the JSON of the model with its own schema version.
pub fixing_plan-validate_plan :
    (plan accepted : FixingPlan)
    → fixing_plan plan ≡ ok accepted
    → validate_plan (dump_plan accepted) (str accepted.schema_version) ≡ ok none
fixing_plan-validate_plan plan accepted h =
    let (same, a) = fixing_plan-IsAccepted plan accepted h in
    accepted_plan accepted (subst IsAccepted same a)

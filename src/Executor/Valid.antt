-- ===== src/Executor/Valid.antt =====
-- `validate_runner`, `validate_verification` and the checks of one step, by what they accept.
pub mod Plan
use aads.Prelude.{
  String, ◌≡◌, ◌≢◌, ◌⊎◌, inl, inr, refl, Bool, true, false, not, ◌&&◌, ◌||◌, Option, none, some,
  List, [], ◌∷◌, map, All, arith, str_eq, str_eq_iff, any, all, Bool-cases, Option-cases, ap, ◌∙◌,
  if◌then◌else◌,
}
use aads.Python.{
  Py, ok, raise, ◌>>=◌, Json, null, bool, num, str, arr, obj, Items, nil, cons, Fields, end, field,
  get, has, keys, items, truthy?, or_else, get_or, is_str, as_dict, item, in_set,
}
use aads.Python.Laws.{>>=-returns, if-none}
use aads.Executor.Order.{misordered}
use aads.Executor.Validate.{
  Check, and_then, fail_if, is_nonempty_str, is_argv, validate_runner, validate_expected,
  validate_verification, require_fields, required, required_of_step, validate_step, validate_steps,
  as_dicts, orders, validate_step_list, validate_schema, validate_version, validate_profile,
  validate_self_check, validate_plan,
}

-- A runner spec with a non-empty argv of non-empty texts, in the mode "argv", which reads or mutates.
pub record IsRunner (runner : Option Json) : Type 0 where
  pub spec : Fields
  pub dict : runner ≡ some (obj spec)
  pub argv : is_argv (get spec "argv") ≡ true
  pub mode : get_or (get spec "mode") (str "argv") ≡ str "argv"
  pub effect :
      (get_or (get spec "side_effect") (str "read") ≡ str "read")
      ⊎ (get_or (get spec "side_effect") (str "read") ≡ str "mutate")

-- A probe that only reads, and extracts each of the fields that it expects.
pub record IsProbe (verification : Json) : Type 0 where
  pub spec : Fields
  pub dict : verification ≡ obj spec
  pub typed : get_or (get spec "type") (str "runner_probe") ≡ str "runner_probe"
  pub runner : IsRunner (get spec "runner")
  pub reads : get_or (get runner.spec "side_effect") (str "read") ≡ str "read"
  pub expected : Fields
  pub expects : get spec "expected" ≡ some (obj expected)
  pub structured : All (λ key. has expected key ≡ false) ("text" ∷ "prompt" ∷ "llm_judge" ∷ [])
  pub extract : Fields
  pub extracts : or_else (get spec "extract") (obj end) ≡ obj extract
  pub covered : All (λ key. has extract key ≡ true) (keys expected)

pub record IsStep (step : Fields) : Type 0 where
  pub complete : All (λ name. has step name ≡ true) required_of_step
  pub on_failure :
      (get step "on_failure" ≡ some (str "abort")) ⊎ (get step "on_failure" ≡ some (str "rollback"))
  pub runner : IsRunner (get step "runner")
  pub verification : Json
  pub verified_by : get step "verification" ≡ some verification
  pub probe : IsProbe verification

pub not-false : (b : Bool) → not b ≡ false → b ≡ true
not-false b h = ground arith

pub ok-inj : {a b : Option String} → ok a ≡ ok b → a ≡ b
ok-inj h = cc

pub and_then-none : (a b : Check) → and_then a b ≡ ok none → (a ≡ ok none) × (b ≡ ok none)
and_then-none (ok none) b h = (refl, h)
and_then-none (ok (some r)) b h = cc
and_then-none (raise e) b h = cc

is_str-eq : (j : Json) (s : String) → is_str j s ≡ true → j ≡ str s
is_str-eq (str t) s h = ground (arith, str_eq_iff t s)
is_str-eq null s h = cc
is_str-eq _ s h = cc

pub all-All : (p : String → Bool) (xs : List String) → all p xs ≡ true → All (λ x. p x ≡ true) xs
all-All p [] h = tt
all-All p (x ∷ xs) h = (ground arith, all-All p xs (ground arith))

pub require_fields-All :
    (prefix : String) (d : Fields) (names : List String)
    → require_fields prefix d names ≡ none
    → All (λ name. has d name ≡ true) names
unfolding require_fields
require_fields-All prefix d [] h = tt
require_fields-All prefix d (name ∷ names) h =
    (ground arith, require_fields-All prefix d names (ground arith))

validate_runner-IsRunner :
    (runner : Option Json) (read : Bool)
    → validate_runner runner read ≡ none
    → (r : IsRunner runner) × (read ≡ true
        → get_or (get r.spec "side_effect") (str "read") ≡ str "read")
unfolding validate_runner
validate_runner-IsRunner (some (obj spec)) read h =
    let mode = get_or (get spec "mode") (str "argv") in
    let effect = get_or (get spec "side_effect") (str "read") in
    (
      record {
        spec = spec;
        dict = refl;
        argv = ground arith;
        mode = is_str-eq mode "argv" (ground arith);
        effect = ground (arith, is_str-eq effect "read", is_str-eq effect "mutate");
      },
      λ e. is_str-eq effect "read" (ground arith),
    )
validate_runner-IsRunner none read h = cc
validate_runner-IsRunner (some null) read h = cc
validate_runner-IsRunner (some _) read h = cc

free_text :
    (expected : Fields)
    → any (has expected) ("text" ∷ "prompt" ∷ "llm_judge" ∷ []) ≡ false
    → All (λ key. has expected key ≡ false) ("text" ∷ "prompt" ∷ "llm_judge" ∷ [])
free_text expected h = (ground arith, (ground arith, (ground arith, tt)))

-- What `validate_expected` accepts, beside the runner.
record IsCovered (spec : Option Json) (extract : Json) : Type 0 where
  expected : Fields
  expects : spec ≡ some (obj expected)
  structured : All (λ key. has expected key ≡ false) ("text" ∷ "prompt" ∷ "llm_judge" ∷ [])
  extracted : Fields
  extracts : extract ≡ obj extracted
  covered : All (λ key. has extracted key ≡ true) (keys expected)

validate_expected-IsCovered :
    (expected : Option Json) (extract : Json)
    → validate_expected expected extract ≡ ok none
    → IsCovered expected extract
unfolding validate_expected
validate_expected-IsCovered (some (obj (field k v fs))) (obj extracted) h = record {
  expected = field k v fs;
  expects = refl;
  structured = free_text (field k v fs) (ground arith);
  extracted = extracted;
  extracts = refl;
  covered = all-All (has extracted) (keys (field k v fs)) (ground arith);
}
validate_expected-IsCovered (some (obj (field k v fs))) null h = ground arith
validate_expected-IsCovered (some (obj (field k v fs))) _ h = ground arith
validate_expected-IsCovered none extract h = cc
validate_expected-IsCovered (some null) extract h = cc
validate_expected-IsCovered (some (obj end)) extract h = cc
validate_expected-IsCovered (some _) extract h = cc

typed_tests :
    (spec : Fields)
    → validate_verification (obj spec) ≡ ok none
    → (get_or (get spec "type") (str "runner_probe") ≡ str "runner_probe")
      × (and_then
            (ok (validate_runner (get spec "runner") true))
            (validate_expected (get spec "expected") (or_else (get spec "extract") (obj end)))
          ≡ ok none)
unfolding validate_verification
typed_tests spec h =
    elim (Bool-cases (is_str (get_or (get spec "type") (str "runner_probe")) "runner_probe")) [
      | inl probe ↦ (is_str-eq _ "runner_probe" probe, rw probe at h)
      | inr other ↦ cc (rw other at h)
    ]

verification_tests :
    (spec : Fields)
    → validate_verification (obj spec) ≡ ok none
    → (validate_runner (get spec "runner") true ≡ none)
      × (validate_expected (get spec "expected") (or_else (get spec "extract") (obj end)) ≡ ok none)
unfolding validate_verification
verification_tests spec h =
    let (a, b) =
      and_then-none (ok (validate_runner (get spec "runner") true))
        (validate_expected (get spec "expected") (or_else (get spec "extract") (obj end)))
        (typed_tests spec h).1 in
    (ground arith, b)

pub validate_verification-IsProbe : (v : Json) → validate_verification v ≡ ok none → IsProbe v
unfolding validate_verification
validate_verification-IsProbe (obj spec) h =
    let tests = verification_tests spec h in
    let (r, reads) = validate_runner-IsRunner (get spec "runner") true tests.0 in
    let c =
      validate_expected-IsCovered (get spec "expected") (or_else (get spec "extract") (obj end))
        tests.1 in
    record {
      spec = spec;
      dict = refl;
      typed = (typed_tests spec h).0;
      runner = r;
      reads = reads refl;
      expected = c.expected;
      expects = c.expects;
      structured = c.structured;
      extract = c.extracted;
      extracts = c.extracts;
      covered = c.covered;
    }
validate_verification-IsProbe null h = cc
validate_verification-IsProbe _ h = cc

pub item-get : (d : Fields) (k : String) (v : Json) → item d k ≡ ok v → get d k ≡ some v
unfolding item
item-get d k v h = ground arith

one_of :
    (j : Json)
    → not (is_str j "abort" || is_str j "rollback") ≡ false
    → (j ≡ str "abort") ⊎ (j ≡ str "rollback")
one_of j h = elim (Bool-cases (is_str j "abort")) [
  | inl a ↦ inl (is_str-eq j "abort" a)
  | inr b ↦ inr (is_str-eq j "rollback" (ground arith))
]

validate_step-IsStep : (step : Fields) → validate_step step ≡ ok none → IsStep step
unfolding validate_step
validate_step-IsStep step h =
    let (complete, rest) =
      and_then-none (ok (require_fields "missing_step_" step required_of_step)) _ h in
    let (on_failure, stated, tests) = >>=-returns (item step "on_failure") _ rest in
    let (listed, checks) = if-none _ "invalid_on_failure" _ tests in
    let (ran, probed) = and_then-none (ok (validate_runner (get step "runner") false)) _ checks in
    let (v, found, valid) = >>=-returns (item step "verification") validate_verification probed in
    record {
      complete = require_fields-All "missing_step_" step required_of_step (ok-inj complete);
      on_failure = elim (one_of on_failure listed) [
        | inl a ↦ inl (item-get step "on_failure" on_failure stated ∙ ap some a)
        | inr r ↦ inr (item-get step "on_failure" on_failure stated ∙ ap some r)
      ];
      runner = (validate_runner-IsRunner (get step "runner") false (ok-inj ran)).0;
      verification = v;
      verified_by = item-get step "verification" v found;
      probe = validate_verification-IsProbe v valid;
    }

pub validate_steps-All : (steps : List Fields) → validate_steps steps ≡ ok none → All IsStep steps
unfolding validate_steps
validate_steps-All [] h = tt
validate_steps-All (step ∷ steps) h =
    let (first, rest) = and_then-none (validate_step step) (validate_steps steps) h in
    (validate_step-IsStep step first, validate_steps-All steps rest)

pub as_dicts-items :
    (xs : List Json) (ds : List Fields) → as_dicts xs ≡ ok ds → xs ≡ map (λ (d : Fields). obj d) ds
unfolding as_dicts
as_dicts-items [] ds h = cc
as_dicts-items (obj d ∷ xs) ds h =
    let (rest, e, last) = >>=-returns (as_dicts xs) _ h in cc (as_dicts-items xs rest e)
as_dicts-items (null ∷ xs) ds h = cc
as_dicts-items (_ ∷ xs) ds h = cc

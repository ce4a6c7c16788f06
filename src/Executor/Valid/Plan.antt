-- ===== src/Executor/Valid/Plan.antt =====
-- `validate_plan` of layer4-executor/src/executor.py, by what it accepts.
use aads.Prelude.{
  String, ◌≡◌, ◌⊎◌, inl, inr, refl, true, not, Option, none, some, List, [], ◌∷◌, map, All, arith,
  str_eq_iff, Option-cases, ap, ◌∙◌,
}
use aads.Python.{
  ok, Json, null, bool, num, str, arr, obj, Items, nil, cons, Fields, end, field, get, has, items,
  truthy?, or_else, get_or, as_dict, item, in_set,
}
use aads.Python.Laws.{>>=-returns, if-none}
use aads.Executor.Order.{misordered}
use aads.Executor.Order.Ascending.{Ascending, misordered-Ascending}
use aads.Executor.Validate.{
  validate_verification, require_fields, required, as_dicts, orders, validate_step_list,
  validate_schema, validate_version, validate_profile, validate_self_check, validate_plan,
}
use aads.Executor.Valid.{
  IsProbe, IsStep, not-false, ok-inj, and_then-none, require_fields-All, item-get,
  validate_verification-IsProbe, validate_steps-All, as_dicts-items,
}

-- The steps of the plan: a non-empty list of valid dicts, the order of each less than that of the
-- next.
pub record HasSteps (plan : Fields) : Type 0 where
  pub first : Json
  pub others : Items
  pub list : get plan "steps" ≡ some (arr (cons first others))
  pub steps : List Fields
  pub dicts : first ∷ items others ≡ map (λ (d : Fields). obj d) steps
  pub ordered : Ascending (orders steps)
  pub each : All IsStep steps

-- What an accepted plan is made of.
pub record IsPlan (plan : Fields) : Type 0 where
  pub version :
      (get plan "schema_version" ≡ some (str "3.0"))
      ⊎ ((get plan "schema_version" ≡ some (str "3.1"))
          × ((p : Fields) × (get plan "execution_profile" ≡ some (obj p))
              × (truthy? (get p "allowed_commands") ≡ true)))
  pub complete : All (λ name. has plan name ≡ true) required
  pub self_check : Fields
  pub self_checked : get plan "self_check" ≡ some (obj self_check)
  pub passed : truthy? (get self_check "passed") ≡ true
  pub has_steps : HasSteps plan
  pub final : Json
  pub final_found : get plan "final_verification" ≡ some final
  pub final_probe : IsProbe final

step_list-HasSteps :
    (plan : Fields) (found : Option Json)
    → get plan "steps" ≡ found
    → validate_step_list found ≡ ok none
    → HasSteps plan
unfolding validate_step_list
step_list-HasSteps plan (some (arr (cons x xs))) e h =
    let (ds, dicts, rest) = >>=-returns (as_dicts (x ∷ items xs)) _ h in
    let (b, order, tests) = >>=-returns (misordered (orders ds)) _ rest in
    let (sorted', valid) = if-none b "invalid_step_order" _ tests in
    record {
      first = x;
      others = xs;
      list = e;
      steps = ds;
      dicts = as_dicts-items (x ∷ items xs) ds dicts;
      ordered = misordered-Ascending (orders ds) (rw order (rw sorted'));
      each = validate_steps-All ds valid;
    }
step_list-HasSteps plan none e h = cc
step_list-HasSteps plan (some (arr nil)) e h = cc
step_list-HasSteps plan (some null) e h = cc
step_list-HasSteps plan (some _) e h = cc

version_of :
    (j : Json) → in_set j ("3.0" ∷ "3.1" ∷ []) ≡ ok true → (j ≡ str "3.0") ⊎ (j ≡ str "3.1")
version_of (str s) h = ground (arith, str_eq_iff s "3.0", str_eq_iff s "3.1")
version_of null h = cc
version_of _ h = cc

get_or-str :
    (plan : Fields) (k s : String) → get_or (get plan k) null ≡ str s → get plan k ≡ some (str s)
get_or-str plan k s h = elim (Option-cases (get plan k)) [
  | inl missing ↦ cc (rw missing at h)
  | inr (v, e) ↦ e ∙ ap some (rw e at h)
]

supported_version :
    (plan : Fields)
    → validate_version plan (get_or (get plan "schema_version") null) ≡ ok none
    → (get plan "schema_version" ≡ some (str "3.0"))
      ⊎ (get plan "schema_version" ≡ some (str "3.1"))
unfolding validate_version
supported_version plan h =
    let version = get_or (get plan "schema_version") null in
    let (b, e, rest) = >>=-returns (in_set version ("3.0" ∷ "3.1" ∷ [])) _ h in
    let (listed, _) = if-none (not b) "unsupported_schema" _ rest in
    elim (version_of version (e ∙ ap ok (not-false b listed))) [
      | inl v ↦ inl (get_or-str plan "schema_version" "3.0" v)
      | inr v ↦ inr (get_or-str plan "schema_version" "3.1" v)
    ]

-- The default of `x or {}` holds nothing.
dict_of :
    (o : Option Json) (p : Fields) (k : String)
    → as_dict (or_else o (obj end)) ≡ ok p
    → truthy? (get p k) ≡ true
    → o ≡ some (obj p)
unfolding get
dict_of none p k h t = ground arith
dict_of (some null) p k h t = ground arith
dict_of (some (bool b)) p k h t = ground arith
dict_of (some (num n)) p k h t = ground arith
dict_of (some (str s)) p k h t = ground arith
dict_of (some (arr nil)) p k h t = ground arith
dict_of (some (arr (cons x xs))) p k h t = ground arith
dict_of (some (obj end)) p k h t = ground arith
dict_of (some (obj (field j v fs))) p k h t = ground arith

profile_tests :
    (plan : Fields)
    → validate_version plan (str "3.1") ≡ ok none
    → (p : Fields) × (get plan "execution_profile" ≡ some (obj p))
      × (truthy? (get p "allowed_commands") ≡ true)
unfolding validate_version validate_profile
profile_tests plan h =
    let (p, e, rest) =
      >>=-returns (as_dict (or_else (get plan "execution_profile") (obj end))) _ h in
    let listed : truthy? (get p "allowed_commands") ≡ true = ground (arith, ok-inj rest) in
    (p, dict_of (get plan "execution_profile") p "allowed_commands" e listed, listed)

self_check_tests :
    (plan : Fields)
    → validate_self_check plan ≡ ok none
    → (c : Fields) × (get plan "self_check" ≡ some (obj c)) × (truthy? (get c "passed") ≡ true)
unfolding validate_self_check
self_check_tests plan h =
    let (c, e, rest) = >>=-returns (as_dict (or_else (get plan "self_check") (obj end))) _ h in
    let passed : truthy? (get c "passed") ≡ true = ground (arith, ok-inj rest) in
    (c, dict_of (get plan "self_check") c "passed" e passed, passed)

-- A plan that passes validation is a plan: its own schema version is supported, a plan of the
-- schema 3.1 has a profile with commands, the required fields are there, its self-check passed, the
-- steps are a non-empty list, each order less than the next, each step with a proper runner, its own
-- probe, and "abort" or "rollback" for a failure, and every probe, the final one too, is of the
-- supported type, runs a read-only runner and extracts each field of the structured values it expects.
pub validate_plan-IsPlan :
    (plan : Fields) (schema_version : Json)
    → validate_plan plan schema_version ≡ ok none
    → IsPlan plan
unfolding validate_plan validate_schema
validate_plan-IsPlan plan sv h =
    let (schema, r1) = and_then-none (validate_schema plan sv) _ h in
    let (fields, r2) = and_then-none (ok (require_fields "missing_" plan required)) _ r1 in
    let (checked, r3) = and_then-none (validate_self_check plan) _ r2 in
    let (list, last) = and_then-none (validate_step_list (get plan "steps")) _ r3 in
    let (stated, _, tests) = >>=-returns (in_set sv ("3.0" ∷ "3.1" ∷ [])) _ schema in
    let (_, versioned) = if-none (not stated) "unsupported_schema" _ tests in
    let (final, found, probed) =
      >>=-returns (item plan "final_verification") validate_verification last in
    let (self_check, self_checked, passed) = self_check_tests plan checked in
    record {
      version = elim (supported_version plan versioned) [
        | inl old ↦ inl old
        | inr e ↦ inr (e, profile_tests plan (rw e at versioned))
      ];
      complete = require_fields-All "missing_" plan required (ok-inj fields);
      self_check = self_check;
      self_checked = self_checked;
      passed = passed;
      has_steps = step_list-HasSteps plan (get plan "steps") refl list;
      final = final;
      final_found = item-get plan "final_verification" final found;
      final_probe = validate_verification-IsProbe final probed;
    }

-- ===== src/Executor/Observe.antt =====
-- `apply_extractors`, `_json_path_value`, `matches_expected` and `classify_step_failure` of
-- layer4-executor/src/executor.py: what a probe has shown, and what a failure leads to.
use aads.Prelude.{
  String, Bool, true, false, Option, none, some, List, [], ◌∷◌, ◌≡◌, refl, ◌↔◌, ℤ, contains, split,
  strip, if◌then◌else◌, Bool-cases, inl, inr,
}
use aads.Python.{
  Py, ok, raise, type_error, ◌>>=◌, Json, null, bool, num, str, obj, Items, nil, cons, Fields, end,
  field, get, set, has, truthy, truthy?, get_or, is_str, as_dict, py_eq,
}
use aads.Store.{StepStatus, step_failed_blocked, step_failed_aborted}
use aads.Executor.Effect.{Env}

-- a stream of the result; the agent sends texts
abbrev stream : Option Json → Py String
stream none = ok ""
stream (some (str s)) = ok s
stream (some x) = if truthy x then raise type_error else ok ""

-- the text that a rule reads, by its source
unfoldable pub source_text : Env → Fields → Json → Py String
source_text env result source =
    if is_str source "returncode"
    then (elim (get_or (get result "returncode") null) [ null ↦ ok "" | x ↦ ok (env.format x) ])
    else if is_str source "stdout"
    then stream (get result "stdout")
    else if is_str source "stderr"
    then stream (get result "stderr")
    else if is_str source "stdout_stripped"
    then (do s ← stream (get result "stdout"); ok (strip s))
    else if is_str source "stderr_stripped"
    then (do s ← stream (get result "stderr"); ok (strip s))
    else ok ""

-- the walk of `_json_path_value` along the parts of the path
walk : List String → Json → Json
walk [] x = x
walk (part ∷ parts) (obj fs) = elim (get fs part) [ none ↦ null | some x ↦ walk parts x ]
walk (part ∷ parts) _ = null

unfoldable pub json_path_value : Env → String → Json → Json
unfolding walk
json_path_value env text path = elim (env.json_loads text) [
  | none ↦ null
  | some x ↦ walk (split b'.' (env.format path)) x
]

abbrev given : Option Json → Bool
given none = false
given (some null) = false
given (some _) = true

as_text : Json → Py String
as_text (str s) = ok s
as_text _ = raise type_error

abbrev int_or_null : Option ℤ → Json
int_or_null none = null
int_or_null (some n) = num n

-- the value that one rule observes
unfoldable pub extract_value : Env → Fields → Fields → Py Json
unfolding as_text
extract_value env result rule = do
  let source = get_or (get rule "from") (get_or (get rule "from_") null)
  text ← source_text env result source
  if given (get rule "equals")
      then ok (bool (is_str (get_or (get rule "equals") null) text))
      else if given (get rule "contains")
      then (do part ← as_text (get_or (get rule "contains") null); ok (bool (contains part text)))
      else if given (get rule "regex")
      then (do
        pattern ← as_text (get_or (get rule "regex") null)
        found ← env.regex_search pattern text
        ok (bool found))
      else if truthy? (get rule "as_int")
      then ok (int_or_null (env.parse_int (strip text)))
      else if truthy? (get rule "json_path")
      then ok (json_path_value env text (get_or (get rule "json_path") null))
      else if is_str source "returncode"
      then ok (get_or (get result "returncode") null)
      else ok (str text)

unfoldable pub apply_extractors : Env → Fields → Fields → Fields → Py Fields
apply_extractors env result end observed = ok observed
apply_extractors env result (field key rule rules) observed = do
  r ← as_dict rule
  value ← extract_value env result r
  apply_extractors env result rules (set observed key value)

-- `{"field": key, "expected": …, "observed": …}`
mismatch : String → Json → Json → Json
mismatch key expected observed =
    obj (field "field" (str key) (field "expected" expected (field "observed" observed end)))

unfoldable pub mismatches : Fields → Fields → Items
unfolding mismatch
mismatches observed end = nil
mismatches observed (field key expected rest) =
    let value = get_or (get observed key) null in
    let others = mismatches observed rest in
    if py_eq value expected then others else cons (mismatch key expected value) others

unfoldable pub matches_expected : Fields → Fields → Bool
matches_expected observed expected = elim (mismatches observed expected) [
  | nil ↦ true
  | cons _ _ ↦ false
]

-- `_, drift_type`: what a failed step leads to
pub data Action : Type 0 where
  terminal_blocked terminal_failed : Action
  pause : (drift_type : String) → Action

unfoldable pub classify_step_failure : StepStatus → Fields → Action
classify_step_failure step_failed_blocked result =
    if is_str (get_or (get result "reason") null) "hook_denied"
    then pause "policy_violation"
    else terminal_blocked
classify_step_failure step_failed_aborted result =
    if has result "verification"
    then pause "verification_failed"
    else pause "step_retries_exhausted"
classify_step_failure _ result = terminal_failed

-- The dict has the value under the key.
pub data Holds (key : String) (value : Json) : Fields → Type 0 where
  first :
      {k : String} {v : Json} {fs : Fields} → key ≡ k → value ≡ v → Holds key value (field k v fs)
  later :
      {k : String} {v : Json} {fs : Fields} → Holds key value fs → Holds key value (field k v fs)

-- What was observed of a key; a key that was not observed is `None`.
abbrev pub observation : Fields → String → Json
observation observed key = get_or (get observed key) null

-- For each of the expected fields, what was observed equals the expected value.
abbrev pub AllMatch : Fields → Fields → Type 0
AllMatch observed expected =
    (key : String) (value : Json)
    → Holds key value expected
    → py_eq (observation observed key) value ≡ true

first_match :
    (observed : Fields) (key : String) (e : Json) (rest : Fields)
    → mismatches observed (field key e rest) ≡ nil
    → (py_eq (observation observed key) e ≡ true) × (mismatches observed rest ≡ nil)
unfolding mismatches
first_match observed key e rest h = elim (Bool-cases (py_eq (observation observed key) e)) [
  | inl same ↦ (same, rw (same, mismatches) at h)
  | inr differ ↦ cc (rw (differ, mismatches) at h)
]

mismatches-AllMatch :
    (observed expected : Fields) → mismatches observed expected ≡ nil → AllMatch observed expected
mismatches-AllMatch observed end h key value m = elim m [ ]
mismatches-AllMatch observed (field k v rest) h key value (first p q) =
    rw (p, q) (first_match observed k v rest h).0
mismatches-AllMatch observed (field k v rest) h key value (later m) =
    mismatches-AllMatch observed rest (first_match observed k v rest h).1 key value m

AllMatch-mismatches :
    (observed expected : Fields) → AllMatch observed expected → mismatches observed expected ≡ nil
unfolding mismatches
AllMatch-mismatches observed end h = refl
AllMatch-mismatches observed (field k v rest) h =
    rw (h k v (first refl refl))
      (AllMatch-mismatches observed rest (λ key value m. h key value (later m)))

matches-nil :
    (xs : Items) → ◌≡◌ {A = Bool} (elim xs [ nil ↦ true | cons _ _ ↦ false ]) true → xs ≡ nil
matches-nil nil h = refl
matches-nil (cons _ _) h = cc

-- A probe matches exactly if, for each expected field, what was observed equals the expected value;
-- a field that was not observed counts as `None`.
pub matches_expected_iff :
    (observed expected : Fields)
    → (matches_expected observed expected ≡ true) ↔ AllMatch observed expected
unfolding matches_expected
matches_expected_iff observed expected = (
  λ h. mismatches-AllMatch observed expected (matches-nil _ h),
  λ a. rw (AllMatch-mismatches observed expected a, matches_expected),
)

-- ===== src/Guard/Taint.antt =====
-- layer2-analyzer/src/log_guard.py: what the registry holds after the tool outputs of an investigation.
use aads.Prelude.{
  ℕ, String, Bool, true, false, not, ◌&&◌, ◌||◌, Option, none, some, List, [], ◌∷◌, ◌++◌, map, any,
  str_eq, ◌≡◌, ◌↔◌, refl, sym, ◌∙◌, ap, In, any-In, In-any, inl, inr, Bool-cases,
}
use Prim.Native.Char.{Char}
use native.Mathlib.Omega.{arith}
use aads.Python.{Fields, set, str}
use aads.Guard.{
  Pattern, patterns, hits, with_hit, scan, Registry, start_investigation, record_findings, collect,
  bucket_of, guard_tool_output,
}

abbrev pub is_filled {ℓ} : {A : Type ℓ} → List A → Bool
is_filled [] = false
is_filled (_ ∷ _) = true

abbrev pub is_some {ℓ} : {A : Type ℓ} → Option A → Bool
is_some none = false
is_some (some _) = true

with_hit-filled :
    (p : Pattern) (text : String) (o : Option ℕ) (rest : List Fields)
    → is_filled (with_hit p text o rest) ≡ is_some o || is_filled rest
unfolding with_hit
with_hit-filled p text none rest = refl
with_hit-filled p text (some at) rest = refl

or_false : (b : Bool) → b || false ≡ b
or_false b = ground arith

or_assoc : (a b c : Bool) → (a || b) || c ≡ a || (b || c)
or_assoc a b c = ground arith

both : (a b : Bool) → not a && b ≡ true → (a ≡ false) × (b ≡ true)
both a b h = ground arith

filled-append {ℓ} :
    {A : Type ℓ} (xs ys : List A) → is_filled (xs ++ ys) ≡ is_filled xs || is_filled ys
filled-append [] ys = refl
filled-append (x ∷ xs) ys = refl

filled-map {ℓ} : {A B : Type ℓ} (f : A → B) (xs : List A) → is_filled (map f xs) ≡ is_filled xs
filled-map f [] = refl
filled-map f (x ∷ xs) = refl

module _ (search : String → String → Option ℕ) (sub_ansi : String → String)
    (is_control : Char → Bool) where
  -- the pattern is found in the text
  abbrev pub found : String → Pattern → Bool
  found text p = is_some (search p.regex text)

  hits-filled :
      (text : String) (ps : List Pattern) → is_filled (hits search text ps) ≡ any (found text) ps
  unfolding hits
  hits-filled text [] = refl
  hits-filled text (p ∷ ps) =
      with_hit-filled p text (search p.regex text) (hits search text ps)
      ∙ ap (λ b. found text p || b) (hits-filled text ps)

  -- the guard finds something in the output of a tool: its text is not empty, and a pattern is found
  abbrev pub is_suspicious : String × String → Bool
  is_suspicious output = not (str_eq output.0 "") && any (found output.0) patterns

  scan-filled : (output : String × String) → is_filled (scan search output.0) ≡ is_suspicious output
  unfolding scan
  scan-filled output = elim (Bool-cases (str_eq output.0 "")) [
    | inl t ↦ rw (t) refl
    | inr f ↦ rw (f) (hits-filled output.0 patterns)
  ]

  record-filled :
      (fs : List Fields) (source : String) (registry : Registry)
      → is_filled (collect (record_findings fs source registry))
        ≡ is_filled (collect registry) || is_filled fs
  unfolding record_findings collect
  record-filled [] source registry = sym (or_false (is_filled (bucket_of registry)))
  record-filled (f ∷ fs) source registry =
      filled-append (bucket_of registry)
        (set f "source" (str source) ∷ map (λ g. set g "source" (str source)) fs)

  -- the registry after the outputs are guarded, in their order
  abbrev pub after_outputs : List (String × String) → Registry → Registry
  after_outputs [] registry = registry
  after_outputs (output ∷ outputs) registry =
      after_outputs outputs
        (guard_tool_output search sub_ansi is_control output.0 output.1 registry).1

  after-filled :
      (outputs : List (String × String)) (registry : Registry)
      → is_filled (collect (after_outputs outputs registry))
        ≡ is_filled (collect registry) || any is_suspicious outputs
  unfolding guard_tool_output
  after-filled [] registry = sym (or_false (is_filled (collect registry)))
  after-filled (output ∷ outputs) registry =
      after-filled outputs (record_findings (scan search output.0) output.1 registry)
      ∙ (ap (λ b. b || any is_suspicious outputs)
            (record-filled (scan search output.0) output.1 registry
              ∙ ap (λ b. is_filled (collect registry) || b) (scan-filled output))
          ∙ or_assoc (is_filled (collect registry)) (is_suspicious output)
              (any is_suspicious outputs))

-- After an investigation has started, the guard has findings exactly if the output of some tool was
-- not empty and some pattern was found in it, whatever was recorded before.
pub guard_tool_output-collect_iff :
    (search : String → String → Option ℕ) (sub_ansi : String → String) (is_control : Char → Bool)
    (outputs : List (String × String)) (before : Registry)
    → (is_filled
          (collect (after_outputs search sub_ansi is_control outputs (start_investigation before)))
        ≡ true)
      ↔ ((output : String × String) × In output outputs
          × ((str_eq output.0 "" ≡ false)
              × ((p : Pattern) × In p patterns × (is_some (search p.regex output.0) ≡ true))))
unfolding start_investigation collect
guard_tool_output-collect_iff search sub_ansi is_control outputs before =
    let e = after-filled search sub_ansi is_control outputs (some []) in
    (
      λ h.
          let (output, m, bad) =
            any-In (is_suspicious search sub_ansi is_control) outputs (sym e ∙ h) in
          let (filled, match) =
            both (str_eq output.0 "") (any (found search sub_ansi is_control output.0) patterns)
              bad in
          (output, m, (filled, any-In (found search sub_ansi is_control output.0) patterns match)),
      λ (output, m, (filled, (p, listed, match))).
          e
          ∙ In-any (is_suspicious search sub_ansi is_control) outputs m (
              rw (filled, In-any (found search sub_ansi is_control output.0) patterns listed match)
                refl),
    )

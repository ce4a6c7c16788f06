-- ===== src/Catalog/Sound.antt =====
-- layer2-analyzer/src/runner_catalog.py, by what the executor uses of it.
use mathlib.Core.Path.{subst}
use aads.Prelude.{
  ◌≡◌, refl, all, &&-true, str_eq_iff, inl, inr, String, Bool, true, false, Option, none, some,
  List, [], ◌∷◌, All, Bool-cases, if◌then◌else◌, ◌&&◌, str_eq,
}
use aads.Python.{Py, ok, raise, obj, has, keys, get}
use aads.Executor.Effect.{Env}
use aads.Executor.Valid.{all-All}
use aads.Executor.Runner.{max_attempts, to_int}
use aads.Catalog.{
  Key, VerificationSpec, lookup, probes, mutations, verify_probes, probe_or_default,
  verification_from_probe, verification_for, idempotency_for, idempotent?,
}

some-eq : {V : Type 0} (a b : V) → some a ≡ some b → a ≡ b
some-eq a b h = cc

lookup-all :
    {V : Type 0} (p : V → Bool) (key : Key) (table : List (Key × V)) (v : V)
    → all (λ entry. p entry.1) table ≡ true
    → lookup key table ≡ some v
    → p v ≡ true
unfolding lookup
lookup-all p key [] v a h = cc
lookup-all p key ((known, value) ∷ table) v a h =
    let (first, others) = &&-true (p value) (all (λ entry. p entry.1) table) a in
    elim (Bool-cases (str_eq known.0 key.0 && str_eq known.1 key.1)) [
      | inl t ↦ subst (λ x. p x ≡ true) (some-eq value v (rw (t, lookup) at h)) first
      | inr f ↦ lookup-all p key table v others (rw (f, lookup) at h)
    ]

-- A verification that exists: its runner only reads, and it extracts every field that it expects.
abbrev pub IsCheck : Py VerificationSpec → Type 0
IsCheck r =
    (v : VerificationSpec) × ((r ≡ ok v)
      × ((v.runner.side_effect ≡ "read") × All (λ k. has v.extract k ≡ true) (keys v.expected)))

is_check : Py VerificationSpec → Bool
is_check (ok v) = str_eq v.runner.side_effect "read" && all (has v.extract) (keys v.expected)
is_check (raise e) = false

is_check-IsCheck : (r : Py VerificationSpec) → is_check r ≡ true → IsCheck r
unfolding is_check
is_check-IsCheck (ok v) h =
    let (reads, extracts) =
      &&-true (str_eq v.runner.side_effect "read") (all (has v.extract) (keys v.expected)) h in
    (
      v,
      (
        refl,
        (
          (str_eq_iff v.runner.side_effect "read").0 reads,
          all-All (has v.extract) (keys v.expected) extracts,
        ),
      ),
    )
is_check-IsCheck (raise e) h = cc

known_checks :
    all (λ (entry : Key × Key). is_check (verification_from_probe entry.1)) verify_probes ≡ true
unfolding is_check verify_probes verification_from_probe lookup probes has
known_checks = refl

default_checks : is_check (verification_from_probe ("nginx", "config_test")) ≡ true
unfolding is_check verification_from_probe lookup probes has
default_checks = refl

found_checks :
    (o : Option Key) (service operation : String)
    → lookup (service, operation) verify_probes ≡ o
    → is_check (verification_from_probe (probe_or_default o)) ≡ true
found_checks none service operation e = default_checks
found_checks (some key) service operation e =
    lookup-all (λ k. is_check (verification_from_probe k)) (service, operation) verify_probes key
      known_checks e

-- Every operation has a verification, also one that the catalog does not know; it runs a read-only
-- probe and extracts every field that it expects.
pub verification_for-IsCheck :
    (service operation : String) → IsCheck (verification_for service operation)
unfolding verification_for
verification_for-IsCheck service operation =
    is_check-IsCheck _
      (found_checks (lookup (service, operation) verify_probes) service operation refl)

-- The executor gives a command of the catalog two attempts if its operation is idempotent, and one
-- if it is not.
pub max_attempts-idempotency_for :
    (env : Env) (service operation : String)
    → max_attempts env (obj (idempotency_for service operation))
      ≡ ok (if idempotent? (lookup (service, operation) mutations) then 2 else 1)
unfolding max_attempts idempotency_for to_int get
max_attempts-idempotency_for env service operation =
    elim (Bool-cases (idempotent? (lookup (service, operation) mutations))) [
      | inl t ↦ rw (t) refl
      | inr f ↦ rw (f) refl
    ]

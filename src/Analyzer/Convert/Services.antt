-- ===== src/Analyzer/Convert/Services.antt =====
-- The services that `_to_fixing_plan` of layer2-analyzer/src/main.py repairs: their final check,
-- snapshot and rollback in layer2-analyzer/src/runner_catalog.py.
use mathlib.Core.Path.{subst}
use aads.Prelude.{
  ◌≡◌, refl, sym, ap, inl, inr, arith, String, Bool, true, false, ◌&&◌, ◌||◌, &&-true, Option, some,
  List, [], ◌∷◌, all, str_eq, str_eq_iff, str_eq_refl, str_mem, Bool-cases, Option-cases,
}
use aads.Python.{Py, ok, raise}
use aads.Python.Laws.{>>=-returns}
use aads.Policy.{RunnerSpec}
use aads.Catalog.{
  Key, VerificationSpec, lookup, probes, mutations, runner_for, verification_from_probe,
  final_probe, first_named, snapshot_for, rollback_for, by_priority,
}
use aads.Catalog.Known.{IsKnown}
use aads.Schema.{scopes}
use aads.Analyzer.Convert.Tables.{is_check, on_ok, mutates, mutates?, service_test, services_pass}

pub mem-all :
    (p : String → Bool) (name : String) (names : List String)
    → all p names ≡ true
    → str_mem name names ≡ true
    → p name ≡ true
mem-all p name [] h m = cc
mem-all p name (n ∷ ns) h m =
    let (first, others) = &&-true (p n) (all p ns) h in
    elim (Bool-cases (str_eq name n)) [
      | inl t ↦ subst (λ x. p x ≡ true) (sym ((str_eq_iff name n).0 t)) first
      | inr f ↦ mem-all p name ns others (rw (f, ◌||◌) at m)
    ]

probe_runner : Py VerificationSpec → Py RunnerSpec
probe_runner (ok v) = ok v.runner
probe_runner (raise e) = raise e

-- The runner of a probe's check is the catalog's runner for the probe.
pub verification_from_probe-IsKnown :
    (key : Key) (v : VerificationSpec) → verification_from_probe key ≡ ok v → IsKnown v.runner
unfolding verification_from_probe runner_for probe_runner
verification_from_probe-IsKnown key v h = elim (Option-cases (lookup key probes)) [
  | inl e ↦ cc (rw (e, verification_from_probe) at h)
  | inr (p, e) ↦ (key, rw (e, runner_for) (ap probe_runner (rw (e, verification_from_probe) at h)))
]

-- A service of the catalog has a final check, a snapshot and, if any, a rollback that mutate.
pub record ServiceFacts (name : String) : Type 0 where
  pub final : VerificationSpec
  pub finds : verification_from_probe (final_probe name) ≡ ok final
  pub check : is_check name final ≡ true
  pub snapshot : RunnerSpec × String
  pub takes : snapshot_for name ≡ ok snapshot
  pub snapshot_mutates : mutates name snapshot.0 ≡ true
  pub scope : str_mem snapshot.1 scopes ≡ true
  pub rollback : Option RunnerSpec
  pub restores : rollback_for name ≡ ok rollback
  pub rollback_mutates : mutates? name rollback ≡ true

on_ok-ok :
    {A : Type 0} (p : A → Bool) (o : Py A)
    → on_ok p o ≡ true
    → (a : A) × ((o ≡ ok a) × (p a ≡ true))
on_ok-ok p (ok a) h = (a, (refl, h))
on_ok-ok p (raise e) h = cc

pub service_facts : (name : String) → str_mem name by_priority ≡ true → ServiceFacts name
unfolding service_test
service_facts name m =
    let test = mem-all service_test name by_priority services_pass m in
    let (final, others) =
      &&-true (on_ok (is_check name) (verification_from_probe (final_probe name))) _ test in
    let (snapshot, rollback) =
      &&-true
        (on_ok (λ (s : RunnerSpec × String). mutates name s.0 && str_mem s.1 scopes)
          (snapshot_for name))
        _ others in
    let (v, (e, c)) = on_ok-ok (is_check name) (verification_from_probe (final_probe name)) final in
    let (s, (f, d)) = on_ok-ok _ (snapshot_for name) snapshot in
    let (r, (g, k)) = on_ok-ok (mutates? name) (rollback_for name) rollback in
    record {
      final = v;
      finds = e;
      check = c;
      snapshot = s;
      takes = f;
      snapshot_mutates = (&&-true (mutates name s.0) _ d).0;
      scope = (&&-true (mutates name s.0) _ d).1;
      rollback = r;
      restores = g;
      rollback_mutates = k;
    }

pub snapshot_for-IsKnown :
    (name : String) (s : RunnerSpec × String) → snapshot_for name ≡ ok s → IsKnown s.0
unfolding snapshot_for
snapshot_for-IsKnown name s h =
    let (r, e, rest) = >>=-returns (runner_for name "ensure_snapshot") _ h in
    let same : r ≡ s.0 = ap first_of rest in ((name, "ensure_snapshot"), rw (← same) e)
  where
    first_of : Py (RunnerSpec × String) → RunnerSpec
    first_of (ok p) = p.0
    first_of (raise e) = s.0

pub rollback_for-IsKnown :
    (name : String) (r : RunnerSpec) → rollback_for name ≡ ok (some r) → IsKnown r
unfolding rollback_for
rollback_for-IsKnown name r h = elim (Option-cases (lookup (name, "restore_config") mutations)) [
  | inl e ↦ cc (rw (e, rollback_for) at h)
  | inr (m, e) ↦
      let (s, f, rest) =
        >>=-returns (runner_for name "restore_config") _ (rw (e, rollback_for) at h) in
      let same : s ≡ r = cc in ((name, "restore_config"), rw (← same) f)
]

later_mem : (n x : String) (xs : List String) → str_mem n xs ≡ true → str_mem n (x ∷ xs) ≡ true
later_mem n x xs h = ground arith

picked :
    (x : String) (xs services : List String) (default : String)
    → str_mem x services ≡ true
    → first_named (x ∷ xs) services default ≡ x
unfolding first_named
picked x xs services default t = rw (t) refl

skipped :
    (x : String) (xs services : List String) (default : String)
    → str_mem x services ≡ false
    → first_named (x ∷ xs) services default ≡ first_named xs services default
unfolding first_named
skipped x xs services default f = rw (f) refl

differs :
    (name x : String) (services : List String)
    → str_mem x services ≡ false
    → str_mem name services ≡ true
    → str_eq name x ≡ false
differs name x services f n = elim (Bool-cases (str_eq name x)) [
  | inl t ↦ cc (f, n, (str_eq_iff name x).0 t)
  | inr g ↦ g
]

-- The service that a preference list picks is one of those that are repaired.
pub first_named-mem :
    (names services : List String) (default name : String)
    → str_mem name names ≡ true
    → str_mem name services ≡ true
    → (str_mem (first_named names services default) services ≡ true)
      × (str_mem (first_named names services default) names ≡ true)
first_named-mem [] services default name m n = cc
first_named-mem (x ∷ xs) services default name m n = elim (Bool-cases (str_mem x services)) [
  | inl t ↦
      subst (λ n. (str_mem n services ≡ true) × (str_mem n (x ∷ xs) ≡ true))
        (sym (picked x xs services default t)) (t, rw (str_eq_refl x) refl)
  | inr f ↦
      let off : str_eq name x ≡ false = differs name x services f n in
      let (a, b) = first_named-mem xs services default name (rw (off, ◌||◌) at m) n in
      subst (λ n. (str_mem n services ≡ true) × (str_mem n (x ∷ xs) ≡ true))
        (sym (skipped x xs services default f)) (a, later_mem _ x xs b)
]

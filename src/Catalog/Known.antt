-- ===== src/Catalog/Known.antt =====
-- layer2-analyzer/src/runner_catalog.py: the runners of all keys of its tables.
use aads.Prelude.{
  ◌≡◌, refl, inl, inr, arith, Bool, true, not, ◌&&◌, ◌||◌, &&-true, Option, none, some, List, [],
  ◌∷◌, ◌++◌, In, In-append_left, In-append_right, all-In, here, there, all, str_eq, str_eq_iff,
  strs_eq, strs_eq_iff, bool_eq, bool_eq_iff, Bool-cases, Option-cases,
}
use aads.Python.{Py, ok, raise}
use aads.Policy.{RunnerSpec}
use aads.Catalog.{Key, Mutation, lookup, probes, mutations, mutation_runner, runner_for}

abbrev keys_of {ℓ} : {V : Type ℓ} → List (Key × V) → List Key
keys_of [] = []
keys_of (e ∷ es) = e.0 ∷ keys_of es

unfoldable pub known_keys : List Key
unfolding probes mutations
known_keys = keys_of probes ++ keys_of mutations

lookup-In :
    {V : Type 0} (key : Key) (table : List (Key × V)) (v : V)
    → lookup key table ≡ some v
    → In key (keys_of table)
unfolding lookup
lookup-In key [] v h = cc
lookup-In key ((known, value) ∷ table) v h =
    elim (Bool-cases (str_eq known.0 key.0 && str_eq known.1 key.1)) [
      | inl t ↦
          let (a, b) = &&-true (str_eq known.0 key.0) (str_eq known.1 key.1) t in
          here (pair_eq key known ((str_eq_iff known.0 key.0).0 a) ((str_eq_iff known.1 key.1).0 b))
      | inr f ↦ there (lookup-In key table v (rw (f, lookup) at h))
    ]
  where
    pair_eq : (k l : Key) → l.0 ≡ k.0 → l.1 ≡ k.1 → k ≡ l
    pair_eq k l a b = cc

mutation_runner-In :
    (key : Key) (o : Option Mutation) (r : RunnerSpec)
    → lookup key mutations ≡ o
    → mutation_runner o ≡ ok r
    → In key known_keys
unfolding mutation_runner known_keys
mutation_runner-In key none r e h = cc
mutation_runner-In key (some m) r e h =
    In-append_right (keys_of probes) (keys_of mutations) (lookup-In key mutations m e)

-- A key for which the catalog has a runner is one of its tables.
pub runner_for-In : (key : Key) (r : RunnerSpec) → runner_for key.0 key.1 ≡ ok r → In key known_keys
unfolding runner_for known_keys
runner_for-In key r h = elim (Option-cases (lookup key probes)) [
  | inr (p, e) ↦ In-append_left (keys_of probes) (keys_of mutations) (lookup-In key probes p e)
  | inl e ↦ mutation_runner-In key (lookup key mutations) r refl (rw (e, runner_for) at h)
]

-- a test on the runner of a key; a key without one passes
abbrev pub on_runner : (RunnerSpec → Bool) → Py RunnerSpec → Bool
on_runner p (ok r) = p r
on_runner p (raise e) = true

abbrev agreeing : RunnerSpec → RunnerSpec → Bool
agreeing r s =
    not (strs_eq r.argv s.argv)
    || (bool_eq r.as_root s.as_root && str_eq r.side_effect s.side_effect)

agree_on : Key → Key → Bool
agree_on k l = on_runner (λ r. on_runner (agreeing r) (runner_for l.0 l.1)) (runner_for k.0 k.1)

keys_agree : all (λ k. all (agree_on k) known_keys) known_keys ≡ true
unfolding agree_on known_keys runner_for lookup probes mutations mutation_runner
keys_agree = refl

-- The catalog has the runner, for some key.
abbrev pub IsKnown : RunnerSpec → Type 0
IsKnown r = (key : Key) × (runner_for key.0 key.1 ≡ ok r)

agreeing-agree :
    (r s : RunnerSpec)
    → agreeing r s ≡ true
    → r.argv ≡ s.argv
    → (r.as_root ≡ s.as_root) × (r.side_effect ≡ s.side_effect)
agreeing-agree r s h e =
    let same = (strs_eq_iff r.argv s.argv).1 e in
    let (root, effect) =
      &&-true (bool_eq r.as_root s.as_root) (str_eq r.side_effect s.side_effect) (ground arith) in
    ((bool_eq_iff _ _).0 root, (str_eq_iff _ _).0 effect)

-- Two runners of the catalog with one argv agree on privilege and side effect.
pub IsKnown-Agree :
    (r s : RunnerSpec)
    → IsKnown r
    → IsKnown s
    → r.argv ≡ s.argv
    → (r.as_root ≡ s.as_root) × (r.side_effect ≡ s.side_effect)
unfolding agree_on
IsKnown-Agree r s (k, e) (l, f) =
    let row = all-In _ known_keys k keys_agree (runner_for-In k r e) in
    let cell = all-In (agree_on k) known_keys l row (runner_for-In l s f) in
    agreeing-agree r s (rw (e, f, agree_on) at cell)

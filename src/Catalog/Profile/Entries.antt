-- ===== src/Catalog/Profile/Entries.antt =====
-- `execution_profile_for` of layer2-analyzer/src/runner_catalog.py: the entries of the dict of commands.
use aads.Prelude.{
  ◌≡◌, refl, sym, ◌∙◌, arith, String, true, ◌&&◌, &&-true, &&-intro, Option, none, some, List, ℤ,
  pos, ◌≤ℤ◌, max_ℤ, In, str_eq, strs_eq, bool_eq, str_eq_iff, strs_eq_iff, bool_eq_iff, find_same,
}
use aads.Policy.{RunnerSpec, CommandPermission}
use aads.Catalog.Profile.{same_key, grant, merged_timeout}

-- Two permissions stand under one key.
pub record SameKey (p q : CommandPermission) : Type 0 where
  pub program : p.argv0 ≡ q.argv0
  pub prefix : p.argv_prefix ≡ q.argv_prefix
  pub root : p.as_root ≡ q.as_root
  pub effect : p.side_effect ≡ q.side_effect

pub same_key-SameKey : (p q : CommandPermission) → same_key p q ≡ true → SameKey p q
unfolding same_key
same_key-SameKey p q h =
    let (argv, others) =
      &&-true (str_eq p.argv0 q.argv0 && strs_eq p.argv_prefix q.argv_prefix) _ h in
    let (program, prefix) = &&-true (str_eq p.argv0 q.argv0) _ argv in
    let (root, effect) = &&-true (bool_eq p.as_root q.as_root) _ others in
    record {
      program = (str_eq_iff _ _).0 program;
      prefix = (strs_eq_iff _ _).0 prefix;
      root = (bool_eq_iff _ _).0 root;
      effect = (str_eq_iff _ _).0 effect;
    }

pub SameKey-same_key : (p q : CommandPermission) → SameKey p q → same_key p q ≡ true
unfolding same_key
SameKey-same_key p q s =
    &&-intro _ _ (&&-intro _ _ ((str_eq_iff _ _).1 s.program) ((strs_eq_iff _ _).1 s.prefix))
      (&&-intro _ _ ((bool_eq_iff _ _).1 s.root) ((str_eq_iff _ _).1 s.effect))

-- Two entries with the key of a third have the same key.
pub same_key_join :
    (p q r : CommandPermission) → same_key p r ≡ true → same_key q r ≡ true → same_key p q ≡ true
same_key_join p q r h k =
    let s = same_key-SameKey p r h in
    let t = same_key-SameKey q r k in
    SameKey-same_key p q (record {
      program = s.program ∙ sym t.program;
      prefix = s.prefix ∙ sym t.prefix;
      root = s.root ∙ sym t.root;
      effect = s.effect ∙ sym t.effect;
    })

pub same_key_trans :
    (p q r : CommandPermission) → same_key p q ≡ true → same_key q r ≡ true → same_key p r ≡ true
same_key_trans p q r h k =
    let s = same_key-SameKey p q h in
    let t = same_key-SameKey q r k in
    SameKey-same_key p r (record {
      program = s.program ∙ t.program;
      prefix = s.prefix ∙ t.prefix;
      root = s.root ∙ t.root;
      effect = s.effect ∙ t.effect;
    })

same_key_refl : (p : CommandPermission) → same_key p p ≡ true
same_key_refl p =
    SameKey-same_key p p (record { program = refl; prefix = refl; root = refl; effect = refl })

pub same_key_sym : (p q : CommandPermission) → same_key p q ≡ true → same_key q p ≡ true
same_key_sym p q h = same_key_join q p q (same_key_refl q) h

-- the entry of a runner, whatever its time limit
abbrev pub entry_of : RunnerSpec → String → List String → CommandPermission
entry_of runner argv0 prefix = grant runner argv0 prefix (pos 0)

le_max_left : (a b : ℤ) → a ≤ℤ max_ℤ a b
le_max_left a b = ground arith

pub merged-own : (t : ℤ) (o : Option CommandPermission) → t ≤ℤ merged_timeout t o
merged-own t none = le_max_left t (pos 0)
merged-own t (some c) = le_max_left t c.max_timeout_seconds

pub merged-known :
    (t : ℤ) (c : CommandPermission) → c.max_timeout_seconds ≤ℤ merged_timeout t (some c)
merged-known t c = ground arith

-- The runner has an entry, and no entry under its key has a shorter time limit.
pub record Granted (runner : RunnerSpec) (argv0 : String) (prefix : List String)
    (commands : List CommandPermission) : Type 0 where
  pub entry : CommandPermission
  pub stands : In entry commands
  pub key : same_key (entry_of runner argv0 prefix) entry ≡ true
  pub enough :
      (c : CommandPermission)
      → In c commands
      → same_key (entry_of runner argv0 prefix) c ≡ true
      → runner.timeout_seconds ≤ℤ c.max_timeout_seconds

-- the entry that a round writes
abbrev pub written : List CommandPermission → RunnerSpec → String → List String → CommandPermission
written commands r argv0 prefix =
    grant r argv0 prefix
      (merged_timeout r.timeout_seconds (find_same same_key (entry_of r argv0 prefix) commands))

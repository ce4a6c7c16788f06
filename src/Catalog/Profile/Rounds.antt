-- ===== src/Catalog/Profile/Rounds.antt =====
-- `execution_profile_for` of layer2-analyzer/src/runner_catalog.py: the loop over the runners.
use mathlib.Core.Path.{subst}
use aads.Prelude.{
  ◌≡◌, refl, sym, ap, ◌∙◌, inl, inr, arith, String, true, false, Option, List, [], ◌∷◌, ℤ, ◌≤ℤ◌, In,
  here, there, Bool-cases, find_same, put_same, find_same-In, In-find_same, In-put_new,
  In-put_other, After, put_same-After,
}
use aads.Python.{ok}
use aads.Python.Laws.{>>=-returns}
use aads.Policy.{RunnerSpec, CommandPermission}
use aads.Catalog.Profile.{
  command_permission, same_key, grant, merged_timeout, grant_command, grant_commands,
}
use aads.Catalog.Profile.Entries.{
  SameKey-same_key, same_key_join, same_key_trans, same_key_sym, entry_of, written, merged-own,
  merged-known, Granted,
}

permission-same : (p c : CommandPermission) → command_permission p ≡ ok c → p ≡ c
unfolding command_permission
permission-same p c h = ground arith

-- A round that returned has written its entry.
grant_command-puts :
    (commands updated : List CommandPermission) (r : RunnerSpec) (argv0 : String)
    (prefix : List String)
    → grant_command commands r (argv0 ∷ prefix) ≡ ok updated
    → put_same same_key (written commands r argv0 prefix) commands ≡ updated
unfolding grant_command
grant_command-puts commands updated r argv0 prefix h =
    let (c, e, rest) = >>=-returns (command_permission (written commands r argv0 prefix)) _ h in
    let same = permission-same _ c e in rw (same) (cc (rest))

same_key_timeout :
    (r : RunnerSpec) (argv0 : String) (prefix : List String) (t : ℤ) (c : CommandPermission)
    → same_key (grant r argv0 prefix t) c ≡ same_key (entry_of r argv0 prefix) c
unfolding same_key
same_key_timeout r argv0 prefix t c = refl

key_timeout :
    (p : CommandPermission) (r : RunnerSpec) (argv0 : String) (prefix : List String) (t : ℤ)
    → same_key p (grant r argv0 prefix t) ≡ true
    → same_key p (entry_of r argv0 prefix) ≡ true
unfolding same_key
key_timeout p r argv0 prefix t h = h

pub timeout_up : (a b c : ℤ) → a ≤ℤ b → b ≤ℤ c → a ≤ℤ c
timeout_up a b c h k = omega arith

module _ (commands : List CommandPermission) (r : RunnerSpec) (argv0 : String)
    (prefix : List String) where
  abbrev found : Option CommandPermission
  found = find_same same_key (entry_of r argv0 prefix) commands

  own_enough :
      (c : CommandPermission)
      → same_key (entry_of r argv0 prefix) c ≡ true
      → After same_key (written commands r argv0 prefix) c commands
      → r.timeout_seconds ≤ℤ c.max_timeout_seconds
  own_enough c k (inl e) = rw (e) (merged-own r.timeout_seconds found)
  own_enough c k (inr (m, f)) =
      cc (k, f, same_key_timeout r argv0 prefix (merged_timeout r.timeout_seconds found) c)

  grants_own : Granted r argv0 prefix (put_same same_key (written commands r argv0 prefix) commands)
  grants_own = record {
    entry = written commands r argv0 prefix;
    stands = In-put_new same_key _ commands;
    key =
        SameKey-same_key _ _ (record { program = refl; prefix = refl; root = refl; effect = refl });
    enough = λ c m k. own_enough c k (put_same-After same_key _ c commands m);
  }

  -- An entry that the round writes over the one of another runner has that one's time limit too.
  written_enough :
      (s : RunnerSpec) (program : String) (args : List String)
      → Granted s program args commands
      → same_key (entry_of s program args) (written commands r argv0 prefix) ≡ true
      → s.timeout_seconds ≤ℤ merged_timeout r.timeout_seconds found
  written_enough s program args g k =
      let shared = key_timeout (entry_of s program args) r argv0 prefix _ k in
      let here_too : same_key (entry_of r argv0 prefix) g.entry ≡ true =
        same_key_trans _ (entry_of s program args) g.entry (same_key_sym _ _ shared) g.key in
      let (u, e) =
        In-find_same same_key (entry_of r argv0 prefix) g.entry commands g.stands here_too in
      let (m, same) = find_same-In same_key (entry_of r argv0 prefix) u commands e in
      rw (e) (
        timeout_up s.timeout_seconds u.max_timeout_seconds _
          (g.enough u m (same_key_trans _ (entry_of r argv0 prefix) u shared same))
          (merged-known r.timeout_seconds u))

  kept_enough :
      (s : RunnerSpec) (program : String) (args : List String)
      → Granted s program args commands
      → (c : CommandPermission) → same_key (entry_of s program args) c ≡ true
      → After same_key (written commands r argv0 prefix) c commands
      → s.timeout_seconds ≤ℤ c.max_timeout_seconds
  kept_enough s program args g c k (inl e) = rw (e) (written_enough s program args g (rw (e) at k))
  kept_enough s program args g c k (inr (m, f)) = g.enough c m k

  grants_kept :
      (s : RunnerSpec) (program : String) (args : List String)
      → Granted s program args commands
      → Granted s program args (put_same same_key (written commands r argv0 prefix) commands)
  grants_kept s program args g =
      elim (Bool-cases (same_key (written commands r argv0 prefix) g.entry)) [
        | inl t ↦ record {
          entry = written commands r argv0 prefix;
          stands = In-put_new same_key _ commands;
          key = same_key_join _ _ g.entry g.key t;
          enough =
              λ c m k. kept_enough s program args g c k (put_same-After same_key _ c commands m);
        }
        | inr f ↦ record {
          entry = g.entry;
          stands = In-put_other same_key _ g.entry commands g.stands f;
          key = g.key;
          enough =
              λ c m k. kept_enough s program args g c k (put_same-After same_key _ c commands m);
        }
      ]

-- The entry is an exact grant for one of the runners.
pub record OfRunner (runners : List RunnerSpec) (c : CommandPermission) : Type 0 where
  pub runner : RunnerSpec
  pub listed : In runner runners
  pub argv : runner.argv ≡ c.argv0 ∷ c.argv_prefix
  pub exact : c.allow_extra_args ≡ false
  pub root : runner.as_root ≡ c.as_root
  pub effect : runner.side_effect ≡ c.side_effect

abbrev pub AllOf : List RunnerSpec → List CommandPermission → Type 0
AllOf runners commands = (c : CommandPermission) → In c commands → OfRunner runners c

puts-AllOf :
    (runners : List RunnerSpec) (commands : List CommandPermission) (r : RunnerSpec)
    (argv0 : String) (prefix : List String)
    → AllOf runners commands
    → In r runners
    → r.argv ≡ argv0 ∷ prefix
    → (c : CommandPermission) → After same_key (written commands r argv0 prefix) c commands
    → OfRunner runners c
puts-AllOf runners commands r argv0 prefix all m e c (inl same) =
    subst (OfRunner runners) (sym same)
      (record { runner = r; listed = m; argv = e; exact = refl; root = refl; effect = refl })
puts-AllOf runners commands r argv0 prefix all m e c (inr (old, _)) = all c old

-- The commands after the loop: every entry is an exact grant for a runner, and every runner has one.
pub record Collected (runners pending : List RunnerSpec) (commands result : List CommandPermission)
    : Type 0 where
  pub only : AllOf runners result
  pub own :
      (r : RunnerSpec) (argv0 : String) (prefix : List String)
      → In r pending
      → r.argv ≡ argv0 ∷ prefix
      → Granted r argv0 prefix result
  pub kept :
      (r : RunnerSpec) (argv0 : String) (prefix : List String)
      → Granted r argv0 prefix commands
      → Granted r argv0 prefix result

abbrev pub Within : List RunnerSpec → List RunnerSpec → Type 0
Within pending runners = (r : RunnerSpec) → In r pending → In r runners

head_of : {a b : String} {xs ys : List String} → a ∷ xs ≡ b ∷ ys → a ≡ b
head_of h = cc

tail_of : {a b : String} {xs ys : List String} → a ∷ xs ≡ b ∷ ys → xs ≡ ys
tail_of h = cc

-- One round, for the argv that the runner has.
module _ (runners : List RunnerSpec) (r : RunnerSpec) (listed : In r runners) where
  round-Collected :
      (commands updated : List CommandPermission) (argv : List String)
      → r.argv ≡ argv
      → AllOf runners commands
      → grant_command commands r argv ≡ ok updated
      → Collected runners (r ∷ []) commands updated
  unfolding grant_command
  round-Collected commands updated [] e all h = cc
  round-Collected commands updated (argv0 ∷ prefix) e all h =
      subst (Collected runners (r ∷ []) commands)
        (grant_command-puts commands updated r argv0 prefix h)
        (record {
          only = λ c m.
              puts-AllOf runners commands r argv0 prefix all listed e c
                (put_same-After same_key _ c commands m);
          own = λ s program args m e'. own s program args m e';
          kept = λ s program args g. grants_kept commands r argv0 prefix s program args g;
        })
    where
      own :
          (s : RunnerSpec) (program : String) (args : List String)
          → In s (r ∷ [])
          → s.argv ≡ program ∷ args
          → Granted s program args (put_same same_key (written commands r argv0 prefix) commands)
      own s program args (here same) e' =
          let shape : argv0 ∷ prefix ≡ program ∷ args =
            sym e ∙ sym (ap (λ (x : RunnerSpec). x.argv) same) ∙ e' in
          subst
            (λ x.
              Granted x program args (put_same same_key (written commands r argv0 prefix) commands))
            (sym same) (rw (← head_of shape, ← tail_of shape) (grants_own commands r argv0 prefix))
      own s program args (there m) e' = elim m [ ]

pub grant_commands-Collected :
    (runners : List RunnerSpec) (commands : List CommandPermission) (pending : List RunnerSpec)
    (result : List CommandPermission)
    → Within pending runners
    → AllOf runners commands
    → grant_commands commands pending ≡ ok result
    → Collected runners pending commands result
unfolding grant_commands
grant_commands-Collected runners commands [] result w all h =
    let same : commands ≡ result = cc in
    subst (Collected runners [] commands) same
      (record { only = all; own = λ r argv0 prefix m e. elim m [ ]; kept = λ r argv0 prefix g. g })
grant_commands-Collected runners commands (r ∷ rs) result w all h =
    let (updated, e, rest) = >>=-returns (grant_command commands r r.argv) _ h in
    let first = round-Collected runners r (w r (here refl)) commands updated r.argv refl all e in
    let others =
      grant_commands-Collected runners updated rs result (λ s m. w s (there m)) first.only rest in
    record {
      only = others.only;
      own = λ s argv0 prefix m e. elim m [
        | here same ↦ others.kept s argv0 prefix (first.own s argv0 prefix (here same) e)
        | there n ↦ others.own s argv0 prefix n e
      ];
      kept = λ s argv0 prefix g. others.kept s argv0 prefix (first.kept s argv0 prefix g);
    }

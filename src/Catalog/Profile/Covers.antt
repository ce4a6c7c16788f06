-- ===== src/Catalog/Profile/Covers.antt =====
-- `execution_profile_for` of layer2-analyzer/src/runner_catalog.py, against `profile_allows`.
use aads.Prelude.{
  ◌≡◌, refl, sym, ap, ◌∙◌, inl, inr, arith, String, true, false, none, some, List, [], ◌∷◌,
  append_nil, ℤ, pos, ◌≤ℤ◌, All, In, here, there, Bool-cases, In-sorted_by, sorted_by-In, sorted_by,
  split,
}
use aads.Python.{Py, ok, raise}
use aads.Python.Laws.{>>=-returns}
use aads.Policy.{
  RunnerSpec, CommandPermission, PathPermission, ExecutionProfile, int_or, str_or, matches,
  find_permission, has_dotdot, profile_allows,
}
use aads.Policy.Spec.{Grants, Permits, PathOk, matches-Grants, Grants-matches, find-FirstGrant}
use aads.Policy.Decides.{profile_allows_iff}
use aads.Catalog.Profile.{
  same_key, grant_commands, command_lt, grant_services, profile_of, execution_profile_for,
}
use aads.Catalog.Profile.Entries.{same_key-SameKey, SameKey-same_key, entry_of, Granted}
use aads.Catalog.Profile.Rounds.{OfRunner, Collected, grant_commands-Collected, timeout_up}

find-In :
    (argv0 : String) (args : List String) (perms : List CommandPermission)
    (perm : CommandPermission)
    → find_permission argv0 args perms ≡ some perm
    → In perm perms × (matches argv0 args perm ≡ true)
unfolding find_permission
find-In argv0 args [] perm h = cc
find-In argv0 args (p ∷ ps) perm h = elim (Bool-cases (matches argv0 args p)) [
  | inl t ↦ let e : p ≡ perm = cc (rw (t, find_permission) at h) in (here (sym e), rw (← e) t)
  | inr f ↦ let (m, e) = find-In argv0 args ps perm (rw (f, find_permission) at h) in (there m, e)
]

In-find :
    (argv0 : String) (args : List String) (perms : List CommandPermission)
    (perm : CommandPermission)
    → In perm perms
    → matches argv0 args perm ≡ true
    → (p : CommandPermission) × (find_permission argv0 args perms ≡ some p)
unfolding find_permission
In-find argv0 args [] perm m h = elim m [ ]
In-find argv0 args (p ∷ ps) perm (here e) h = (perm, rw (← e, h) refl)
In-find argv0 args (p ∷ ps) perm (there m) h = elim (Bool-cases (matches argv0 args p)) [
  | inl t ↦ (p, rw (t) refl)
  | inr f ↦ let (q, e) = In-find argv0 args ps perm m h in (q, rw (f) e)
]

-- Runners with one argv agree on privilege and side effect.
abbrev pub Agree : List RunnerSpec → Type 0
Agree runners =
    (r s : RunnerSpec)
    → In r runners
    → In s runners
    → r.argv ≡ s.argv
    → (r.as_root ≡ s.as_root) × (r.side_effect ≡ s.side_effect)

-- A runner as the catalog writes it, whose path arguments the permissions cover.
pub record IsPlain (paths : List PathPermission) (runner : RunnerSpec) : Type 0 where
  pub program : String
  pub args : List String
  pub argv : runner.argv ≡ program ∷ args
  pub timeout : pos 1 ≤ℤ runner.timeout_seconds
  pub cwd : runner.cwd ≡ "/"
  pub env : runner.env ≡ []
  pub covered : All (PathOk paths) args

int_or_positive : (n d : ℤ) → pos 1 ≤ℤ n → int_or n d ≡ n
unfolding int_or
int_or_positive n d h = ground arith

root_has_no_dotdot : has_dotdot (str_or "/" "/") ≡ false
unfolding has_dotdot str_or split
root_has_no_dotdot = refl

root_is_root : str_or "/" "/" ≡ "/"
unfolding str_or
root_is_root = refl

exact_grant :
    {argv0 : String} {args : List String} (m : CommandPermission)
    → Grants m argv0 args
    → m.allow_extra_args ≡ false
    → m.argv0 ∷ m.argv_prefix ≡ argv0 ∷ args
exact_grant m g exact = elim g.exact [
  | inl free ↦ cc (free, exact)
  | inr nothing ↦ cc (g.program, rw (nothing, append_nil m.argv_prefix) at g.arguments)
]

entry-Grants :
    {paths : List PathPermission} {runners : List RunnerSpec} {commands : List CommandPermission}
    (r : RunnerSpec) (plain : IsPlain paths r)
    (granted : Granted r plain.program plain.args commands)
    → OfRunner runners granted.entry
    → Grants granted.entry plain.program plain.args
entry-Grants r plain granted of_runner =
    let key = same_key-SameKey _ granted.entry granted.key in
    record {
      program = key.program;
      extra = [];
      arguments = key.prefix ∙ sym (append_nil granted.entry.argv_prefix);
      exact = inr refl;
    }

commands_of : Py ExecutionProfile → List CommandPermission
commands_of (ok p) = p.allowed_commands
commands_of (raise e) = []

paths_of : Py ExecutionProfile → List PathPermission
paths_of (ok p) = p.path_permissions
paths_of (raise e) = []

module _ (runners : List RunnerSpec) (agree : Agree runners) (commands : List CommandPermission)
    (collected : Collected runners runners [] commands) (profile : ExecutionProfile)
    (allowed : sorted_by command_lt commands ≡ profile.allowed_commands) where
  found_Permits :
      (r : RunnerSpec) (plain : IsPlain profile.path_permissions r)
      → In r runners
      → Granted r plain.program plain.args commands
      → (m : CommandPermission)
      → find_permission plain.program plain.args (sorted_by command_lt commands) ≡ some m
      → Permits profile r
  found_Permits r plain listed granted m e =
      let (stands, matched) = find-In plain.program plain.args _ m e in
      let old = sorted_by-In command_lt m commands stands in
      let of_runner = collected.only m old in
      let grants = matches-Grants plain.program plain.args m matched in
      let shape = exact_grant m grants of_runner.exact in
      let (root, effect) =
        agree r of_runner.runner listed of_runner.listed
          (plain.argv ∙ sym shape ∙ sym of_runner.argv) in
      let key : same_key (entry_of r plain.program plain.args) m ≡ true =
        SameKey-same_key _ _ (record {
          program = grants.program;
          prefix = cc (shape);
          root = root ∙ of_runner.root;
          effect = effect ∙ of_runner.effect;
        }) in
      let enough = granted.enough m old key in
      record {
        argv0 = plain.program;
        args = plain.args;
        argv = plain.argv;
        matched = m;
        granted = rw (← allowed) (find-FirstGrant plain.program plain.args _ e);
        root = root ∙ of_runner.root;
        effect = ap (λ s. str_or s "read") (effect ∙ of_runner.effect);
        timeout =
            rw
              (
                int_or_positive r.timeout_seconds (pos 30) plain.timeout,
                int_or_positive m.max_timeout_seconds (pos 600)
                    (timeout_up (pos 1) r.timeout_seconds _ plain.timeout enough),
              )
              enough;
        cwd_plain = rw (plain.cwd) root_has_no_dotdot;
        cwd = inl (rw (plain.cwd) root_is_root);
        paths = plain.covered;
        env = plain.env;
      }

  runner_Permits :
      (r : RunnerSpec) → IsPlain profile.path_permissions r → In r runners → Permits profile r
  runner_Permits r plain listed =
      let granted = collected.own r plain.program plain.args listed plain.argv in
      let (p, e) =
        In-find plain.program plain.args (sorted_by command_lt commands) granted.entry
          (In-sorted_by command_lt granted.entry commands granted.stands)
          (Grants-matches plain.program plain.args granted.entry
            (entry-Grants r plain granted (collected.only granted.entry granted.stands))) in
      found_Permits r plain listed granted p e

profile_of-fields :
    (commands : List CommandPermission) (paths : List PathPermission) (profile : ExecutionProfile)
    → profile_of commands paths ≡ ok profile
    → (commands ≡ profile.allowed_commands) × (paths ≡ profile.path_permissions)
unfolding profile_of commands_of paths_of
profile_of-fields [] paths profile h = cc
profile_of-fields (c ∷ cs) paths profile h = (
  ap (λ (o : Py ExecutionProfile). commands_of o) h,
  ap (λ (o : Py ExecutionProfile). paths_of o) h,
)

-- The derived profile allows every runner that it is derived from, whatever the order and the
-- repetitions of the runners, if runners with one argv agree on privilege and side effect and the
-- runner has a positive time limit, the default working directory, no environment, and path
-- arguments that the permissions of the profile cover.
pub execution_profile_for-allows :
    (runners : List RunnerSpec) (services : List String) (profile : ExecutionProfile)
    → execution_profile_for runners services ≡ ok profile
    → Agree runners
    → (r : RunnerSpec) → In r runners
    → IsPlain profile.path_permissions r
    → profile_allows (some profile) r ≡ none
unfolding execution_profile_for
execution_profile_for-allows runners services profile h agree r listed plain =
    let (commands, e, rest) = >>=-returns (grant_commands [] runners) _ h in
    let (paths, _, last) = >>=-returns (grant_services [] services) _ rest in
    let collected =
      grant_commands-Collected runners [] runners commands (λ s m. m) (λ c m. elim m [ ]) e in
    (profile_allows_iff profile r).1 (
      runner_Permits runners agree commands collected profile (profile_of-fields _ _ profile last).0
        r plain listed)

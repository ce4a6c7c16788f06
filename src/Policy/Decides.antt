-- ===== src/Policy/Decides.antt =====
-- `profile_allows` of pi-agent/src/safety_cards/policy_card.py, compared with `Permits`.
use aads.Prelude.{
  String, ◌≡◌, ◌↔◌, inl, inr, refl, true, false, List, [], ◌∷◌, ◌⊎◌, pos, ◌≤ℤ◌, All, arith,
  str_eq_iff, Bool-cases, Option-cases, none, some, begins_with,
}
use aads.Policy.{
  RunnerSpec, CommandPermission, PathPermission, ExecutionProfile, str_or, int_or, find_permission,
  covered, has_dotdot, path_args_allowed, check_matched, check_argv, check_commands, profile_allows,
}
use aads.Policy.Spec.{
  FirstGrant, find-FirstGrant, FirstGrant-find, covered-CoveredBy, CoveredBy-covered, PathOk,
  Permits,
}

path_args-All :
    (ps : List PathPermission) (args : List String)
    → path_args_allowed ps args ≡ true
    → All (PathOk ps) args
unfolding path_args_allowed
path_args-All ps [] h = tt
path_args-All ps (token ∷ args) h = (
  λ absolute. (ground arith, covered-CoveredBy ps token "" (ground arith)),
  path_args-All ps args (ground arith),
)

All-path_args :
    (ps : List PathPermission) (args : List String)
    → All (PathOk ps) args
    → path_args_allowed ps args ≡ true
unfolding path_args_allowed
All-path_args ps [] h = refl
All-path_args ps (token ∷ args) h = elim (Bool-cases (begins_with token "/")) [
  | inl absolute ↦
      rw (absolute, (h.0 absolute).0, CoveredBy-covered ps token "" (h.0 absolute).1)
        (All-path_args ps args h.1)
  | inr relative ↦ rw relative (All-path_args ps args h.1)
]

-- The tests of a matched permission, one by one.
record Passes (ps : List PathPermission) (matched : CommandPermission) (runner : RunnerSpec)
    (args : List String) : Type 0 where
  root : runner.as_root ≡ matched.as_root
  effect : str_or runner.side_effect "read" ≡ str_or matched.side_effect "read"
  timeout : int_or runner.timeout_seconds (pos 30) ≤ℤ int_or matched.max_timeout_seconds (pos 600)
  cwd_plain : has_dotdot (str_or runner.cwd "/") ≡ false
  cwd : (str_or runner.cwd "/" ≡ "/") ⊎ (covered ps (str_or runner.cwd "/") "r" ≡ true)
  paths : path_args_allowed ps args ≡ true
  env : runner.env ≡ []

check-Passes :
    (ps : List PathPermission) (matched : CommandPermission) (runner : RunnerSpec)
    (args : List String)
    → check_matched ps matched runner args ≡ none
    → Passes ps matched runner args
unfolding check_matched
check-Passes ps matched runner args h = ground (
  arith,
  str_eq_iff (str_or runner.side_effect "read") (str_or matched.side_effect "read"),
  str_eq_iff (str_or runner.cwd "/") "/",
)

Passes-check :
    (ps : List PathPermission) (matched : CommandPermission) (runner : RunnerSpec)
    (args : List String)
    → Passes ps matched runner args
    → check_matched ps matched runner args ≡ none
unfolding check_matched
Passes-check ps matched runner args h = ground (
  arith,
  str_eq_iff (str_or runner.side_effect "read") (str_or matched.side_effect "read"),
  str_eq_iff (str_or runner.cwd "/") "/",
)

record Found (profile : ExecutionProfile) (runner : RunnerSpec) (argv : List String) : Type 0 where
  argv0 : String
  args : List String
  shape : argv ≡ argv0 ∷ args
  matched : CommandPermission
  found : find_permission argv0 args profile.allowed_commands ≡ some matched
  passed : check_matched profile.path_permissions matched runner args ≡ none

check_argv-Found :
    (profile : ExecutionProfile) (runner : RunnerSpec) (argv : List String)
    → check_argv profile runner argv ≡ none
    → Found profile runner argv
unfolding check_argv
check_argv-Found profile runner [] h = ground arith
check_argv-Found profile runner (argv0 ∷ args) h =
    elim (Option-cases (find_permission argv0 args profile.allowed_commands)) [
      | inl missing ↦ cc (rw (missing, check_argv) at h)
      | inr (matched, e) ↦ record {
        argv0 = argv0;
        args = args;
        shape = refl;
        matched = matched;
        found = e;
        passed = rw (e, check_argv) at h;
      }
    ]

check_commands-argv :
    (profile : ExecutionProfile) (runner : RunnerSpec) (commands : List CommandPermission)
    → check_commands profile runner commands ≡ none
    → check_argv profile runner runner.argv ≡ none
unfolding check_commands
check_commands-argv profile runner [] h = ground arith
check_commands-argv profile runner (_ ∷ _) h = h

Found-Permits :
    (profile : ExecutionProfile) (runner : RunnerSpec)
    → Found profile runner runner.argv
    → Permits profile runner
Found-Permits profile runner f =
    let ps = profile.path_permissions in
    let ok = check-Passes ps f.matched runner f.args f.passed in
    record {
      argv0 = f.argv0;
      args = f.args;
      argv = f.shape;
      matched = f.matched;
      granted = find-FirstGrant f.argv0 f.args profile.allowed_commands f.found;
      root = ok.root;
      effect = ok.effect;
      timeout = ok.timeout;
      cwd_plain = ok.cwd_plain;
      cwd = elim ok.cwd [ inl slash ↦ inl slash | inr c ↦ inr (covered-CoveredBy ps _ _ c) ];
      paths = path_args-All ps f.args ok.paths;
      env = ok.env;
    }

Permits-check_argv :
    (profile : ExecutionProfile) (runner : RunnerSpec)
    → Permits profile runner
    → check_argv profile runner runner.argv ≡ none
unfolding check_argv
Permits-check_argv profile runner p =
    let ps = profile.path_permissions in
    rw (p.argv, check_argv)
      (rw (FirstGrant-find p.argv0 p.args profile.allowed_commands p.granted) (
        Passes-check ps p.matched runner p.args (record {
          root = p.root;
          effect = p.effect;
          timeout = p.timeout;
          cwd_plain = p.cwd_plain;
          cwd = elim p.cwd [ inl slash ↦ inl slash | inr c ↦ inr (CoveredBy-covered ps _ _ c) ];
          paths = All-path_args ps p.args p.paths;
          env = p.env;
        })))

FirstGrant-commands :
    {argv0 : String} {args : List String} {perm : CommandPermission} (profile : ExecutionProfile)
    (runner : RunnerSpec) (commands : List CommandPermission)
    → FirstGrant argv0 args perm commands
    → check_argv profile runner runner.argv ≡ none
    → check_commands profile runner commands ≡ none
unfolding check_commands
FirstGrant-commands profile runner [] f h = elim f [ ]
FirstGrant-commands profile runner (_ ∷ _) f h = h

-- A profile allows a runner exactly if it permits it: the first permission that grants the argv
-- agrees on privilege and side effect and covers the time limit, the working directory and every
-- absolute path argument are free of `..` and covered, and no environment is passed.
pub profile_allows_iff :
    (profile : ExecutionProfile) (runner : RunnerSpec)
    → (profile_allows (some profile) runner ≡ none) ↔ Permits profile runner
unfolding profile_allows
profile_allows_iff profile runner = (
  λ h. Found-Permits profile runner (
      check_argv-Found profile runner runner.argv
        (check_commands-argv profile runner profile.allowed_commands h)),
  λ p.
      FirstGrant-commands profile runner profile.allowed_commands p.granted
        (Permits-check_argv profile runner p),
)

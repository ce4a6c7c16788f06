-- ===== src/Analyzer/Convert/Profiles.antt =====
-- `_to_fixing_plan` of layer2-analyzer/src/main.py: the profile of runners of the catalog.
use mathlib.Core.Path.{subst}
use aads.Prelude.{
  ◌≡◌, refl, inl, arith, String, true, false, not, ◌&&◌, ◌||◌, &&-true, &&-intro, none, some, List,
  [], ◌∷◌, ℤ, pos, ◌≤ℤ◌, All, All-In, In, In-all, here, all, str_eq, str_eq_iff, str_eq_refl,
  str_mem, begins_with, split, sorted_by, In-sorted_by, sorted_by-In,
}
use aads.Python.{Py, ok}
use aads.Policy.{
  RunnerSpec, CommandPermission, PathPermission, ExecutionProfile, has_dotdot, within,
  profile_allows,
}
use aads.Policy.NormPath.{normpath}
use aads.Policy.Spec.{PathOk, CoveredBy}
use aads.Catalog.Profile.{
  within_600, is_side_effect, command_permission, path_permission, command_lt, path_lt, profile_of,
  execution_profile_for,
}
use aads.Catalog.Profile.Rounds.{grant_commands-Collected}
use aads.Catalog.Profile.Covers.{IsPlain, execution_profile_for-allows}
use aads.Catalog.Profile.Total.{program_given, is_grantable, AllValid, grant_commands-total}
use aads.Catalog.Profile.PathsTotal.{grant_services-total}
use aads.Catalog.Known.{IsKnown-Agree}
use aads.Schema.{filled, nonempty, is_ok, valid_runner, valid_profile}
use aads.Analyzer.Convert.Tables.{args_ok, args_of, no_env, is_ready}
use aads.Analyzer.Convert.Steps.{Fits, is_ready-valid}

ready-grantable : (name : String) (r : RunnerSpec) → is_ready name r ≡ true → is_grantable r ≡ true
unfolding valid_runner
ready-grantable name r h =
    let (front, back) =
      &&-true (str_eq r.mode "argv" && (filled r.argv && all nonempty r.argv)) _
        (is_ready-valid name r h) in
    let (some_arg, args) = &&-true (filled r.argv) _ (&&-true (str_eq r.mode "argv") _ front).1 in
    let (timeout, effect) =
      &&-true (within_600 r.timeout_seconds) (is_side_effect r.side_effect) back in
    &&-intro _ _ (given r.argv some_arg args) (&&-intro _ _ effect timeout)
  where
    given :
        (argv : List String)
        → filled argv ≡ true
        → all nonempty argv ≡ true
        → program_given argv ≡ true
    given [] f a = cc
    given (p ∷ args) f a = (&&-true (nonempty p) (all nonempty args) a).0

all_grantable :
    (services : List String) (runners : List RunnerSpec)
    → All (Fits services) runners
    → All (λ r. is_grantable r ≡ true) runners
all_grantable services [] a = tt
all_grantable services (r ∷ rs) a =
    let (_, (name, _, ready)) = a.0 in (ready-grantable name r ready, all_grantable services rs a.1)

null_plain : has_dotdot "/dev/null" ≡ false
unfolding has_dotdot split
null_plain = refl

abbrev NullListed : List PathPermission → Type 0
NullListed paths = (q : PathPermission) × In q paths × (q.path ≡ "/dev/null")

null_inside : within (normpath "/dev/null") (normpath "/dev/null") ≡ true
unfolding within
null_inside = rw (str_eq_refl (normpath "/dev/null")) refl

null_covered : (paths : List PathPermission) → NullListed paths → CoveredBy paths "/dev/null" ""
null_covered paths (q, m, e) = (q, m, rw (e) null_inside, inl refl)

arg_PathOk :
    (service a : String) (paths : List PathPermission)
    → (not (begins_with a "/") || (str_eq service "nginx" && str_eq a "/dev/null")) ≡ true
    → (service ≡ "nginx" → NullListed paths)
    → PathOk paths a
arg_PathOk service a paths h listed absolute =
    let (nginx, null) = &&-true (str_eq service "nginx") (str_eq a "/dev/null") (ground arith) in
    let e = (str_eq_iff a "/dev/null").0 null in
    rw (e) (null_plain, null_covered paths (listed ((str_eq_iff service "nginx").0 nginx)))

args_PathOk :
    (service : String) (args : List String) (paths : List PathPermission)
    → args_ok service args ≡ true
    → (service ≡ "nginx" → NullListed paths)
    → All (PathOk paths) args
args_PathOk service [] paths h listed = tt
args_PathOk service (a ∷ args) paths h listed =
    let (first, others) =
      &&-true (not (begins_with a "/") || (str_eq service "nginx" && str_eq a "/dev/null"))
        (args_ok service args) h in
    (arg_PathOk service a paths first listed, args_PathOk service args paths others listed)

is_ready-parts :
    (name : String) (r : RunnerSpec)
    → is_ready name r ≡ true
    → (args_ok name (args_of r.argv) ≡ true) × ((r.cwd ≡ "/") × (no_env r.env ≡ true))
unfolding is_ready
is_ready-parts name r h =
    let (front, back) = &&-true (valid_runner r && args_ok name (args_of r.argv)) _ h in
    let (cwd, env) = &&-true (str_eq r.cwd "/") (no_env r.env) back in
    ((&&-true (valid_runner r) _ front).1, ((str_eq_iff r.cwd "/").0 cwd, env))

no_env-nil : (env : List (String × String)) → no_env env ≡ true → env ≡ []
no_env-nil [] h = refl
no_env-nil (_ ∷ _) h = cc

shape_of :
    (argv : List String) → program_given argv ≡ true → (p : String) × (argv ≡ p ∷ args_of argv)
shape_of [] h = cc
shape_of (p ∷ args) h = (p, refl)

within-least : (n : ℤ) → within_600 n ≡ true → pos 1 ≤ℤ n
within-least n h = ground arith

-- A runner that fits is plain for permissions that have the path of nginx, if nginx is repaired.
Fits-IsPlain :
    (services : List String) (paths : List PathPermission) (r : RunnerSpec)
    → Fits services r
    → (str_mem "nginx" services ≡ true → NullListed paths)
    → IsPlain paths r
Fits-IsPlain services paths r (_, (name, mem, ready)) listed =
    let grantable = ready-grantable name r ready in
    let (given, others) = &&-true (program_given r.argv) _ grantable in
    let (program, shape) = shape_of r.argv given in
    let (args, (cwd, env)) = is_ready-parts name r ready in
    record {
      program = program;
      args = args_of r.argv;
      argv = shape;
      timeout = within-least r.timeout_seconds (&&-true _ (within_600 r.timeout_seconds) others).1;
      cwd = cwd;
      env = no_env-nil r.env env;
      covered =
          args_PathOk name (args_of r.argv) paths args
            (λ e. listed (subst (λ n. str_mem n services ≡ true) e mem));
    }

is_ok-ok : {A : Type 0} (o : Py A) (a : A) → o ≡ ok a → is_ok o ≡ true
is_ok-ok o a e = rw (e) refl

nonempty_list :
    {A : Type 0} (x : A) (xs : List A) → In x xs → (y : A) × (ys : List A) × (xs ≡ y ∷ ys)
nonempty_list x [] m = elim m [ ]
nonempty_list x (y ∷ ys) m = (y, ys, refl)

-- The profile exists, is accepted by its model, and allows every runner.
pub record ProfileFacts (runners : List RunnerSpec) (listed : List String) : Type 0 where
  pub profile : ExecutionProfile
  pub derives : execution_profile_for runners listed ≡ ok profile
  pub valid : valid_profile profile ≡ true
  pub allows : (r : RunnerSpec) → In r runners → profile_allows (some profile) r ≡ none

abbrev profile_with : List CommandPermission → List PathPermission → ExecutionProfile
profile_with commands paths = record {
  profile_version = "1.0";
  generated_by = "runner_catalog";
  allowed_commands = commands;
  path_permissions = paths;
}

profile_of-ok :
    {c : CommandPermission} (commands : List CommandPermission) (paths : List PathPermission)
    → In c commands
    → profile_of commands paths ≡ ok (profile_with commands paths)
unfolding profile_of
profile_of-ok [] paths m = elim m [ ]
profile_of-ok (c ∷ cs) paths m = refl

profile_with-valid :
    {c : CommandPermission} (commands : List CommandPermission) (paths : List PathPermission)
    → In c commands
    → AllValid commands
    → ((p : PathPermission) → In p paths → path_permission p ≡ ok p)
    → valid_profile (profile_with commands paths) ≡ true
unfolding valid_profile
profile_with-valid [] paths m v w = elim m [ ]
profile_with-valid (c ∷ cs) paths m v w =
    &&-intro _ _ (In-all (λ x. is_ok (command_permission x)) (c ∷ cs) (λ x n. is_ok-ok _ x (v x n)))
      (In-all (λ x. is_ok (path_permission x)) paths (λ x n. is_ok-ok _ x (w x n)))

pub profile_facts :
    (services listed : List String) (first : RunnerSpec) (others : List RunnerSpec)
    → All (Fits services) (first ∷ others)
    → (str_mem "nginx" services ≡ true → str_mem "nginx" listed ≡ true)
    → ProfileFacts (first ∷ others) listed
unfolding execution_profile_for
profile_facts services listed first others fits mem =
    let runners = first ∷ others in
    let (commands, (e, valid)) =
      grant_commands-total [] runners (all_grantable services runners fits) (λ c m. elim m [ ]) in
    let (paths, (f, served)) = grant_services-total listed in
    let collected =
      grant_commands-Collected runners [] runners commands (λ s m. m) (λ c m. elim m [ ]) e in
    let plain = Fits-IsPlain services paths first fits.0 (λ h. served.null (mem h)) in
    let granted = collected.own first plain.program plain.args (here refl) plain.argv in
    let some_command = In-sorted_by command_lt granted.entry commands granted.stands in
    let profile = profile_with (sorted_by command_lt commands) (sorted_by path_lt paths) in
    let derives : execution_profile_for runners listed ≡ ok profile =
      rw (e, f)
        (profile_of-ok (sorted_by command_lt commands) (sorted_by path_lt paths) some_command) in
    record {
      profile = profile;
      derives = derives;
      valid =
          profile_with-valid (sorted_by command_lt commands) (sorted_by path_lt paths) some_command
            (λ c m. valid c (sorted_by-In command_lt c commands m))
            (λ p m. served.valid p (sorted_by-In path_lt p paths m));
      allows = λ r m.
          execution_profile_for-allows runners listed profile derives
            (λ s t n o.
              IsKnown-Agree s t (All-In (Fits services) runners fits n).0
                (All-In (Fits services) runners fits o).0)
            r m
            (Fits-IsPlain services (sorted_by path_lt paths) r
              (All-In (Fits services) runners fits m)
              (λ h. let (q, n, g) = served.null (mem h) in (q, In-sorted_by path_lt q paths n, g)));
    }

-- ===== src/Catalog/Profile.antt =====
-- layer2-analyzer/src/runner_catalog.py: `execution_profile_for`, with the field constraints of
-- the models of layer2-analyzer/src/schemas/action_plan.py that it builds.
pub mod Entries
pub mod Rounds
pub mod Covers
pub mod Total
pub mod PathsTotal
use Prim.Native.Char.{Char, code}
use aads.Prelude.{
  ℕ, ltb, ◌==◌, String, ◌<>◌, Bool, true, false, not, ◌&&◌, ◌||◌, Option, none, some, List, [], ◌∷◌,
  ℤ, pos, max_ℤ, leb_ℤ, str_eq, str_lt, strs_eq, str_mem, bool_eq, begins_with, text_len, leb,
  sorted_by, find_same, put_same, if◌then◌else◌,
}
use aads.Python.{Py, ok, raise, ◌>>=◌, value_error, index_error}
use aads.Policy.{RunnerSpec, CommandPermission, PathPermission, ExecutionProfile}

-- `Literal["read", "mutate"]`
abbrev pub is_side_effect : String → Bool
is_side_effect s = str_eq s "read" || str_eq s "mutate"

abbrev pub within_600 : ℤ → Bool
within_600 n = leb_ℤ (pos 1) n && leb_ℤ n (pos 600)

-- the constraints of `CommandPermission`
unfoldable pub command_permission : CommandPermission → Py CommandPermission
command_permission p =
    if not (str_eq p.argv0 "") && (is_side_effect p.side_effect && within_600 p.max_timeout_seconds)
    then ok p
    else raise value_error

only_rwx : String → Bool
only_rwx String.[] = true
only_rwx (String.◌∷◌ c s) = (code c == 114 || (code c == 119 || code c == 120)) && only_rwx s

-- the constraints of `PathPermission`: the patterns `^/` and `^[rwx]{1,3}$`
unfoldable pub path_permission : PathPermission → Py PathPermission
unfolding only_rwx
path_permission p =
    if begins_with p.path "/"
      && (only_rwx p.mode && (leb 1 (text_len p.mode) && leb (text_len p.mode) 3))
    then ok p
    else raise value_error

-- the key `(argv0, tuple(prefix), as_root, side_effect)`
unfoldable pub same_key : CommandPermission → CommandPermission → Bool
same_key p q =
    (str_eq p.argv0 q.argv0 && strs_eq p.argv_prefix q.argv_prefix)
    && (bool_eq p.as_root q.as_root && str_eq p.side_effect q.side_effect)

abbrev pub grant : RunnerSpec → String → List String → ℤ → CommandPermission
grant runner argv0 prefix timeout = record {
  argv0 = argv0;
  argv_prefix = prefix;
  allow_extra_args = false;
  as_root = runner.as_root;
  side_effect = runner.side_effect;
  max_timeout_seconds = timeout;
}

-- `max(runner.timeout_seconds, existing.max_timeout_seconds if existing else 0)`
abbrev pub merged_timeout : ℤ → Option CommandPermission → ℤ
merged_timeout timeout none = max_ℤ timeout (pos 0)
merged_timeout timeout (some existing) = max_ℤ timeout existing.max_timeout_seconds

-- one round of the loop over `plan_runners`
unfoldable pub grant_command :
    List CommandPermission → RunnerSpec → List String → Py (List CommandPermission)
unfolding find_same put_same
grant_command commands runner [] = raise index_error
grant_command commands runner (argv0 ∷ prefix) =
    let existing = find_same same_key (grant runner argv0 prefix (pos 0)) commands in
    do
      permission ←
          command_permission
            (grant runner argv0 prefix (merged_timeout runner.timeout_seconds existing))
      ok (put_same same_key permission commands)

unfoldable pub grant_commands :
    List CommandPermission → List RunnerSpec → Py (List CommandPermission)
grant_commands commands [] = ok commands
grant_commands commands (runner ∷ runners) = do
  updated ← grant_command commands runner runner.argv
  grant_commands updated runners

abbrev entry : String → String → PathPermission
entry path mode = record { path = path; mode = mode }

-- `_PATH_PERMISSIONS.get(service, [])`
unfoldable pub path_permissions_of : String → List PathPermission
path_permissions_of service =
    if str_eq service "nginx"
    then entry "/dev/null" "w"
      ∷ entry "/etc/nginx" "rw"
      ∷ entry "/var/lib/aads-agent/snapshots/nginx" "rw"
      ∷ []
    else if str_eq service "postgresql"
    then entry "/etc/postgresql" "rw" ∷ entry "/var/lib/aads-agent/snapshots/postgresql" "rw" ∷ []
    else if str_eq service "redis"
    then entry "/etc/redis" "rw" ∷ entry "/var/lib/aads-agent/snapshots/redis" "rw" ∷ []
    else if str_eq service "mysql"
    then entry "/etc/mysql" "rw" ∷ entry "/var/lib/aads-agent/snapshots/mysql" "rw" ∷ []
    else []

-- `"".join(sorted(set(s)))`
insert_char : Char → String → String
insert_char c String.[] = String.◌∷◌ c String.[]
insert_char c (String.◌∷◌ d s) =
    let rest = insert_char c s in
    if code c == code d
    then String.◌∷◌ d s
    else if ltb (code c) (code d)
    then String.◌∷◌ c (String.◌∷◌ d s)
    else String.◌∷◌ d rest

unfoldable pub sorted_chars : String → String
unfolding insert_char
sorted_chars String.[] = ""
sorted_chars (String.◌∷◌ c s) = insert_char c (sorted_chars s)

unfoldable pub same_path : PathPermission → PathPermission → Bool
same_path p q = str_eq p.path q.path

abbrev pub merged_mode : String → Option PathPermission → String
merged_mode mode none = mode
merged_mode mode (some known) = sorted_chars (known.mode <> mode)

-- the loops over the services and their entries
unfoldable pub grant_paths : List PathPermission → List PathPermission → Py (List PathPermission)
grant_paths paths [] = ok paths
grant_paths paths (e ∷ entries) = do
  permission ←
      path_permission
        (record { path = e.path; mode = merged_mode e.mode (find_same same_path e paths) })
  grant_paths (put_same same_path permission paths) entries

unfoldable pub grant_services : List PathPermission → List String → Py (List PathPermission)
grant_services paths [] = ok paths
grant_services paths (service ∷ services) = do
  updated ← grant_paths paths (path_permissions_of service)
  grant_services updated services

-- `a < b` for lists of texts
unfoldable pub strs_lt : List String → List String → Bool
strs_lt xs [] = false
strs_lt [] (y ∷ ys) = true
strs_lt (x ∷ xs) (y ∷ ys) = let rest = strs_lt xs ys in if str_eq x y then rest else str_lt x y

-- by the key `(c.argv0, c.argv_prefix)`
unfoldable pub command_lt : CommandPermission → CommandPermission → Bool
command_lt p q =
    if str_eq p.argv0 q.argv0 then strs_lt p.argv_prefix q.argv_prefix else str_lt p.argv0 q.argv0

abbrev pub path_lt : PathPermission → PathPermission → Bool
path_lt p q = str_lt p.path q.path

-- `ExecutionProfile(...)`, whose list of commands may not be empty
unfoldable pub profile_of : List CommandPermission → List PathPermission → Py ExecutionProfile
profile_of [] paths = raise value_error
profile_of (c ∷ cs) paths = ok (record {
  profile_version = "1.0";
  generated_by = "runner_catalog";
  allowed_commands = c ∷ cs;
  path_permissions = paths;
})

unfoldable pub execution_profile_for : List RunnerSpec → List String → Py ExecutionProfile
execution_profile_for plan_runners services = do
  commands ← grant_commands [] plan_runners
  paths ← grant_services [] services
  profile_of (sorted_by command_lt commands) (sorted_by path_lt paths)

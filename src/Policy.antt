-- ===== src/Policy.antt =====
-- The ExecutionProfile check of pi-agent/src/safety_cards/policy_card.py, its data and the twin
-- of layer2-analyzer/src/schemas/action_plan.py. `RunnerSpec` is the class of pi-agent/src/main.py.
pub mod NormPath
pub mod Spec
pub mod Decides
mod Tests
use aads.Prelude.{
  ℕ, suc, ◌+◌, String, Bool, true, false, not, ◌&&◌, ◌||◌, Option, none, some, List, [], ◌∷◌, ◌<>◌,
  ℤ, pos, ltb_ℤ, eq_ℤ, str_eq, strs_eq, str_mem, bool_eq, split, rstrip, begins_with, contains,
  length, take, any, ◌==◌, if◌then◌else◌,
}
use NormPath.{normpath}

pub record RunnerSpec : Type 0 where
  pub mode : String
  pub argv : List String
  pub cwd : String
  pub env : List (String × String)
  pub timeout_seconds : ℤ
  pub as_root : Bool
  pub side_effect : String
  pub stdin : Option String

pub record CommandPermission : Type 0 where
  pub argv0 : String
  pub argv_prefix : List String
  pub allow_extra_args : Bool
  pub as_root : Bool
  pub side_effect : String
  pub max_timeout_seconds : ℤ

pub record PathPermission : Type 0 where
  pub path : String
  pub mode : String

pub record ExecutionProfile : Type 0 where
  pub profile_version : String
  pub generated_by : String
  pub allowed_commands : List CommandPermission
  pub path_permissions : List PathPermission

-- the machine-readable failure reasons
pub data Reason : Type 0 where
  profile_missing argv_not_allowed as_root_mismatch side_effect_mismatch : Reason
  timeout_exceeds_profile cwd_not_allowed path_arg_not_allowed env_not_allowed : Reason

-- `s or d`, for a text and for a number
unfoldable pub str_or : String → String → String
str_or s d = if str_eq s "" then d else s

unfoldable pub int_or : ℤ → ℤ → ℤ
int_or n d = if eq_ℤ n (pos 0) then d else n

-- the two `continue` tests of the loop over `allowed_commands`
unfoldable pub matches : String → List String → CommandPermission → Bool
matches argv0 args perm =
    let prefix = perm.argv_prefix in
    (str_eq argv0 perm.argv0 && strs_eq (take (length prefix) args) prefix)
    && (perm.allow_extra_args || suc (length args) == suc (length prefix))

unfoldable pub find_permission :
    String → List String → List CommandPermission → Option CommandPermission
find_permission argv0 args [] = none
find_permission argv0 args (perm ∷ perms) =
    let rest = find_permission argv0 args perms in
    if matches argv0 args perm then some perm else rest

-- whether `normalized` is `base` or lies below it
unfoldable pub within : String → String → Bool
unfolding rstrip begins_with
within normalized base = str_eq normalized base || begins_with normalized (rstrip b'/' base <> "/")

-- the closure `_covered`
unfoldable pub covered : List PathPermission → String → String → Bool
unfolding within
covered path_perms target need_mode =
    let normalized = normpath target in
    any
      (λ (perm : PathPermission).
        within normalized (normpath perm.path)
        && (str_eq need_mode "" || contains need_mode perm.mode))
      path_perms

unfoldable pub has_dotdot : String → Bool
has_dotdot s = str_mem ".." (split b'/' s)

-- the loop over `argv[1:]`
unfoldable pub path_args_allowed : List PathPermission → List String → Bool
path_args_allowed path_perms [] = true
path_args_allowed path_perms (token ∷ tokens) =
    let rest = path_args_allowed path_perms tokens in
    if not (begins_with token "/")
    then rest
    else if has_dotdot token
    then false
    else if not (covered path_perms token "")
    then false
    else rest

abbrev nonempty_env : List (String × String) → Bool
nonempty_env [] = false
nonempty_env (_ ∷ _) = true

-- from the test of `as_root` on: the checks of a matched permission
unfoldable pub check_matched :
    List PathPermission → CommandPermission → RunnerSpec → List String → Option Reason
check_matched path_perms matched runner args =
    let cwd = str_or runner.cwd "/" in
    if not (bool_eq runner.as_root matched.as_root)
    then some as_root_mismatch
    else if not (str_eq (str_or runner.side_effect "read") (str_or matched.side_effect "read"))
    then some side_effect_mismatch
    else if ltb_ℤ (int_or matched.max_timeout_seconds (pos 600))
        (int_or runner.timeout_seconds (pos 30))
    then some timeout_exceeds_profile
    else if has_dotdot cwd
    then some cwd_not_allowed
    else if not (str_eq cwd "/") && not (covered path_perms cwd "r")
    then some cwd_not_allowed
    else if not (path_args_allowed path_perms args)
    then some path_arg_not_allowed
    else if nonempty_env runner.env
    then some env_not_allowed
    else none

unfoldable pub check_argv : ExecutionProfile → RunnerSpec → List String → Option Reason
check_argv profile runner [] = some argv_not_allowed
check_argv profile runner (argv0 ∷ args) =
    elim (find_permission argv0 args profile.allowed_commands) [
      | none ↦ some argv_not_allowed
      | some matched ↦ check_matched profile.path_permissions matched runner args
    ]

unfoldable pub check_commands :
    ExecutionProfile → RunnerSpec → List CommandPermission → Option Reason
check_commands profile runner [] = some profile_missing
check_commands profile runner (_ ∷ _) = check_argv profile runner runner.argv

-- `none` is "allowed". An absent profile is `None` in the source.
unfoldable pub profile_allows : Option ExecutionProfile → RunnerSpec → Option Reason
unfolding check_commands check_argv
profile_allows none runner = some profile_missing
profile_allows (some profile) runner = check_commands profile runner profile.allowed_commands

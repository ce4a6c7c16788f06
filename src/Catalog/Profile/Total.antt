-- ===== src/Catalog/Profile/Total.antt =====
-- `execution_profile_for` of layer2-analyzer/src/runner_catalog.py grants the commands of runners.
use mathlib.Core.Path.{subst}
use aads.Prelude.{
  ◌≡◌, refl, sym, inl, inr, arith, String, Bool, true, false, not, ◌&&◌, &&-true, List, [], ◌∷◌, ℤ,
  pos, max_ℤ, In, str_eq, Bool-cases, Option-cases, find_same, put_same, find_same-In,
  put_same-After, All,
}
use aads.Python.{Py, ok}
use aads.Policy.{RunnerSpec, CommandPermission}
use aads.Catalog.Profile.{
  is_side_effect, within_600, command_permission, same_key, merged_timeout, grant_command,
  grant_commands,
}
use aads.Catalog.Profile.Entries.{entry_of, written}

-- A runner that the profile may grant: a program, a side effect and a time limit in range.
abbrev pub program_given : List String → Bool
program_given [] = false
program_given (p ∷ _) = not (str_eq p "")

abbrev pub is_grantable : RunnerSpec → Bool
is_grantable r =
    program_given r.argv && (is_side_effect r.side_effect && within_600 r.timeout_seconds)

abbrev pub AllValid : List CommandPermission → Type 0
AllValid commands = (c : CommandPermission) → In c commands → command_permission c ≡ ok c

within-max : (a b : ℤ) → within_600 a ≡ true → within_600 b ≡ true → within_600 (max_ℤ a b) ≡ true
within-max a b h k = ground arith

within-zero : (a : ℤ) → within_600 a ≡ true → within_600 (max_ℤ a (pos 0)) ≡ true
within-zero a h = ground arith

valid_within :
    (c : CommandPermission) → command_permission c ≡ ok c → within_600 c.max_timeout_seconds ≡ true
unfolding command_permission
valid_within c h =
    elim (Bool-cases (
      not (str_eq c.argv0 "")
      && (is_side_effect c.side_effect && within_600 c.max_timeout_seconds))) [
        | inl t ↦ (&&-true (is_side_effect c.side_effect) _ (&&-true _ _ t).1).1
        | inr f ↦ cc (rw (f, command_permission) at h)
      ]

merged_within :
    (t : ℤ) (probe : CommandPermission) (commands : List CommandPermission)
    → within_600 t ≡ true
    → AllValid commands
    → within_600 (merged_timeout t (find_same same_key probe commands)) ≡ true
merged_within t probe commands h v = elim (Option-cases (find_same same_key probe commands)) [
  | inl e ↦ rw (e) (within-zero t h)
  | inr (c, e) ↦ rw (e) (
      within-max t c.max_timeout_seconds h
        (valid_within c (v c (find_same-In same_key probe c commands e).0)))
]

abbrev Granted? : Py (List CommandPermission) → Type 0
Granted? r = (commands : List CommandPermission) × ((r ≡ ok commands) × AllValid commands)

grant_command-total :
    (commands : List CommandPermission) (r : RunnerSpec) (argv : List String)
    → (program_given argv && (is_side_effect r.side_effect && within_600 r.timeout_seconds)) ≡ true
    → AllValid commands
    → Granted? (grant_command commands r argv)
unfolding grant_command command_permission
grant_command-total commands r [] h v = cc
grant_command-total commands r (argv0 ∷ prefix) h v =
    let (program, others) = &&-true (not (str_eq argv0 "")) _ h in
    let (effect, timeout) = &&-true (is_side_effect r.side_effect) _ others in
    let merged = merged_within r.timeout_seconds (entry_of r argv0 prefix) commands timeout v in
    (
      put_same same_key (written commands r argv0 prefix) commands,
      (
        rw (program, effect, merged) refl,
        λ c m. elim (put_same-After same_key (written commands r argv0 prefix) c commands m) [
          | inl e ↦
              subst (λ x. command_permission x ≡ ok x) (sym e)
                (rw (program, effect, merged, command_permission) refl)
          | inr (old, _) ↦ v c old
        ],
      ),
    )

pub grant_commands-total :
    (commands : List CommandPermission) (runners : List RunnerSpec)
    → All (λ r. is_grantable r ≡ true) runners
    → AllValid commands
    → Granted? (grant_commands commands runners)
unfolding grant_commands
grant_commands-total commands [] h v = (commands, (refl, v))
grant_commands-total commands (r ∷ rs) h v =
    let (updated, (e, w)) = grant_command-total commands r r.argv h.0 v in
    let (result, (f, x)) = grant_commands-total updated rs h.1 w in (result, (rw (e) f, x))

-- ===== src/Policy/Spec.antt =====
-- What an execution profile of pi-agent/src/safety_cards/policy_card.py permits, in relations.
use aads.Prelude.{
  any-In, In-any, ℕ, suc, ◌==◌, ◌||◌, &&-intro, length-append, String, ◌≡◌, ◌⊎◌, inl, inr, refl,
  true, false, Bool, List, [], ◌∷◌, ◌++◌, pos, ◌≤ℤ◌, length, take, All, In, ap, sym, ◌∙◌, arith,
  str_eq, str_eq_iff, strs_eq, strs_eq_iff, Bool-cases, &&-true, some, begins_with, contains,
  take-length_eq, take-length_append, ◌&&◌,
}
use aads.Policy.{
  RunnerSpec, CommandPermission, PathPermission, ExecutionProfile, str_or, int_or, matches,
  find_permission, within, covered, has_dotdot,
}
use aads.Policy.NormPath.{normpath}

-- The program and its arguments have the shape that the permission pins down.
pub record Grants (perm : CommandPermission) (argv0 : String) (args : List String) : Type 0 where
  pub program : argv0 ≡ perm.argv0
  pub extra : List String
  pub arguments : args ≡ perm.argv_prefix ++ extra
  pub exact : (perm.allow_extra_args ≡ true) ⊎ (extra ≡ [])

-- `perm` is the first permission of the list that grants the command.
pub data FirstGrant (argv0 : String) (args : List String) (perm : CommandPermission)
    : List CommandPermission → Type 0 where
  first :
      {p : CommandPermission} {perms : List CommandPermission}
      → perm ≡ p
      → Grants p argv0 args
      → FirstGrant argv0 args perm (p ∷ perms)
  later :
      {other : CommandPermission} {perms : List CommandPermission}
      → ¬ Grants other argv0 args
      → FirstGrant argv0 args perm perms
      → FirstGrant argv0 args perm (other ∷ perms)

append-nil_of_length : (p ys : List String) → length (p ++ ys) ≡ length p → ys ≡ []
append-nil_of_length [] [] h = refl
append-nil_of_length [] (y ∷ ys) h = absurd (omega arith)
append-nil_of_length (x ∷ p) ys h = append-nil_of_length p ys (omega arith)

exact_length : (free : Bool) (m n : ℕ) → (free || (suc m == suc n)) ≡ true → free ≡ false → m ≡ n
exact_length free m n h pinned = ground arith

length_test :
    (perm : CommandPermission) {argv0 : String} {args : List String} (g : Grants perm argv0 args)
    → (perm.allow_extra_args || (suc (length args) == suc (length perm.argv_prefix))) ≡ true
length_test perm g = elim g.exact [
  | inl free ↦ rw free
  | inr nothing ↦
      ground
        (arith, ap length g.arguments, ap length nothing, length-append perm.argv_prefix g.extra)
]

-- The two tests of the loop over `allowed_commands` decide the relation.
pub matches-Grants :
    (argv0 : String) (args : List String) (perm : CommandPermission)
    → matches argv0 args perm ≡ true
    → Grants perm argv0 args
unfolding matches
matches-Grants argv0 args perm h =
    let p = perm.argv_prefix in
    let (both, len) = &&-true (str_eq argv0 perm.argv0 && strs_eq (take (length p) args) p) _ h in
    let (program, front) =
      &&-true (str_eq argv0 perm.argv0) (strs_eq (take (length p) args) p) both in
    let (ys, e) = take-length_eq p args front in
    record {
      program = (str_eq_iff argv0 perm.argv0).0 program;
      extra = ys;
      arguments = e;
      exact = elim (Bool-cases perm.allow_extra_args) [
        | inl free ↦ inl free
        | inr pinned ↦
            inr (
              append-nil_of_length p ys (omega (arith, exact_length _ _ _ len pinned, ap length e)))
      ];
    }

pub Grants-matches :
    (argv0 : String) (args : List String) (perm : CommandPermission)
    → Grants perm argv0 args
    → matches argv0 args perm ≡ true
unfolding matches
Grants-matches argv0 args perm g =
    let p = perm.argv_prefix in
    &&-intro _ _
      (&&-intro _ _ ((str_eq_iff argv0 perm.argv0).1 g.program)
        ((strs_eq_iff _ _).1 (ap (take (length p)) g.arguments ∙ take-length_append p g.extra)))
      (length_test perm g)

pub find-FirstGrant :
    (argv0 : String) (args : List String) (perms : List CommandPermission)
    {perm : CommandPermission}
    → find_permission argv0 args perms ≡ some perm
    → FirstGrant argv0 args perm perms
unfolding find_permission
find-FirstGrant argv0 args [] h = cc
find-FirstGrant argv0 args (other ∷ perms) {perm} h = elim (Bool-cases (matches argv0 args other)) [
  | inl yes' ↦ first (cc (rw (yes', find_permission) at h)) (matches-Grants argv0 args other yes')
  | inr not' ↦
      later (λ g. cc (Grants-matches argv0 args other g))
        (find-FirstGrant argv0 args perms (rw (not', find_permission) at h))
]

pub FirstGrant-find :
    (argv0 : String) (args : List String) (perms : List CommandPermission)
    {perm : CommandPermission}
    → FirstGrant argv0 args perm perms
    → find_permission argv0 args perms ≡ some perm
unfolding find_permission
FirstGrant-find argv0 args [] f = elim f [ ]
FirstGrant-find argv0 args (p ∷ ps) (first e g) =
    rw (Grants-matches argv0 args p g) (ap some (sym e))
FirstGrant-find argv0 args (p ∷ ps) (later n f) = elim (Bool-cases (matches argv0 args p)) [
  | inl yes' ↦ absurd (n (matches-Grants argv0 args p yes'))
  | inr not' ↦ rw not' (FirstGrant-find argv0 args ps f)
]

-- One entry of the path permissions covers the path, in the wanted mode.
abbrev pub CoveredBy : List PathPermission → String → String → Type 0
CoveredBy path_perms target mode =
    (perm : PathPermission) × In perm path_perms
    × (within (normpath target) (normpath perm.path) ≡ true)
    × ((mode ≡ "") ⊎ (contains mode perm.mode ≡ true))

pub covered-CoveredBy :
    (ps : List PathPermission) (target mode : String)
    → covered ps target mode ≡ true
    → CoveredBy ps target mode
unfolding covered
covered-CoveredBy ps target mode h =
    let (perm, m, e) = any-In _ ps h in
    let (inside, granted) = &&-true (within (normpath target) (normpath perm.path)) _ e in
    (perm, m, inside, ground (arith, str_eq_iff mode ""))

pub CoveredBy-covered :
    (ps : List PathPermission) (target mode : String)
    → CoveredBy ps target mode
    → covered ps target mode ≡ true
unfolding covered
CoveredBy-covered ps target mode (perm, m, inside, granted) =
    In-any _ ps m (&&-intro _ _ inside (ground (arith, str_eq_iff mode "")))

-- An argument that is an absolute path has no `..` component and is covered.
abbrev pub PathOk : List PathPermission → String → Type 0
PathOk path_perms token =
    begins_with token "/" ≡ true → (has_dotdot token ≡ false) × CoveredBy path_perms token ""

-- What it takes for a profile to permit a runner.
pub record Permits (profile : ExecutionProfile) (runner : RunnerSpec) : Type 0 where
  pub argv0 : String
  pub args : List String
  pub argv : runner.argv ≡ argv0 ∷ args
  pub matched : CommandPermission
  pub granted : FirstGrant argv0 args matched profile.allowed_commands
  pub root : runner.as_root ≡ matched.as_root
  pub effect : str_or runner.side_effect "read" ≡ str_or matched.side_effect "read"
  pub timeout :
      int_or runner.timeout_seconds (pos 30) ≤ℤ int_or matched.max_timeout_seconds (pos 600)
  pub cwd_plain : has_dotdot (str_or runner.cwd "/") ≡ false
  pub cwd :
      (str_or runner.cwd "/" ≡ "/") ⊎ CoveredBy profile.path_permissions (str_or runner.cwd "/") "r"
  pub paths : All (PathOk profile.path_permissions) args
  pub env : runner.env ≡ []

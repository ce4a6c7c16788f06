-- ===== src/Catalog/Profile/PathsTotal.antt =====
-- The paths of `execution_profile_for` of layer2-analyzer/src/runner_catalog.py.
use mathlib.Core.Path.{subst}
use aads.Prelude.{
  ◌≡◌, refl, sym, inl, inr, String, ◌<>◌, Bool, true, ◌&&◌, ◌||◌, &&-true, &&-intro, List, [], ◌∷◌,
  In, here, there, str_eq, str_mem, str_eq_iff, Bool-cases, Option-cases, ◌∙◌, str_eq_refl,
  find_same, put_same, find_same-In, put_same-After, In-put_new, In-put_other, begins_with,
  text_len, All, if◌then◌else◌,
}
use aads.Python.{ok}
use aads.Policy.{PathPermission}
use aads.Catalog.Profile.{
  only_rwx, insert_char, path_permission, path_permissions_of, sorted_chars, same_path, merged_mode,
  grant_paths, grant_services,
}

-- the mode that every entry of the table of paths has
mode_of : String → String
mode_of path = if str_eq path "/dev/null" then "w" else "rw"

is_tabled : PathPermission → Bool
unfolding mode_of
is_tabled p = str_eq p.mode (mode_of p.path) && begins_with p.path "/"

abbrev AllTabled : List PathPermission → Type 0
AllTabled paths = (p : PathPermission) → In p paths → is_tabled p ≡ true

mode_twice : (path : String) → sorted_chars (mode_of path <> mode_of path) ≡ mode_of path
unfolding mode_of sorted_chars insert_char
mode_twice path = elim (Bool-cases (str_eq path "/dev/null")) [
  | inl t ↦ rw (t) refl
  | inr f ↦ rw (f) refl
]

merged_tabled :
    (e : PathPermission) (paths : List PathPermission)
    → is_tabled e ≡ true
    → AllTabled paths
    → merged_mode e.mode (find_same same_path e paths) ≡ mode_of e.path
unfolding is_tabled same_path
merged_tabled e paths h t =
    let mode =
      (str_eq_iff e.mode (mode_of e.path)).0 (&&-true (str_eq e.mode (mode_of e.path)) _ h).0 in
    elim (Option-cases (find_same same_path e paths)) [
      | inl none' ↦ rw (none') mode
      | inr (k, found) ↦
          let (m, same) = find_same-In same_path e k paths found in
          let path = (str_eq_iff e.path k.path).0 same in
          let known =
            (str_eq_iff k.mode (mode_of k.path)).0
              (&&-true (str_eq k.mode (mode_of k.path)) _ (t k m)).0 in
          rw (found) (rw (known, ← path, mode) (mode_twice e.path))
    ]

tabled_valid :
    (path : String)
    → begins_with path "/" ≡ true
    → path_permission (record { path = path; mode = mode_of path })
      ≡ ok (record { path = path; mode = mode_of path })
unfolding path_permission mode_of only_rwx text_len
tabled_valid path h = elim (Bool-cases (str_eq path "/dev/null")) [
  | inl t ↦ rw (t, h) refl
  | inr f ↦ rw (f, h) refl
]

-- A loop over entries returned: its paths are tabled, and it kept the old ones and has the new ones.
record Paths (old entries paths : List PathPermission) : Type 0 where
  tabled : AllTabled paths
  kept : (p : PathPermission) → In p old → (q : PathPermission) × In q paths × (q.path ≡ p.path)
  added :
      (p : PathPermission) → In p entries → (q : PathPermission) × In q paths × (q.path ≡ p.path)

put_tabled :
    (n : PathPermission) (paths : List PathPermission)
    → is_tabled n ≡ true
    → AllTabled paths
    → AllTabled (put_same same_path n paths)
put_tabled n paths h t p m = elim (put_same-After same_path n p paths m) [
  | inl e ↦ rw (e) h
  | inr (old, _) ↦ t p old
]

put_kept :
    (n p : PathPermission) (paths : List PathPermission)
    → In p paths
    → (q : PathPermission) × In q (put_same same_path n paths) × (q.path ≡ p.path)
unfolding same_path
put_kept n p paths m = elim (Bool-cases (same_path n p)) [
  | inl t ↦ (n, In-put_new same_path n paths, (str_eq_iff n.path p.path).0 t)
  | inr f ↦ (p, In-put_other same_path n p paths m f, refl)
]

written_tabled :
    (path : String)
    → begins_with path "/" ≡ true
    → is_tabled (record { path = path; mode = mode_of path }) ≡ true
unfolding is_tabled
written_tabled path h = &&-intro _ _ (str_eq_refl (mode_of path)) h

grant_paths-total :
    (paths entries : List PathPermission)
    → AllTabled paths
    → All (λ e. is_tabled e ≡ true) entries
    → (result : List PathPermission) × ((grant_paths paths entries ≡ ok result)
        × Paths paths entries result)
unfolding grant_paths is_tabled
grant_paths-total paths [] t a =
    (paths, (refl, record { tabled = t; kept = λ p m. (p, m, refl); added = λ p m. elim m [ ] }))
grant_paths-total paths (e ∷ entries) t a =
    let rooted = tabled_root e a.0 in
    let n : PathPermission = record { path = e.path; mode = mode_of e.path } in
    let (result, (f, rest)) =
      grant_paths-total (put_same same_path n paths) entries
        (put_tabled n paths (written_tabled e.path rooted) t) a.1 in
    (
      result,
      (
        rw (merged_tabled e paths a.0 t, tabled_valid e.path rooted) f,
        record {
          tabled = rest.tabled;
          kept = λ p m.
              let (q, n', e') = put_kept n p paths m in
              let (r, o, g) = rest.kept q n' in (r, o, g ∙ e');
          added = λ p m. elim m [
            | here same ↦
                let (r, o, g) = rest.kept n (In-put_new same_path n paths) in (r, o, rw (same) g)
            | there m' ↦ rest.added p m'
          ];
        },
      ),
    )
  where
    tabled_root : (e : PathPermission) → is_tabled e ≡ true → begins_with e.path "/" ≡ true
    tabled_root e h = (&&-true (str_eq e.mode (mode_of e.path)) _ h).1

entries_tabled : (service : String) → All (λ e. is_tabled e ≡ true) (path_permissions_of service)
unfolding path_permissions_of is_tabled mode_of begins_with
entries_tabled service = elim (Bool-cases (str_eq service "nginx")) [
  | inl t ↦ rw (t) (refl, (refl, (refl, tt)))
  | inr f ↦ elim (Bool-cases (str_eq service "postgresql")) [
    | inl t ↦ rw (f, t) (refl, (refl, tt))
    | inr g ↦ elim (Bool-cases (str_eq service "redis")) [
      | inl t ↦ rw (f, g, t) (refl, (refl, tt))
      | inr h ↦ elim (Bool-cases (str_eq service "mysql")) [
        | inl t ↦ rw (f, g, h, t) (refl, (refl, tt))
        | inr i ↦ rw (f, g, h, i) tt
      ]
    ]
  ]
]

abbrev null_entry : PathPermission
null_entry = record { path = "/dev/null"; mode = "w" }

nginx_entry : In null_entry (path_permissions_of "nginx")
unfolding path_permissions_of
nginx_entry = here refl

-- The paths of services: all tabled, and with the one that a probe of nginx writes to.
pub record ServicePaths (services : List String) (paths : List PathPermission) : Type 0 where
  pub valid : (p : PathPermission) → In p paths → path_permission p ≡ ok p
  pub null :
      str_mem "nginx" services ≡ true → (q : PathPermission) × In q paths × (q.path ≡ "/dev/null")

tabled-valid : (p : PathPermission) → is_tabled p ≡ true → path_permission p ≡ ok p
unfolding is_tabled
tabled-valid p h =
    let (mode, root) = &&-true (str_eq p.mode (mode_of p.path)) _ h in
    let e = (str_eq_iff p.mode (mode_of p.path)).0 mode in
    subst
      (λ m.
        path_permission (record { path = p.path; mode = m })
        ≡ ok (record { path = p.path; mode = m }))
      (sym e) (tabled_valid p.path root)

record Served (old : List PathPermission) (services : List String) (paths : List PathPermission)
    : Type 0 where
  tabled : AllTabled paths
  kept : (p : PathPermission) → In p old → (q : PathPermission) × In q paths × (q.path ≡ p.path)
  null :
      str_mem "nginx" services ≡ true → (q : PathPermission) × In q paths × (q.path ≡ "/dev/null")

grant_services-Served :
    (paths : List PathPermission) (services : List String)
    → AllTabled paths
    → (result : List PathPermission) × ((grant_services paths services ≡ ok result)
        × Served paths services result)
unfolding grant_services
grant_services-Served paths [] t =
    (paths, (refl, record { tabled = t; kept = λ p m. (p, m, refl); null = λ h. cc (h) }))
grant_services-Served paths (s ∷ services) t =
    let (updated, (e, first)) =
      grant_paths-total paths (path_permissions_of s) t (entries_tabled s) in
    let (result, (f, rest)) = grant_services-Served updated services first.tabled in
    (
      result,
      (
        rw (e) f,
        record {
          tabled = rest.tabled;
          kept = λ p m.
              let (q, n, g) = first.kept p m in let (r, o, k) = rest.kept q n in (r, o, k ∙ g);
          null = λ h. elim (Bool-cases (str_eq "nginx" s)) [
            | inl same ↦
                let e' = (str_eq_iff "nginx" s).0 same in
                let (q, n, g) =
                  first.added null_entry
                    (subst (λ x. In null_entry (path_permissions_of x)) e' nginx_entry) in
                let (r, o, k) = rest.kept q n in (r, o, k ∙ g)
            | inr other ↦ rest.null (rw (other, ◌||◌) at h)
          ];
        },
      ),
    )

pub grant_services-total :
    (services : List String)
    → (paths : List PathPermission) × ((grant_services [] services ≡ ok paths)
        × ServicePaths services paths)
grant_services-total services =
    let (paths, (e, served)) = grant_services-Served [] services (λ p m. elim m [ ]) in
    (paths, (e, record { valid = λ p m. tabled-valid p (served.tabled p m); null = served.null }))

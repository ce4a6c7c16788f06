-- ===== src/Agent/Health.antt =====
-- `health_problems` and `sudoers_health_problems` of pi-agent/src/main.py. What `stat` and
-- `sudo -n -l` report is the argument.
use Prim.Native.Nat.{◌/◌, ◌%◌}
use aads.Prelude.{
  ℕ, ◌≡◌, ◌↔◌, ◌⊎◌, inl, inr, refl, Bool, true, not, ◌&&◌, ◌||◌, Option, none, some, List, [], ◌∷◌,
  ◌++◌, ℤ, pos, eq_ℤ, arith, ◌==◌, if◌then◌else◌,
}

pub record FileStat : Type 0 where
  pub uid : ℕ
  pub gid : ℕ
  pub mode : ℕ

-- `exists` and `stat` of the sudoers file: absent, found, or `PermissionError`
pub data Sudoers : Type 0 where
  absent : Sudoers
  found : FileStat → Sudoers
  protected : Sudoers

-- `sudo -n -l ROOT_RUNNER`: an exception, or a return code
pub data SudoCheck : Type 0 where
  check_failed : SudoCheck
  answered : ℤ → SudoCheck

pub record Node : Type 0 where
  pub node_id_exists : Bool
  pub root_runner : Option FileStat
  pub sudoers : Sudoers
  pub sudo : SudoCheck

pub data Problem : Type 0 where
  missing_node_id missing_root_runner root_runner_not_root_owned root_runner_writable : Problem
  missing_sudoers sudoers_not_root_owned sudoers_mode sudoers_check_failed sudoers_not_allowed :
      Problem

-- `if test: problems.append(p)`
abbrev report : Bool → Problem → List Problem
report test p = if test then p ∷ [] else []

-- `st_mode & stat.S_IWGRP`, `st_mode & stat.S_IWOTH`, `stat.S_IMODE(st_mode)`
abbrev group_writable : ℕ → Bool
group_writable mode = mode / 16 % 2 == 1

abbrev other_writable : ℕ → Bool
other_writable mode = mode / 2 % 2 == 1

abbrev permission_bits : ℕ → ℕ
permission_bits mode = mode % 4096

abbrev root_owned : FileStat → Bool
root_owned st = st.uid == 0 && st.gid == 0

root_runner_problems : Option FileStat → List Problem
root_runner_problems none = missing_root_runner ∷ []
root_runner_problems (some st) =
    report (not (root_owned st)) root_runner_not_root_owned
    ++ report (group_writable st.mode || other_writable st.mode) root_runner_writable

sudoers_file_problems : Sudoers → List Problem
sudoers_file_problems absent = missing_sudoers ∷ []
sudoers_file_problems (found st) =
    report (not (root_owned st)) sudoers_not_root_owned
    ++ report (not (permission_bits st.mode == 0o440)) sudoers_mode
sudoers_file_problems protected = []

sudo_problems : SudoCheck → List Problem
sudo_problems check_failed = sudoers_check_failed ∷ []
sudo_problems (answered returncode) = report (not (eq_ℤ returncode (pos 0))) sudoers_not_allowed

unfoldable pub sudoers_health_problems : Node → List Problem
unfolding sudoers_file_problems sudo_problems
sudoers_health_problems node = sudoers_file_problems node.sudoers ++ sudo_problems node.sudo

unfoldable pub health_problems : Node → List Problem
unfolding root_runner_problems sudoers_health_problems
health_problems node =
    report (not node.node_id_exists) missing_node_id
    ++ (root_runner_problems node.root_runner ++ sudoers_health_problems node)

-- Root owns the file, and neither its group nor others may write it.
pub record IsSealed (st : FileStat) : Type 0 where
  pub uid : st.uid ≡ 0
  pub gid : st.gid ≡ 0
  pub group : st.mode / 16 % 2 ≡ 0
  pub other : st.mode / 2 % 2 ≡ 0

pub record IsHealthy (node : Node) : Type 0 where
  pub node_id : node.node_id_exists ≡ true
  pub runner : FileStat
  pub runner_found : node.root_runner ≡ some runner
  pub runner_sealed : IsSealed runner
  pub sudoers_file :
      (node.sudoers ≡ protected)
      ⊎ ((st : FileStat) × (node.sudoers ≡ found st)
          × (st.uid ≡ 0)
          × (st.gid ≡ 0)
          × (permission_bits st.mode ≡ 0o440))
  pub grant : node.sudo ≡ answered (pos 0)

append-eq-nil : (xs ys : List Problem) → xs ++ ys ≡ [] → (xs ≡ []) × (ys ≡ [])
append-eq-nil [] ys h = (refl, h)
append-eq-nil (x ∷ xs) ys h = cc

root_runner_sound :
    (o : Option FileStat)
    → root_runner_problems o ≡ []
    → (st : FileStat) × (o ≡ some st) × IsSealed st
unfolding root_runner_problems
root_runner_sound none h = cc
root_runner_sound (some st) h = (st, refl, ground arith)

sudoers_file_sound :
    (s : Sudoers)
    → sudoers_file_problems s ≡ []
    → (s ≡ protected)
      ⊎ ((st : FileStat) × (s ≡ found st)
          × (st.uid ≡ 0)
          × (st.gid ≡ 0)
          × (permission_bits st.mode ≡ 0o440))
unfolding sudoers_file_problems
sudoers_file_sound absent h = cc
sudoers_file_sound (found st) h = inr (st, refl, ground arith, ground arith, ground arith)
sudoers_file_sound protected h = inl refl

sudo_sound : (s : SudoCheck) → sudo_problems s ≡ [] → s ≡ answered (pos 0)
unfolding sudo_problems
sudo_sound check_failed h = cc
sudo_sound (answered returncode) h = ground arith

health_problems-IsHealthy : (node : Node) → health_problems node ≡ [] → IsHealthy node
unfolding health_problems
health_problems-IsHealthy node h =
    let (first, rest) = append-eq-nil _ _ h in
    let (second, others) = append-eq-nil _ _ rest in
    let (third, fourth) = append-eq-nil _ _ others in
    let (st, e, sealed) = root_runner_sound node.root_runner second in
    record {
      node_id = ground arith;
      runner = st;
      runner_found = e;
      runner_sealed = sealed;
      sudoers_file = sudoers_file_sound node.sudoers third;
      grant = sudo_sound node.sudo fourth;
    }

sudoers_file_complete :
    (s : Sudoers)
    → ((s ≡ protected)
        ⊎ ((st : FileStat) × (s ≡ found st)
            × (st.uid ≡ 0)
            × (st.gid ≡ 0)
            × (permission_bits st.mode ≡ 0o440)))
    → sudoers_file_problems s ≡ []
unfolding sudoers_file_problems
sudoers_file_complete s h = ground arith

root_runner_complete : (st : FileStat) → IsSealed st → root_runner_problems (some st) ≡ []
unfolding root_runner_problems
root_runner_complete st h = ground arith

IsHealthy-health_problems : (node : Node) → IsHealthy node → health_problems node ≡ []
unfolding health_problems
IsHealthy-health_problems node h =
    rw (h.node_id, h.runner_found, root_runner_complete h.runner h.runner_sealed)
      (rw (sudoers_file_complete node.sudoers h.sudoers_file) (rw h.grant))

-- No problem is reported exactly if the node identity is there, the root runner is there, owned by
-- root and writable by neither its group nor others, the sudoers file is unreadable or owned by
-- root with the mode 0440, and `sudo -n -l` grants the root runner.
pub health_problems_iff : (node : Node) → (health_problems node ≡ []) ↔ IsHealthy node
health_problems_iff node = (health_problems-IsHealthy node, IsHealthy-health_problems node)

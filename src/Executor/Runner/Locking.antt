-- ===== src/Executor/Runner/Locking.antt =====
-- The node lock of layer4-executor/src/executor.py: taking it, its lifetime, and giving it back.
use mathlib.Core.Path.{subst}
use Prim.Native.Nat.{◌*◌}
use aads.Prelude.{
  ℕ, zero, suc, ◌+◌, ◌≤◌, ◌<◌, String, ◌≡◌, ◌≢◌, refl, sym, ◌∙◌, ap, Bool, true, false, ◌&&◌, ◌⊎◌,
  inl, inr, Option, none, some, List, [], ◌∷◌, arith, str_eq, str_eq_iff, str_eq_refl, ltb, ◌==◌,
  Bool-cases, Option-cases,
}
use aads.Python.{Fields, end}
use aads.Store.{Lock, fetchrow, update, delete, add_audit}
use aads.Executor.Effect.{
  Env, World, M, pure, change, finally, Call, call_agent, timed_call, audit, upsert_step, Transport,
  success,
}
use aads.Executor.Runner.{
  is_lock_of, insert_lock, release_lock, Command, mark_running, audited, retried, settle,
  attempt_loop, with_lock, RunStatus,
}
use aads.Executor.Effect.Steps.{Frame, Stays, Stays-pure, Stays-if, Stays-bind}

-- No lock on the node, or one that has expired.
abbrev pub Expired : ℕ → Option Lock → Type 0
Expired now none = Unit {0}
Expired now (some l) = l.expires_at < now

abbrev pub IsFree : ℕ → String → List Lock → Type 0
IsFree now node_id locks = Expired now (fetchrow (is_lock_of node_id) locks)

fetch-update_self :
    (node_id : String) (new : Lock) (locks : List Lock) (old : Lock)
    → new.node_id ≡ node_id
    → fetchrow (is_lock_of node_id) locks ≡ some old
    → fetchrow (is_lock_of node_id) (update (is_lock_of node_id) (λ _. new) locks) ≡ some new
unfolding fetchrow update
fetch-update_self node_id new [] old e h = cc
fetch-update_self node_id new (l ∷ ls) old e h =
    ground (arith, fetch-update_self node_id new ls old e, str_eq_iff new.node_id node_id)

fetch-update_ne :
    (node_id other : String) (new : Lock) (locks : List Lock)
    → new.node_id ≡ node_id
    → other ≢ node_id
    → fetchrow (is_lock_of other) (update (is_lock_of node_id) (λ _. new) locks)
      ≡ fetchrow (is_lock_of other) locks
unfolding fetchrow update
fetch-update_ne node_id other new [] e n = refl
fetch-update_ne node_id other new (l ∷ ls) e n = ground (
  arith,
  fetch-update_ne node_id other new ls e n,
  str_eq_iff new.node_id other,
  str_eq_iff l.node_id node_id,
  str_eq_iff l.node_id other,
)

fetch-insert :
    (new : Lock) (locks : List Lock) → fetchrow (is_lock_of new.node_id) (new ∷ locks) ≡ some new
unfolding fetchrow
fetch-insert new locks = rw (str_eq_refl new.node_id)

fetch-insert_ne :
    (node_id : String) (new : Lock) (locks : List Lock)
    → node_id ≢ new.node_id
    → fetchrow (is_lock_of node_id) (new ∷ locks) ≡ fetchrow (is_lock_of node_id) locks
unfolding fetchrow
fetch-insert_ne node_id new locks n = ground (arith, str_eq_iff new.node_id node_id)

-- What taking the lock of `new`'s node gives, for that node and for another.
pub record Inserted (now : ℕ) (new : Lock) (locks : List Lock) (other : String)
    (result : List Lock × Bool) : Type 0 where
  pub outcome :
      ((result.1 ≡ true)
        × (IsFree now new.node_id locks × (fetchrow (is_lock_of new.node_id) result.0 ≡ some new)))
      ⊎ ((result.1 ≡ false) × ((result.0 ≡ locks) × ¬ IsFree now new.node_id locks))
  pub others : fetchrow (is_lock_of other) result.0 ≡ fetchrow (is_lock_of other) locks

free_at :
    (now : ℕ) (new : Lock) (locks : List Lock) (o : Option Lock)
    → fetchrow (is_lock_of new.node_id) locks ≡ o
    → Expired now o
    → IsFree now new.node_id locks
free_at now new locks o e h = subst (Expired now) (sym e) h

held_not :
    (now : ℕ) (new : Lock) (locks : List Lock) (old : Lock)
    → fetchrow (is_lock_of new.node_id) locks ≡ some old
    → ltb old.expires_at now ≡ false
    → ¬ IsFree now new.node_id locks
held_not now new locks old e held free =
    let before : old.expires_at < now = subst (Expired now) e free in ground (arith, before, held)

-- Taking a lock succeeds exactly if the node has none or an expired one; then the node's lock is the
-- new one. Otherwise nothing changes. The lock of another node is not touched either way.
pub insert_lock-Inserted :
    (now : ℕ) (new : Lock) (locks : List Lock) (other : String)
    → other ≢ new.node_id
    → Inserted now new locks other (insert_lock now new locks)
unfolding insert_lock
insert_lock-Inserted now new locks other ne =
    elim (Option-cases (fetchrow (is_lock_of new.node_id) locks)) [
      | inl missing ↦
          rw (missing, insert_lock)
            (record {
              outcome = inl (refl, (free_at now new locks none missing tt, fetch-insert new locks));
              others = fetch-insert_ne other new locks ne;
            })
      | inr (old, e) ↦ (elim (Bool-cases (ltb old.expires_at now)) [
        | inl expired ↦
            rw (e, insert_lock)
              (rw expired (record {
                outcome = inl (
                  refl,
                  (
                    free_at now new locks (some old) e (ground (arith, expired)),
                    fetch-update_self new.node_id new locks old refl e,
                  ),
                );
                others = fetch-update_ne new.node_id other new locks refl ne;
              }))
        | inr held ↦
            rw (e, insert_lock)
              (rw held (record {
                outcome = inr (refl, (refl, λ free. held_not now new locks old e held free));
                others = refl;
              }))
      ])
    ]

within :
    (n count limit start finish ttl : ℕ)
    → finish ≤ start + count * limit
    → count ≤ n
    → n ≤ 2
    → 2 * limit ≤ ttl
    → finish ≤ start + ttl
within n zero limit start finish ttl a b c d = ground arith
within n (suc zero) limit start finish ttl a b c d = ground arith
within n (suc (suc zero)) limit start finish ttl a b c d = ground arith
within n (suc (suc (suc k))) limit start finish ttl a b c d = ground arith

delete-fetch : (p : Lock → Bool) (locks : List Lock) → fetchrow p (delete p locks) ≡ none
unfolding fetchrow delete
delete-fetch p [] = refl
delete-fetch p (l ∷ ls) = ground (arith, delete-fetch p ls)

delete-fetch_ne :
    (node_id other : String) (id : ℕ) (locks : List Lock)
    → other ≢ node_id
    → fetchrow
        (is_lock_of other)
        (delete (λ (l : Lock). str_eq l.node_id node_id && l.lock_id == id) locks)
      ≡ fetchrow (is_lock_of other) locks
unfolding fetchrow delete
delete-fetch_ne node_id other id [] n = refl
delete-fetch_ne node_id other id (l ∷ ls) n = ground (
  arith,
  delete-fetch_ne node_id other id ls n,
  str_eq_iff l.node_id node_id,
  str_eq_iff l.node_id other,
)

-- What does not touch the locks.
abbrev SameLocks : World → World → Type 0
SameLocks u v = v.db.locks ≡ u.db.locks

same_locks : Frame SameLocks
same_locks = record { same = λ w. refl; then' = λ u v w p q. q ∙ p }

audit-SameLocks : (e p d r : String) → Stays SameLocks (audit e p d r)
unfolding audit change add_audit
audit-SameLocks e p d r = record { at = λ w. refl }

timed_call-SameLocks : (env : Env) (c : Call) → Stays SameLocks (timed_call env c)
unfolding timed_call call_agent
timed_call-SameLocks env c = record { at = λ w. refl }

mark_running-SameLocks :
    (cmd : Command) (label : String) (k : ℕ) → Stays SameLocks (mark_running cmd label k)
unfolding mark_running upsert_step change pure
mark_running-SameLocks cmd label k = record { at = λ w. ground arith }

ruleset locks_rules = (
  audit-SameLocks, timed_call-SameLocks, mark_running-SameLocks, same_locks, Stays-pure, Stays-if,
  Stays-bind,
)

module _ (env : Env) (cmd : Command) where
  audited-SameLocks :
      (e r : String) (a : RunStatus × Fields) → Stays SameLocks (audited env cmd e r a)
  unfolding audited
  audited-SameLocks e r a = search locks_rules

  retried-SameLocks :
      (again : M (RunStatus × Fields))
      → Stays SameLocks again
      → Stays SameLocks (retried env cmd again)
  unfolding retried
  retried-SameLocks again h = search locks_rules

  settle-SameLocks :
      (t : Transport) (rest : ℕ) (payload : Fields) (again : M (RunStatus × Fields))
      → Stays SameLocks again
      → Stays SameLocks (settle env cmd t rest payload again)
  unfolding settle
  settle-SameLocks success rest payload again h =
      search (locks_rules, audited-SameLocks, retried-SameLocks)
  settle-SameLocks _ rest payload again h =
      search (locks_rules, audited-SameLocks, retried-SameLocks)

  attempt_loop-SameLocks :
      (label : String) (n k : ℕ) (last : Fields)
      → Stays SameLocks (attempt_loop env cmd label n k last)
  unfolding attempt_loop
  attempt_loop-SameLocks label zero k last = audited-SameLocks _ _ _
  attempt_loop-SameLocks label (suc n) k last =
      Stays-bind same_locks _ _ (mark_running-SameLocks cmd label k) λ _.
        Stays-bind same_locks _ _ (audit-SameLocks _ _ _ _) λ _.
          Stays-bind same_locks _ _ (timed_call-SameLocks env _)
            λ a. settle-SameLocks a.0 n _ _ (attempt_loop-SameLocks label n (suc k) _)

  -- However the attempts end, also by an exception, the lock that was taken for them is gone
  -- afterwards, and the lock of another node is what it was.
  pub with_lock_releases :
      (label : String) (n id : ℕ) (w : World) (other : String)
      → other ≢ cmd.node.node_id
      → (fetchrow
            (λ (l : Lock). str_eq l.node_id cmd.node.node_id && l.lock_id == id)
            (with_lock env cmd label n (some id) w).1.db.locks
          ≡ none)
        × (fetchrow (is_lock_of other) (with_lock env cmd label n (some id) w).1.db.locks
            ≡ fetchrow (is_lock_of other) w.db.locks)
  unfolding with_lock finally release_lock
  with_lock_releases label n id w other ne =
      let same = (attempt_loop-SameLocks label n 0 end).at w in
      (
        delete-fetch _ _,
        delete-fetch_ne cmd.node.node_id other id _ ne ∙ ap (fetchrow (is_lock_of other)) same,
      )

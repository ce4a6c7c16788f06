-- ===== src/Executor/Plan/Cleared.antt =====
-- The checks of `execute_plan` in layer4-executor/src/executor.py that come before any command.
use aads.Prelude.{
  ◌≡◌, refl, ap, ◌∙◌, ◌⊎◌, inl, inr, String, Bool, true, false, Bool-cases, Option, none, some,
  rstrip, if◌then◌else◌,
}
use aads.Python.{Py, ok, raise, Json, Fields, obj, end, get, or_else, as_dict, item}
use aads.Store.{failed_retryable, Diagnosis, AgentNode, fetchrow, is_report, approval_valid}
use aads.Executor.Effect.{
  Env, World, M, ◌>>=◌, pure, lift, gets, audit, call_agent, classify, length, get_facts, Transport,
  success, error, change,
}
use aads.Executor.Effect.Steps.{Stays, Stays-bind}
use aads.Executor.Effect.Calls.{SameCalls, SameCalls-Frame, audit-SameCalls, commands}
use aads.Executor.Validate.{validate_plan, plan_auto_allowed, environment_allowed}
use aads.Executor.Close.{finish_execution}
use aads.Executor.Recover.{load_node, text_of, is_node, reach, reached}
use aads.Executor.Plan.{
  execute_plan, check_plan, check_approval, check_hash, check_node, check_reached, check_valid,
  check_stored, check_environment, hash_differs, because, approval_plan_hash, effective_schema,
  blocked_by,
}
use aads.Executor.Close.Calls.{pause_execution-SameCalls, finish_execution-SameCalls}

blocked_by-SameCalls : (env : Env) (e p r : String) → Stays SameCalls (blocked_by env e p r)
unfolding blocked_by
blocked_by-SameCalls env e p r =
    Stays-bind SameCalls-Frame _ _ (audit-SameCalls _ _ _ _) λ _. finish_execution-SameCalls _ _ _

-- The target of the plan is a registered node whose agent has answered, and the plan's policy allows
-- its environment.
pub record Ready (env : Env) (plan : Fields) (w : World) : Type 0 where
  pub target : Json
  pub named : item plan "target_node_id" ≡ ok target
  pub node : AgentNode
  pub registered : fetchrow (is_node target) w.db.nodes ≡ some node
  pub reachable :
      (classify (env.answer (length w.calls) (get_facts (rstrip b'/' node.base_url)))).0 ≡ success
  pub policy : Fields
  pub stated : as_dict (or_else (get plan "environment_policy") (obj end)) ≡ ok policy
  pub permitted : environment_allowed node.environment policy ≡ true

-- The stored plan is valid; it is approved at this time or allowed without; and it has the hash that
-- the latest approval recorded, if that recorded one.
pub record Cleared (env : Env) (plan_id : String) (w : World) : Type 0 where
  pub diagnosis : Diagnosis
  pub stored : fetchrow (is_report plan_id) w.db.reports ≡ some diagnosis
  pub valid : validate_plan diagnosis.action_plan (effective_schema diagnosis) ≡ ok none
  pub allowed :
      (approval_valid w.now plan_id w.db ≡ true)
      ⊎ (plan_auto_allowed diagnosis.action_plan ≡ ok true)
  pub same_hash : hash_differs env diagnosis.action_plan (approval_plan_hash plan_id w.db) ≡ false
  pub ready : Ready env diagnosis.action_plan w

abbrev SameCommands : World → World → Type 0
SameCommands u v = commands v.calls ≡ commands u.calls

quiet : {m : M (Unit {0})} → Stays SameCalls m → (w : World) → SameCommands w (m w).1
quiet s w = ap commands (s.at w)

-- An action sends no command, or `P` holds.
abbrev Unless : Type 0 → World → World → Type 0
Unless P u v = SameCommands u v ⊎ P

lift-Unless :
    {A P : Type 0} (r : Py A) (f : A → M (Unit {0})) (w : World)
    → ((a : A) → r ≡ ok a → Unless P w (f a w).1)
    → Unless P w ((lift r >>= f) w).1
unfolding ◌>>=◌ lift
lift-Unless (ok a) f w h = h a refl
lift-Unless (raise e) f w h = inl refl

lift_bind-Unless :
    {A B P : Type 0} (r : Py A) (f : A → M B) (g : B → M (Unit {0})) (w : World)
    → ((a : A) → r ≡ ok a → Unless P w ((f a >>= g) w).1)
    → Unless P w ((lift r >>= f >>= g) w).1
unfolding ◌>>=◌ lift
lift_bind-Unless (ok a) f g w h = h a refl
lift_bind-Unless (raise e) f g w h = inl refl

if-Unless :
    {P : Type 0} (b : Bool) (m n : M (Unit {0})) (w : World)
    → (b ≡ true → Unless P w (m w).1)
    → (b ≡ false → Unless P w (n w).1)
    → Unless P w ((if b then m else n) w).1
if-Unless true m n w hm hn = hm refl
if-Unless false m n w hm hn = hn refl

module _ (env : Env) (execution_id plan_id : String) where
  abbrev Permitted : Fields → AgentNode → Type 0
  Permitted plan node =
      (policy : Fields) × ((as_dict (or_else (get plan "environment_policy") (obj end)) ≡ ok policy)
        × (environment_allowed node.environment policy ≡ true))

  check_environment-Permitted :
      (plan : Fields) (node : AgentNode) (w : World)
      → Unless (Permitted plan node) w (check_environment env execution_id plan_id plan node w).1
  unfolding check_environment
  check_environment-Permitted plan node w = lift-Unless _ _ w λ policy e.
      if-Unless _ _ _ w (λ t. inr (policy, (e, t)))
        (λ _. inl (quiet (blocked_by-SameCalls env _ _ _) w))

  unreached-Same :
      (plan : Fields) (w : World)
      → SameCommands w
          (finish_execution execution_id failed_retryable
            (because "agent_unreachable_or_unknown")
            w).1
  unreached-Same plan w = quiet (finish_execution-SameCalls _ _ _) w

  reached-Permitted :
      (plan : Fields) (node : AgentNode) (t : Transport) (w : World)
      → Unless
          ((t ≡ success) × Permitted plan node)
          w
          ((reached plan_id node t >>= check_reached env execution_id plan_id plan) w).1
  unfolding reached ◌>>=◌ pure audit change check_reached
  reached-Permitted plan node success w = elim (check_environment-Permitted plan node w) [
    | inl same ↦ inl same
    | inr permitted ↦ inr (refl, permitted)
  ]
  reached-Permitted plan node Transport.blocked w = inl (unreached-Same plan _)
  reached-Permitted plan node error w = inl (unreached-Same plan _)

  Answered : Fields → Option AgentNode → World → Type 0
  Answered plan found w =
      (node : AgentNode) × ((found ≡ some node)
        × (((classify (env.answer (length w.calls) (get_facts (rstrip b'/' node.base_url)))).0
              ≡ success)
            × Permitted plan node))

  -- the part of `check_node` after the target has been looked up
  reach-Answered :
      (plan : Fields) (found : Option AgentNode) (w : World)
      → Unless
          (Answered plan found w)
          w
          ((reach env plan_id found >>= check_reached env execution_id plan_id plan) w).1
  unfolding reach ◌>>=◌ pure audit change call_agent check_reached commands Answered
  reach-Answered plan none w = inl (unreached-Same plan _)
  reach-Answered plan (some node) w = elim (reached-Permitted plan node _ _) [
    | inl same ↦ inl same
    | inr (answered, permitted) ↦ inr (node, (refl, (answered, permitted)))
  ]

  load_node-Ready :
      (plan : Fields) (target : Json) (w : World)
      → item plan "target_node_id" ≡ ok target
      → Unless
          (Ready env plan w)
          w
          ((load_node env plan_id target >>= check_reached env execution_id plan_id plan) w).1
  unfolding load_node gets ◌>>=◌ Answered
  load_node-Ready plan target w named =
      lift_bind-Unless (text_of target) _ (check_reached env execution_id plan_id plan) w λ _ _.
        elim (reach-Answered plan (fetchrow (is_node target) w.db.nodes) w) [
          | inl same ↦ inl same
          | inr (node, (registered, (reachable, (policy, (stated, permitted))))) ↦ inr (record {
            target = target;
            named = named;
            node = node;
            registered = registered;
            reachable = reachable;
            policy = policy;
            stated = stated;
            permitted = permitted;
          })
        ]

  check_node-Ready :
      (plan : Fields) (w : World)
      → Unless (Ready env plan w) w (check_node env execution_id plan_id plan w).1
  unfolding check_node
  check_node-Ready plan w = lift-Unless _ _ w (λ target named. load_node-Ready plan target w named)

  check_hash-Ready :
      (plan : Fields) (w : World)
      → Unless
          ((hash_differs env plan (approval_plan_hash plan_id w.db) ≡ false) × Ready env plan w)
          w
          (check_hash env execution_id plan_id plan w).1
  unfolding check_hash ◌>>=◌ gets
  check_hash-Ready plan w =
      if-Unless (hash_differs env plan (approval_plan_hash plan_id w.db)) _ _ w
        (λ _. inl (quiet (pause_execution-SameCalls _ _ _) w))
        (λ same. elim (check_node-Ready plan w) [ inl q ↦ inl q | inr ready ↦ inr (same, ready) ])

  Allowed : Fields → World → Type 0
  Allowed plan w = (approval_valid w.now plan_id w.db ≡ true) ⊎ (plan_auto_allowed plan ≡ ok true)

  check_approval-Allowed :
      (plan : Fields) (w : World) (b : Bool)
      → (if approval_valid w.now plan_id w.db then ok true else plan_auto_allowed plan) ≡ ok b
      → b ≡ true
      → Allowed plan w
  unfolding Allowed
  check_approval-Allowed plan w b e t = elim (Bool-cases (approval_valid w.now plan_id w.db)) [
    | inl valid ↦ inl valid
    | inr f ↦ inr (rw (f) at (e ∙ ap ok t))
  ]

  Checked : Fields → World → Type 0
  Checked plan w =
      Allowed plan w
      × ((hash_differs env plan (approval_plan_hash plan_id w.db) ≡ false) × Ready env plan w)

  check_approval-Checked :
      (plan : Fields) (w : World)
      → Unless (Checked plan w) w (check_approval env execution_id plan_id plan w).1
  unfolding check_approval ◌>>=◌ gets Checked
  check_approval-Checked plan w =
      lift-Unless (if approval_valid w.now plan_id w.db then ok true else plan_auto_allowed plan) _
        w
        λ b e.
          if-Unless b _ _ w
            (λ t. elim (check_hash-Ready plan w) [
              | inl q ↦ inl q
              | inr rest ↦ inr (check_approval-Allowed plan w b e t, rest)
            ])
            (λ _. inl (quiet (blocked_by-SameCalls env _ _ _) w))

  check_valid-Checked :
      (plan : Fields) (o : Option String) (w : World)
      → Unless ((o ≡ none) × Checked plan w) w (check_valid env execution_id plan_id plan o w).1
  unfolding check_valid
  check_valid-Checked plan none w = elim (check_approval-Checked plan w) [
    | inl q ↦ inl q
    | inr c ↦ inr (refl, c)
  ]
  check_valid-Checked plan (some reason) w = inl (quiet (blocked_by-SameCalls env _ _ _) w)

  check_stored-Cleared :
      (o : Option Diagnosis) (w : World)
      → fetchrow (is_report plan_id) w.db.reports ≡ o
      → Unless (Cleared env plan_id w) w (check_stored env execution_id plan_id o w).1
  unfolding check_stored check_plan Checked Allowed
  check_stored-Cleared none w stored = inl (quiet (finish_execution-SameCalls _ _ _) w)
  check_stored-Cleared (some d) w stored =
      lift-Unless (validate_plan d.action_plan (effective_schema d)) _ w λ o e.
        elim (check_valid-Checked d.action_plan o w) [
          | inl q ↦ inl q
          | inr (valid, (allowed, (same_hash, ready))) ↦ inr (record {
            diagnosis = d;
            stored = stored;
            valid = e ∙ ap ok valid;
            allowed = allowed;
            same_hash = same_hash;
            ready = ready;
          })
        ]

-- Executing a plan sends no command to a node, or the plan is stored and valid, it is approved at
-- that time or may run without, its hash is the one that the latest approval recorded (if that
-- recorded one), and the target is a registered node whose agent answers and whose environment the
-- plan's policy allows.
pub execute_plan-Cleared :
    (env : Env) (execution_id plan_id : String) (w : World)
    → (commands (execute_plan env execution_id plan_id w).1.calls ≡ commands w.calls)
      ⊎ Cleared env plan_id w
unfolding execute_plan ◌>>=◌ gets
execute_plan-Cleared env execution_id plan_id w =
    check_stored-Cleared env execution_id plan_id _ w refl

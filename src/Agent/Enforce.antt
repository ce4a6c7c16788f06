-- ===== src/Agent/Enforce.antt =====
-- `/v1/commands/run` of pi-agent/src/main.py: launches and answers.
use aads.Prelude.{
  String, ◌<>◌, ◌≡◌, ◌≢◌, ◌⊎◌, inl, inr, refl, false, Option, none, some, List, [], ◌∷◌, arith,
  str_eq, str_eq_iff, if◌then◌else◌,
}
use aads.Policy.{RunnerSpec, ExecutionProfile, Reason, profile_allows}
use aads.Policy.Spec.{Permits}
use aads.Policy.Decides.{profile_allows_iff}
use aads.Agent.{
  Host, Launch, Response, blocked, unauthorized, not_configured, gather, surfaced, hook_payload,
  respond, run, launch_for, require_auth, execute_request, run_command,
}
use aads.Agent.Card.{
  Digests, RunRequest, HookDecision, before_run, policy_card, audit_hook, argv_sha256,
}

-- The request carries the configured token.
pub record Authorized (host : Host) (authorization : Option String) : Type 0 where
  pub configured : host.token ≢ ""
  pub bearer : authorization ≡ some ("Bearer " <> host.token)

require_auth-Authorized :
    (host : Host) (authorization : Option String)
    → require_auth host authorization ≡ none
    → Authorized host authorization
unfolding require_auth
require_auth-Authorized host none h = ground arith
require_auth-Authorized host (some given) h = record {
  configured = λ e. ground (arith, str_eq_iff host.token "");
  bearer = ground (arith, str_eq_iff given ("Bearer " <> host.token), str_eq_iff host.token "");
}

Authorized-require_auth :
    (host : Host) (authorization : Option String)
    → Authorized host authorization
    → require_auth host authorization ≡ none
unfolding require_auth
Authorized-require_auth host none a = cc (a.bearer)
Authorized-require_auth host (some given) a = ground (
  arith,
  str_eq_iff given ("Bearer " <> host.token),
  str_eq_iff host.token "",
  a.configured,
  a.bearer,
)

refusals :
    (host : Host) (authorization : Option String)
    → (require_auth host authorization ≡ none)
      ⊎ ((require_auth host authorization ≡ some unauthorized)
          ⊎ (require_auth host authorization ≡ some not_configured))
unfolding require_auth
refusals host none = ground arith
refusals host (some given) = ground arith

execute_permitted :
    (host : Host) (digests : Digests) (req : RunRequest) (l : Launch) (ls : List Launch)
    → str_eq host.policy_mode "audit" ≡ false
    → (execute_request host digests req).1 ≡ l ∷ ls
    → (profile_allows req.execution_profile req.runner ≡ none)
      × (l ≡ launch_for host req.runner)
      × (ls ≡ [])
unfolding execute_request gather before_run
execute_permitted host digests req l ls m h = ground arith

module _ (host : Host) (digests : Digests) (req : RunRequest) where
  abbrev pub sha : String
  sha = argv_sha256 digests req.runner.argv

  abbrev pub card_decision : HookDecision
  card_decision = before_run digests host.policy_mode policy_card req sha

  abbrev pub audit_decision : HookDecision
  audit_decision = before_run digests host.policy_mode audit_hook req sha

  abbrev pub launched : HookDecision → Response × List Launch
  launched shown = (
    respond (run host req.runner) (hook_payload (some shown) req sha),
    launch_for host req.runner ∷ [],
  )

  -- The answer and the launches, by the verdict of the profile and the mode.
  abbrev pub verdict_outcome : Option Reason → Response × List Launch
  verdict_outcome none = launched audit_decision
  verdict_outcome (some reason) =
      if str_eq host.policy_mode "audit"
      then launched card_decision
      else (blocked (hook_payload (some card_decision) req sha), [])

  execute-verdict :
      execute_request host digests req
      ≡ verdict_outcome (profile_allows req.execution_profile req.runner)
  unfolding execute_request gather before_run surfaced
  execute-verdict = ground arith

  -- An authorized request is answered by the verdict of its profile. Permitted: the process is
  -- launched and the audit hook's decision shown. Not permitted: nothing is launched and the card's
  -- denial is shown, but in the mode "audit" the process is launched and the card's warning shown.
  pub run_command-verdict :
      (authorization : Option String)
      → Authorized host authorization
      → run_command host digests authorization req
        ≡ verdict_outcome (profile_allows req.execution_profile req.runner)
  unfolding run_command
  run_command-verdict authorization a =
      rw (Authorized-require_auth host authorization a, run_command) execute-verdict

  -- A request without the configured token, or to an agent with no token, is refused and
  -- launches nothing.
  pub run_command-unauthorized :
      (authorization : Option String)
      → ¬ Authorized host authorization
      → ((run_command host digests authorization req ≡ (unauthorized, []))
          ⊎ (run_command host digests authorization req ≡ (not_configured, [])))
  unfolding run_command
  run_command-unauthorized authorization n = elim (refusals host authorization) [
    | inl fine ↦ absurd (n (require_auth-Authorized host authorization fine))
    | inr (inl e) ↦ inl (rw (e, run_command))
    | inr (inr e) ↦ inr (rw (e, run_command))
  ]

profile_of :
    (profile : Option ExecutionProfile) (runner : RunnerSpec)
    → profile_allows profile runner ≡ none
    → (p : ExecutionProfile) × (profile ≡ some p) × Permits p runner
unfolding profile_allows
profile_of none runner h = ground arith
profile_of (some p) runner h = (p, refl, (profile_allows_iff p runner).0 h)

run_command-launch :
    (host : Host) (digests : Digests) (authorization : Option String) (req : RunRequest)
    (l : Launch) (ls : List Launch)
    → (run_command host digests authorization req).1 ≡ l ∷ ls
    → (require_auth host authorization ≡ none) × ((execute_request host digests req).1 ≡ l ∷ ls)
unfolding run_command
run_command-launch host digests authorization req l ls h = ground arith

-- In any mode but "audit", a request launches a process only if it carries the configured token and
-- its own execution profile permits its runner spec; then it launches one process, that runner's.
pub run_command-enforces :
    (host : Host) (digests : Digests) (authorization : Option String) (req : RunRequest)
    (l : Launch) (ls : List Launch)
    → host.policy_mode ≢ "audit"
    → (run_command host digests authorization req).1 ≡ l ∷ ls
    → Authorized host authorization
      × ((p : ExecutionProfile) × (req.execution_profile ≡ some p) × Permits p req.runner)
      × (l ≡ launch_for host req.runner)
      × (ls ≡ [])
run_command-enforces host digests authorization req l ls mode h =
    let (a, e) = run_command-launch host digests authorization req l ls h in
    let m : str_eq host.policy_mode "audit" ≡ false =
      ground (arith, str_eq_iff host.policy_mode "audit") in
    let (ok, le, lse) = execute_permitted host digests req l ls m e in
    (
      require_auth-Authorized host authorization a,
      profile_of req.execution_profile req.runner ok,
      le,
      lse,
    )

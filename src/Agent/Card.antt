-- ===== src/Agent/Card.antt =====
-- `PolicyCard` of pi-agent/src/safety_cards/policy_card.py, `AuditHook` and the request of
-- pi-agent/src/main.py.
use aads.Prelude.{
  String, ◌<>◌, Bool, Option, none, some, List, [], ◌∷◌, str_eq, join, if◌then◌else◌,
}
use aads.Policy.{
  RunnerSpec, ExecutionProfile, Reason, profile_missing, argv_not_allowed, as_root_mismatch,
  side_effect_mismatch, timeout_exceeds_profile, cwd_not_allowed, path_arg_not_allowed,
  env_not_allowed, profile_allows,
}

pub data Verdict : Type 0 where
  allow deny warn : Verdict

pub data Annotations : Type 0 where
  policy :
      (policy_mode : String) (profile_sha256 : Option String) (argv_sha256 : String)
      (argv0 : Option String) (failed_check : Option Reason)
      → Annotations
  audit : (argv_sha256 : String) (as_root : Bool) (side_effect : String) → Annotations

pub record HookDecision : Type 0 where
  pub decision : Verdict
  pub card_id : String
  pub reason : String
  pub annotations : Annotations

-- `CommandRunRequest`, the fields that the agent reads
pub record RunRequest : Type 0 where
  pub runner : RunnerSpec
  pub execution_profile : Option ExecutionProfile

-- SHA-256 in hexadecimal: of a text, and of a profile's canonical JSON.
pub record Digests : Type 0 where
  pub of_text : String → String
  pub of_profile : ExecutionProfile → String

unfoldable pub reason_text : Reason → String
reason_text profile_missing = "profile_missing"
reason_text argv_not_allowed = "argv_not_allowed"
reason_text as_root_mismatch = "as_root_mismatch"
reason_text side_effect_mismatch = "side_effect_mismatch"
reason_text timeout_exceeds_profile = "timeout_exceeds_profile"
reason_text cwd_not_allowed = "cwd_not_allowed"
reason_text path_arg_not_allowed = "path_arg_not_allowed"
reason_text env_not_allowed = "env_not_allowed"

-- The separator is U+0000, as the separator of `"\x00".join(argv)`.
unfoldable pub argv_sha256 : Digests → List String → String
argv_sha256 digests argv = digests.of_text (join "\0" argv)

unfoldable pub profile_sha256 : Digests → Option ExecutionProfile → Option String
profile_sha256 digests none = none
profile_sha256 digests (some profile) = some (digests.of_profile profile)

abbrev head? : List String → Option String
head? [] = none
head? (x ∷ xs) = some x

-- `PolicyCard.before_run`
unfoldable pub policy_before_run : Digests → String → RunRequest → String → HookDecision
unfolding profile_sha256
policy_before_run digests mode request argv_sha =
    let annotate = λ (failed : Option Reason).
      policy mode (profile_sha256 digests request.execution_profile) argv_sha
        (head? request.runner.argv) failed in
    elim (profile_allows request.execution_profile request.runner) [
      | none ↦ record {
        decision = allow;
        card_id = "policy.execution_profile.v1";
        reason = "runner spec within execution profile";
        annotations = annotate none;
      }
      | some reason ↦
          if str_eq mode "audit"
          then record {
            decision = warn;
            card_id = "policy.execution_profile.v1";
            reason = "policy violation (audit mode): " <> reason_text reason;
            annotations = annotate (some reason);
          }
          else record {
            decision = deny;
            card_id = "policy.execution_profile.v1";
            reason = "policy violation: " <> reason_text reason;
            annotations = annotate (some reason);
          }
    ]

-- `AuditHook.before_run`
unfoldable pub audit_before_run : RunRequest → String → HookDecision
audit_before_run request argv_sha = record {
  decision = allow;
  card_id = "audit.allow_all.v1";
  reason = "audit-only allow-all (v1, no safety card configured)";
  annotations = audit argv_sha request.runner.as_root request.runner.side_effect;
}

-- The classes of the hooks; `after_run` of both always allows, and its result is dropped.
pub data Hook : Type 0 where
  policy_card audit_hook : Hook

unfoldable pub before_run : Digests → String → Hook → RunRequest → String → HookDecision
unfolding policy_before_run audit_before_run
before_run digests mode policy_card request argv_sha =
    policy_before_run digests mode request argv_sha
before_run digests mode audit_hook request argv_sha = audit_before_run request argv_sha

abbrev pub hooks : List Hook
hooks = policy_card ∷ audit_hook ∷ []

-- ===== src/Agent/Launches.antt =====
-- `CommandRunner.run` of pi-agent/src/main.py: what it launches and returns.
use aads.Prelude.{
  ℕ, zero, suc, ◌-◌, ◌≤◌, String, ◌≡◌, refl, Bool, true, false, Option, none, some, [], ◌∷◌, ℤ, pos,
  ◌≤ℤ◌, max_ℤ, arith, text_len, text_drop, last_chars, eq_ℤ, ◌↔◌, ◌⊎◌, ◌≢◌, negsuc, Bool-cases, inl,
  inr, ap, str_eq_iff,
}
use Prim.Native.Nat.{min}
use mathlib.Core.Option.{some-injective}
use aads.Policy.{RunnerSpec}
use aads.Agent.{
  Host, Launch, Outcome, completed, timeout_expired, os_error, RunResult, request, output_limit,
  clip, launch_for, result_of, run, clamp_timeout, exit_status,
}

text_len-drop : (n : ℕ) (s : String) → text_len (text_drop n s) ≡ text_len s - n
unfolding text_len text_drop
text_len-drop zero s = omega arith
text_len-drop (suc n) String.[] = omega arith
text_len-drop (suc n) (String.◌∷◌ c s) = omega (arith, text_len-drop n s)

text_len-last : (n : ℕ) (s : String) → text_len (last_chars n s) ≡ min n (text_len s)
unfolding last_chars
text_len-last n s = omega (arith, text_len-drop (text_len s - n) s)

text_len-clip : (s : Option String) → text_len (clip s) ≤ output_limit
unfolding clip text_len
text_len-clip none = omega arith
text_len-clip (some s) = omega (arith, text_len-last output_limit s)

pub record IsReport (r : RunResult) : Type 0 where
  pub stdout : text_len r.stdout ≤ output_limit
  pub stderr : text_len r.stderr ≤ output_limit
  pub code : (r.returncode ≡ none) ↔ (r.timed_out ≡ true)
  pub success : (r.status ≡ "success") ↔ (r.returncode ≡ some (pos 0))

eq_ℤ-pos : (n : ℤ) → eq_ℤ n (pos 0) ≡ true → n ≡ pos 0
eq_ℤ-pos (pos n) h = ground arith
eq_ℤ-pos (negsuc n) h = ground arith

failed-ne-success : ◌≢◌ {A = String} "failed" "success"
failed-ne-success = ground (arith, str_eq_iff "failed" "success")

completed_status : (n : ℤ) → (exit_status n ≡ "success") ↔ (some n ≡ some (pos 0))
unfolding exit_status
completed_status n = elim (Bool-cases (eq_ℤ n (pos 0))) [
  | inl zero' ↦ (λ _. ap some (eq_ℤ-pos n zero'), λ _. rw zero')
  | inr other ↦ (
    λ e. absurd (failed-ne-success (rw (other, exit_status) at e)),
    λ e. cc (other, some-injective _ _ e),
  )
]

result-IsReport : (o : Outcome) (r : RunResult) → result_of o ≡ some r → IsReport r
unfolding result_of
result-IsReport (completed n out err) r h = rw (← some-injective _ _ h) (record {
  stdout = text_len-clip out;
  stderr = text_len-clip err;
  code = (λ e. cc, λ e. cc);
  success = completed_status n;
})
result-IsReport (timeout_expired out err) r h = rw (← some-injective _ _ h) (record {
  stdout = text_len-clip out;
  stderr = text_len-clip err;
  code = (λ _. refl, λ _. refl);
  success = (λ e. ground (arith, str_eq_iff "timeout" "success"), λ e. cc);
})
result-IsReport os_error r h = cc

-- Whatever the process does, a result keeps at most 4000 characters of each stream, lacks a return
-- code exactly if the process timed out, and says "success" exactly for the return code 0.
pub run-IsReport :
    (host : Host) (spec : RunnerSpec) (r : RunResult) → run host spec ≡ some r → IsReport r
unfolding run
run-IsReport host spec r h = result-IsReport (host.execute (launch_for host spec)) r h

clamp_bounds : (t m : ℤ) → (pos 1 ≤ℤ clamp_timeout t m) × (clamp_timeout t m ≤ℤ max_ℤ (pos 1) m)
unfolding clamp_timeout
clamp_bounds t m = ground arith

timeout-launch :
    (host : Host) (spec : RunnerSpec) (root : Bool)
    → spec.as_root ≡ root
    → (launch_for host spec).timeout ≡ clamp_timeout spec.timeout_seconds host.max_timeout
unfolding launch_for
timeout-launch host spec true e = rw (e, launch_for)
timeout-launch host spec false e = rw (e, launch_for)

pub record IsConfined (host : Host) (spec : RunnerSpec) (l : Launch) : Type 0 where
  pub at_least : pos 1 ≤ℤ l.timeout
  pub at_most : l.timeout ≤ℤ max_ℤ (pos 1) host.max_timeout
  pub command :
      ((spec.as_root ≡ true)
        × ((l.argv ≡ "sudo" ∷ "-n" ∷ host.root_runner ∷ [])
            × (l.input ≡ request spec.argv spec.cwd spec.env l.timeout)))
      ⊎ ((spec.as_root ≡ false) × (l.argv ≡ spec.argv))

launch-command :
    (host : Host) (spec : RunnerSpec)
    → ((spec.as_root ≡ true)
        × (((launch_for host spec).argv ≡ "sudo" ∷ "-n" ∷ host.root_runner ∷ [])
            × ((launch_for host spec).input
                ≡ request spec.argv spec.cwd spec.env (launch_for host spec).timeout)))
      ⊎ ((spec.as_root ≡ false) × ((launch_for host spec).argv ≡ spec.argv))
launch-command host spec = elim (Bool-cases spec.as_root) [
  | inl r ↦ inl (r, (unfold launch_for in rw (r, launch_for) (refl, refl)))
  | inr r ↦ inr (r, (unfold launch_for in rw (r, launch_for) refl))
]

-- The time limit that is passed on lies between 1 and the configured maximum (or is 1 where that
-- is below 1). A privileged spec is launched as the root runner wrapper alone, with the spec's argv,
-- working directory, environment and time limit on its input; another one is launched as it is.
pub launch-IsConfined :
    (host : Host) (spec : RunnerSpec) → IsConfined host spec (launch_for host spec)
launch-IsConfined host spec =
    let e = timeout-launch host spec spec.as_root refl in
    let (low, high) = clamp_bounds spec.timeout_seconds host.max_timeout in
    record { at_least = rw e low; at_most = rw e high; command = launch-command host spec }

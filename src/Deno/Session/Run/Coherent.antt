-- ===== src/Deno/Session/Run/Coherent.antt =====
-- What every result of a run of TypeScript satisfies.
use langshell.Common.{
  ◌≤◌, ◌%◌, ◌^◌, ◌≡◌, ◌≢◌, ◌⊎◌, inl, inr, refl, true, false, String, Option, none, some, is_some,
  get_or, or_else, length, All, Result, ok, err, arith,
}
use langshell.Core.{
  Value, ErrorObject, RunRequest, RunResult, RunStatus, SessionLimits, error_result, ok_result,
}
use Prim.Native.String.{len}
use Prim.Native.String.len
use langshell.Core.Registry.{ToolRegistry}
use langshell.Monty.Errors.{differs}
use langshell.Deno.Errors.{code_to_status, code_to_status-ne-ok}
use langshell.Deno.Ops.{reset_run_state}
use langshell.Deno.Ops.Calls.Clean.{Succeeded, IsClean, Steps-IsClean}
use langshell.Deno.Scripts.{
  Packages, Live, Answer, wrap_user_code, inject_inputs, execute_user_code, read_result,
}
use langshell.Deno.Scripts.Trace.{inject_inputs-Goes, execute_user_code-Goes}
use langshell.Deno.Session.{DenoSession, run_state_snapshot, error_of}
use langshell.Deno.Session.Run.{
  metrics_at, ended_with_error, ended_with_value, after_read, after_error, after_program,
  after_inputs, reset_live, after_checked, checked_code, run,
}
use langshell.Deno.Streams.{RunStateSnapshot, apply_streams, apply_streams-HasStreams}

abbrev Succeeds : RunResult → Type 0
Succeeds result =
    (result.status ≡ RunStatus.ok) × (result.error ≡ none) × All Succeeded result.external_calls

abbrev Fails : RunResult → Type 0
Fails result = (result.status ≢ RunStatus.ok) × (is_some result.error ≡ true)

pub record IsCoherent (limits : SessionLimits) (result : RunResult) : Type 0 where
  pub counted : result.metrics.external_calls_count ≡ length result.external_calls % 2 ^ 32
  pub stdout_fits : len result.stdout ≤ limits.max_stdout_bytes
  pub stderr_fits : len result.stderr ≤ limits.max_stdout_bytes
  pub outcome : Succeeds result ⊎ Fails result

or_else-eq-none : (a b : Option ErrorObject) → or_else a b ≡ none → b ≡ none
or_else-eq-none none b h = h
or_else-eq-none (some e) b h = cc

module _ {Js V Parsed W : Type 0} (pkg : Packages Js V Parsed W) where
  refused_result-IsCoherent :
      (limits : SessionLimits) (started now : W) (status : RunStatus) (e : ErrorObject)
      → status ≢ RunStatus.ok
      → IsCoherent limits (error_result status e "" (metrics_at pkg started now 0))
  refused_result-IsCoherent limits started now status e h = record {
    counted = omega arith;
    stdout_fits = omega (arith, len.nil);
    stderr_fits = omega (arith, len.nil);
    outcome = inr (h, refl);
  }

  ended_with_error-IsCoherent :
      (session : DenoSession Js W) (started : W) (status : RunStatus) (e : ErrorObject)
      (state : RunStateSnapshot) (live : Live Js W)
      → status ≢ RunStatus.ok
      → IsCoherent session.limits (ended_with_error pkg session started status e state live)
  unfolding ended_with_error apply_streams
  ended_with_error-IsCoherent session started status e state live h =
      let streams =
        apply_streams-HasStreams
          (error_result status e "" (metrics_at pkg started live.ops.world (length state.records)))
          state session.limits in
      record {
        counted = refl;
        stdout_fits = streams.stdout_kept.fits;
        stderr_fits = streams.stderr_kept.fits;
        outcome = inr (h, refl);
      }

  ended_with_value-IsCoherent :
      (session : DenoSession Js W) (request : RunRequest) (started : W) (value : Option Value)
      (state : RunStateSnapshot) (live : Live Js W)
      → All Succeeded state.records
      → IsCoherent session.limits (ended_with_value pkg session request started value state live)
  unfolding ended_with_value apply_streams
  ended_with_value-IsCoherent session request started value state live h =
      let streams =
        apply_streams-HasStreams
          (ok_result value "" (metrics_at pkg started live.ops.world (length state.records))) state
          session.limits in
      record {
        counted = refl;
        stdout_fits = streams.stdout_kept.fits;
        stderr_fits = streams.stderr_kept.fits;
        outcome = inl (refl, refl, h);
      }

  after_read-IsCoherent :
      (session : DenoSession Js W) (request : RunRequest) (started : W) (state : RunStateSnapshot)
      (answer : Answer Js W (Option Value))
      → All Succeeded state.records
      → IsCoherent session.limits (after_read pkg session request started state answer).0
  unfolding after_read
  after_read-IsCoherent session request started state (err e, live) h =
      ended_with_error-IsCoherent session started RunStatus.validation_error e state live
        (differs RunStatus.validation_error refl)
  after_read-IsCoherent session request started state (ok value, live) h =
      ended_with_value-IsCoherent session request started value state live h

  after_error-IsCoherent :
      (session : DenoSession Js W) (request : RunRequest) (started : W) (live : Live Js W)
      (o : Option ErrorObject)
      → (o ≡ none → All Succeeded live.ops.data_of.records)
      → IsCoherent session.limits (after_error pkg session request started live o).0
  unfolding after_error run_state_snapshot
  after_error-IsCoherent session request started live (some e) h =
      ended_with_error-IsCoherent session started (code_to_status e.code false) e
        (run_state_snapshot live) live (code_to_status-ne-ok e.code false)
  after_error-IsCoherent session request started live none h =
      after_read-IsCoherent session request started (run_state_snapshot live) (read_result pkg live)
        (h refl)

  after_program-IsCoherent :
      (session : DenoSession Js W) (request : RunRequest) (started : W)
      (answer : Answer Js W (Unit {0}))
      → IsClean answer.1.ops.data_of
      → IsCoherent session.limits (after_program pkg session request started answer).0
  unfolding after_program
  after_program-IsCoherent session request started (r, live) clean =
      after_error-IsCoherent session request started live
        (or_else (error_of r) live.ops.data_of.error)
        (λ h. clean (or_else-eq-none (error_of r) live.ops.data_of.error h))

  after_inputs-IsCoherent :
      (session : DenoSession Js W) (request : RunRequest) (started : W) (js : String)
      (answer : Answer Js W (Unit {0}))
      → IsClean answer.1.ops.data_of
      → IsCoherent session.limits (after_inputs pkg session request started js answer).0
  unfolding after_inputs
  after_inputs-IsCoherent session request started js (err e, live) clean =
      refused_result-IsCoherent session.limits started live.ops.world RunStatus.validation_error e
        (differs RunStatus.validation_error refl)
  after_inputs-IsCoherent session request started js (ok u, live) clean =
      let timeout = get_or request.timeout_ms session.limits.wall_ms in
      after_program-IsCoherent session request started
        (execute_user_code pkg live (wrap_user_code js) timeout)
        (Steps-IsClean pkg.hashing pkg.host
          (execute_user_code-Goes pkg live (wrap_user_code js) timeout) clean)

  after_checked-IsCoherent :
      (session : DenoSession Js W) (request : RunRequest) (registry : ToolRegistry W) (w : W)
      (r : Result ErrorObject String)
      → IsCoherent session.limits (after_checked pkg session request registry w r).0
  unfolding after_checked reset_run_state
  after_checked-IsCoherent session request registry w (err e) =
      refused_result-IsCoherent session.limits w w (code_to_status e.code true) e
        (code_to_status-ne-ok e.code true)
  after_checked-IsCoherent session request registry w (ok js) =
      let start = reset_live pkg session registry w in
      after_inputs-IsCoherent session request w js (inject_inputs pkg start request.inputs)
        (Steps-IsClean pkg.hashing pkg.host (inject_inputs-Goes pkg start request.inputs) (λ h. tt))

  -- On every branch of a run, its result counts its calls, cut to 32 bits, and each of its streams has at most
  -- `max_stdout_bytes` bytes; it either has the state `ok`, no error, and only calls that succeeded, or another
  -- state and an error.
  pub run-IsCoherent :
      (session : DenoSession Js W) (request : RunRequest) (registry : ToolRegistry W) (w : W)
      → IsCoherent session.limits (run pkg session request registry w).0.0
  unfolding run
  run-IsCoherent session request registry w =
      after_checked-IsCoherent session request registry w (checked_code pkg registry request.code)

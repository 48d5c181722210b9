-- ===== src/Monty/Session/Bounded.antt =====
-- The output of a run that succeeds is within its limit.
use langshell.Common.{
  ℕ, ◌≤◌, ◌≡◌, ◌≢◌, refl, subst, true, false, ◌||◌, ◌==◌, len, String, Option, none, some, and_then,
  List, [], Result, ok, err, by_test,
}
use langshell.Core.{
  Value, ErrorObject, Diagnostic, RunRequest, RunResult, RunStatus, ExternalCallRecord,
  SessionLimits, ok_result, from_fields,
}
use langshell.Core.Registry.{ToolRegistry}
use langshell.Monty.Objects.{MontyObject}
use langshell.Monty.Convert.{monty_to_json_checked}
use langshell.Monty.Errors.{code_to_status, code_to_status-not_ok, differs}
use langshell.Monty.Limits.{truncate_stdout, truncate_stdout_lem}
use langshell.Monty.Snippet.{SnippetOutcome, run_repl_snippet}
use langshell.Monty.Validate.{static_validation_error}
use langshell.Monty.Session.{
  MontySession, Packages, Done, Ended, push_diagnostic, ended_metrics, snapshot_name,
  end_with_error, end_with_outcome_error, end_with_value, end_probe, end_probe_error, env_of,
  joined, after_probe, probe, after_program, expression_value, inputs_to_monty,
}
use langshell.Monty.Session.Run.{rejected, limit_duration, run_with_inputs, run_session}

module _ {Repl K W : Type 0} (pkg : Packages Repl K W) (limits : SessionLimits) where
  -- A result that is no success, or has at most the bytes of output that the limits allow.
  IsBounded : RunResult → Type 0
  IsBounded result = result.status ≡ RunStatus.ok → len result.stdout ≤ limits.max_stdout_bytes

  push_diagnostic-IsBounded :
      (d : Option Diagnostic) (result : RunResult)
      → IsBounded result
      → IsBounded (push_diagnostic d result)
  unfolding IsBounded
  push_diagnostic-IsBounded none result h = h
  push_diagnostic-IsBounded (some d) result h = h

  failed-IsBounded : (result : RunResult) → result.status ≢ RunStatus.ok → IsBounded result
  unfolding IsBounded
  failed-IsBounded result failed h = absurd (failed h)

  end_with_error-IsBounded :
      (session : MontySession Repl) (started : W) (status : RunStatus) (error : ErrorObject)
      → (e : Ended Repl W) → status ≢ RunStatus.ok
      → IsBounded (end_with_error pkg session started status error e).1
  unfolding end_with_error
  end_with_error-IsBounded session started status error e h = failed-IsBounded _ h

  end_with_outcome_error-IsBounded :
      (session : MontySession Repl) (started : W) (error : ErrorObject) (e : Ended Repl W)
      → IsBounded (end_with_outcome_error pkg session started error e).1
  unfolding end_with_outcome_error
  end_with_outcome_error-IsBounded session started error e =
      let kept = truncate_stdout e.stdout session.limits in
      push_diagnostic-IsBounded kept.1 _ (
        end_with_error-IsBounded session started _ error (record e { stdout = kept.0 })
          (code_to_status-not_ok error.code false))

  end_with_value-IsBounded :
      (session : MontySession Repl) (request : RunRequest) (started : W) (value : Option Value)
      → (e : Ended Repl W) → session.limits ≡ limits
      → IsBounded (end_with_value pkg session request started value e).1
  unfolding end_with_value IsBounded
  end_with_value-IsBounded session request started value e same =
      let kept = truncate_stdout e.stdout session.limits in
      let fits : len kept.0 ≤ limits.max_stdout_bytes =
        subst (λ l. len kept.0 ≤ l.max_stdout_bytes) same
          (truncate_stdout_lem e.stdout session.limits).0.fits in
      elim kept.1
        as (λ d.
          IsBounded
            (record (push_diagnostic d (ok_result value kept.0 (ended_metrics pkg started e))) {
              external_calls = e.records;
              snapshot_id = snapshot_name pkg request.return_snapshot session.id;
            })) [ none ↦ λ h. fits | some d ↦ λ h. fits ]

  after_probe-IsBounded :
      (session : MontySession Repl) (request : RunRequest) (started : W) (expr : Option Value)
      → (stdout : String) (records : List ExternalCallRecord) (outcome : SnippetOutcome Repl)
        (w : W)
      → session.limits ≡ limits
      → IsBounded (after_probe pkg session request started expr stdout records (outcome, w)).0.1
  unfolding after_probe end_probe end_probe_error
  after_probe-IsBounded session request started expr stdout records
        (SnippetOutcome.complete repl value probe_stdout probe_records) w same =
      elim (monty_to_json_checked pkg.library value)
        as (λ v.
          IsBounded
            (end_probe pkg session request started expr v
              (joined pkg stdout records repl probe_stdout probe_records w)).1) [
                | ok v ↦ end_with_value-IsBounded session request started (some v) _ same
                | err error ↦
                    end_with_error-IsBounded session started _ error _
                      (differs RunStatus.validation_error refl)
              ]
  after_probe-IsBounded session request started expr stdout records
        (SnippetOutcome.error repl error probe_stdout probe_records) w same =
      by_test (λ (p : MontySession Repl × RunResult). IsBounded p.1)
        (error.code == "UNKNOWN_TOOL" || error.code == "RUNTIME_ERROR") _ _
        (λ unbound. end_with_value-IsBounded session request started expr _ same)
        (λ failed.
          end_with_error-IsBounded session started _ error _
            (code_to_status-not_ok error.code false))

  -- What holds of a run that has an end.
  abbrev Ends : Option (Done pkg) → Type 0
  Ends none = Unit
  Ends (some done) = IsBounded done.0.1

  and_then-Ends :
      {A : Type 0} (o : Option A) (f : A → Option (Done pkg))
      → ((a : A) → Ends (f a))
      → Ends (and_then o f)
  and_then-Ends none f h = tt
  and_then-Ends (some a) f h = h a

  probe-Ends :
      (fuel : ℕ) (session : MontySession Repl) (request : RunRequest) (registry : ToolRegistry W)
      → (started : W) (expr : Result ErrorObject (Option Value)) (e : Ended Repl W)
      → session.limits ≡ limits
      → Ends (probe pkg fuel session request registry started expr e)
  unfolding probe
  probe-Ends fuel session request registry started (err error) e same =
      end_with_error-IsBounded session started _ error e (differs RunStatus.validation_error refl)
  probe-Ends fuel session request registry started (ok expr) e same =
      and_then-Ends (run_repl_snippet (env_of pkg session registry) fuel e.repl "result" [] e.world)
        (λ outcome. some (after_probe pkg session request started expr e.stdout e.records outcome))
        (λ (outcome : SnippetOutcome Repl × W).
          after_probe-IsBounded session request started expr e.stdout e.records outcome.0 outcome.1
            same)

  after_program-Ends :
      (fuel : ℕ) (session : MontySession Repl) (request : RunRequest) (registry : ToolRegistry W)
      → (started : W) (outcome : SnippetOutcome Repl × W) → session.limits ≡ limits
      → Ends (after_program pkg fuel session request registry started outcome)
  unfolding after_program
  after_program-Ends fuel session request registry started
        (SnippetOutcome.complete repl value stdout records, w) same =
      probe-Ends fuel session request registry started (expression_value pkg.library value) _ same
  after_program-Ends fuel session request registry started
        (SnippetOutcome.error repl error stdout records, w) same =
      end_with_outcome_error-IsBounded session started error _

  run_with_inputs-Ends :
      (fuel : ℕ) (session : MontySession Repl) (request : RunRequest) (registry : ToolRegistry W)
      → (w : W) (inputs : Result ErrorObject (List (String × MontyObject)))
      → session.limits ≡ limits
      → Ends (run_with_inputs pkg fuel session request registry w inputs)
  unfolding run_with_inputs
  run_with_inputs-Ends fuel session request registry w (err error) same =
      failed-IsBounded _ (differs RunStatus.validation_error refl)
  run_with_inputs-Ends fuel session request registry w (ok inputs) same =
      and_then-Ends
        (run_repl_snippet (env_of pkg session registry) fuel session.repl request.code inputs w)
        (after_program pkg fuel session request registry w)
        (λ outcome. after_program-Ends fuel session request registry w outcome same)

  run_session-Ends :
      (fuel : ℕ) (session : MontySession Repl) (request : RunRequest) (registry : ToolRegistry W)
      (w : W)
      → session.limits ≡ limits
      → Ends (run_session pkg fuel session request registry w)
  unfolding run_session
  run_session-Ends fuel session request registry w same =
      elim (static_validation_error registry (pkg.parse_module request.code))
        as (λ e. Ends (elim e [
          | some error ↦ some (rejected pkg session w (code_to_status error.code true) error)
          | none ↦
              run_with_inputs pkg fuel (limit_duration pkg session request) request registry w
                (inputs_to_monty pkg.library (from_fields request.inputs))
        ])) [
          | some error ↦ failed-IsBounded _ (code_to_status-not_ok error.code true)
          | none ↦
              run_with_inputs-Ends fuel (limit_duration pkg session request) request registry w _
                same
        ]

module _ {Repl K W : Type 0} (pkg : Packages Repl K W) where
  -- A run that ends with the state `ok` has at most `max_stdout_bytes` bytes of output, in which those of the program
  -- and of the probe are together.
  pub run_session-stdout_fits :
      (fuel : ℕ) (session : MontySession Repl) (request : RunRequest) (registry : ToolRegistry W)
      (w : W) (done : Done pkg)
      → run_session pkg fuel session request registry w ≡ some done
      → done.0.1.status ≡ RunStatus.ok
      → len done.0.1.stdout ≤ session.limits.max_stdout_bytes
  unfolding IsBounded
  run_session-stdout_fits fuel session request registry w done h =
      subst (Ends pkg session.limits) h
        (run_session-Ends pkg session.limits fuel session request registry w refl)

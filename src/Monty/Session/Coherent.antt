-- ===== src/Monty/Session/Coherent.antt =====
-- The results of a run are coherent.
use langshell.Common.{
  ℕ, ◌≡◌, refl, ◌≢◌, ◌⊎◌, inl, inr, true, false, ◌==◌, ◌||◌, String, Option, none, some, and_then,
  List, [], ◌∷◌, ◌++◌, length, ◌%◌, ◌^◌, Result, ok, err, by_test, subst, ap,
}
use langshell.Core.{
  Value, ErrorObject, Diagnostic, RunRequest, RunResult, RunStatus, ExternalCallRecord,
  error_diagnostic, ok_result, from_fields,
}
use langshell.Core.Registry.{ToolRegistry}
use langshell.Monty.Objects.{MontyObject}
use langshell.Monty.Convert.{monty_to_json_checked}
use langshell.Monty.Errors.{code_to_status, code_to_status-not_ok, differs}
use langshell.Monty.Limits.{truncate_stdout}
use langshell.Monty.Snippet.{SnippetOutcome, run_repl_snippet}
use langshell.Monty.Validate.{static_validation_error}
use langshell.Monty.Session.{
  env_of, MontySession, Packages, Ended, Done, ended_metrics, snapshot_name, joined,
  expression_value, inputs_to_monty, end_with_error, end_with_outcome_error, end_with_value,
  end_probe, end_probe_error, after_probe, probe, after_program, push_diagnostic,
}
use langshell.Monty.Session.Run.{rejected, limit_duration, run_with_inputs, run_session}

pub record IsFailure (r : RunResult) : Type 0 where
  pub cause : ErrorObject
  pub warnings : List Diagnostic
  pub state : r.status ≢ RunStatus.ok
  pub shown : r.error ≡ some cause
  pub valueless : r.result ≡ none
  pub reported : r.diagnostics ≡ error_diagnostic cause ∷ warnings

-- A result is a success without an error, or it has an error, a state that is not `ok`, no value, and the
-- error as its first diagnostic; and its count of calls is that of its records, in 32 bits.
pub record IsCoherent (r : RunResult) : Type 0 where
  pub verdict : ((r.status ≡ RunStatus.ok) × (r.error ≡ none)) ⊎ IsFailure r
  pub counted : r.metrics.external_calls_count ≡ length r.external_calls % 2 ^ 32

validation_error-not_ok : RunStatus.validation_error ≢ RunStatus.ok
validation_error-not_ok = differs RunStatus.validation_error refl

push_diagnostic-IsFailure :
    (d : Option Diagnostic) (r : RunResult) → IsFailure r → IsFailure (push_diagnostic d r)
push_diagnostic-IsFailure none r h = h
push_diagnostic-IsFailure (some d) r h = record {
  cause = h.cause;
  warnings = h.warnings ++ d ∷ [];
  state = h.state;
  shown = h.shown;
  valueless = h.valueless;
  reported = ap (λ ds. ds ++ d ∷ []) h.reported;
}

module _ {Repl K W : Type 0} (pkg : Packages Repl K W) where
  end_with_error-IsFailure :
      (session : MontySession Repl) (started : W) (status : RunStatus) (error : ErrorObject)
      → (e : Ended Repl W) → status ≢ RunStatus.ok
      → IsFailure (end_with_error pkg session started status error e).1
  unfolding end_with_error
  end_with_error-IsFailure session started status error e h = record {
    cause = error;
    warnings = [];
    state = h;
    shown = refl;
    valueless = refl;
    reported = refl;
  }

  end_with_error-IsCoherent :
      (session : MontySession Repl) (started : W) (status : RunStatus) (error : ErrorObject)
      → (e : Ended Repl W) → status ≢ RunStatus.ok
      → IsCoherent (end_with_error pkg session started status error e).1
  unfolding end_with_error
  end_with_error-IsCoherent session started status error e h = record {
    verdict = inr (end_with_error-IsFailure session started status error e h);
    counted = refl;
  }

  end_with_outcome_error-IsCoherent :
      (session : MontySession Repl) (started : W) (error : ErrorObject) (e : Ended Repl W)
      → IsCoherent (end_with_outcome_error pkg session started error e).1
  unfolding end_with_outcome_error end_with_error
  end_with_outcome_error-IsCoherent session started error e =
      let kept = truncate_stdout e.stdout session.limits in
      let not_ok = code_to_status-not_ok error.code false in
      warned kept.1 (record e { stdout = kept.0 }) not_ok
    where
      warned :
          (d : Option Diagnostic) (e' : Ended Repl W)
          → code_to_status error.code false ≢ RunStatus.ok
          → IsCoherent (
              push_diagnostic d
                (end_with_error pkg session started (code_to_status error.code false) error e').1)
      warned none e' h = end_with_error-IsCoherent session started _ error e' h
      warned (some d) e' h = record {
        verdict = inr (
            push_diagnostic-IsFailure (some d) _
              (end_with_error-IsFailure session started _ error e' h));
        counted = refl;
      }

  end_with_value-IsCoherent :
      (session : MontySession Repl) (request : RunRequest) (started : W) (value : Option Value)
      → (e : Ended Repl W) → IsCoherent (end_with_value pkg session request started value e).1
  unfolding end_with_value
  end_with_value-IsCoherent session request started value e =
      let kept = truncate_stdout e.stdout session.limits in
      elim kept.1
        as (λ d.
          IsCoherent
            (record (push_diagnostic d (ok_result value kept.0 (ended_metrics pkg started e))) {
              external_calls = e.records;
              snapshot_id = snapshot_name pkg request.return_snapshot session.id;
            })) [
              | none ↦ record { verdict = inl (refl, refl); counted = refl }
              | some d ↦ record { verdict = inl (refl, refl); counted = refl }
            ]

  after_probe-IsCoherent :
      (session : MontySession Repl) (request : RunRequest) (started : W) (expr : Option Value)
      → (stdout : String) (records : List ExternalCallRecord) (outcome : SnippetOutcome Repl)
        (w : W)
      → IsCoherent (after_probe pkg session request started expr stdout records (outcome, w)).0.1
  unfolding after_probe end_probe end_probe_error
  after_probe-IsCoherent session request started expr stdout records
        (SnippetOutcome.complete repl value probe_stdout probe_records) w =
      elim (monty_to_json_checked pkg.library value)
        as (λ v.
          IsCoherent
            (end_probe pkg session request started expr v
              (joined pkg stdout records repl probe_stdout probe_records w)).1) [
                | ok v ↦ end_with_value-IsCoherent session request started (some v) _
                | err error ↦
                    end_with_error-IsCoherent session started _ error _ validation_error-not_ok
              ]
  after_probe-IsCoherent session request started expr stdout records
        (SnippetOutcome.error repl error probe_stdout probe_records) w =
      by_test (λ (p : MontySession Repl × RunResult). IsCoherent p.1)
        (error.code == "UNKNOWN_TOOL" || error.code == "RUNTIME_ERROR") _ _
        (λ unbound. end_with_value-IsCoherent session request started expr _)
        (λ failed.
          end_with_error-IsCoherent session started _ error _
            (code_to_status-not_ok error.code false))

  -- What holds of a run that has an end.
  abbrev Ends : Option (Done pkg) → Type 0
  Ends none = Unit
  Ends (some done) = IsCoherent done.0.1

  and_then-Ends :
      {A : Type 0} (o : Option A) (f : A → Option (Done pkg))
      → ((a : A) → Ends (f a))
      → Ends (and_then o f)
  and_then-Ends none f h = tt
  and_then-Ends (some a) f h = h a

  probe-Ends :
      (fuel : ℕ) (session : MontySession Repl) (request : RunRequest) (registry : ToolRegistry W)
      → (started : W) (expr : Result ErrorObject (Option Value)) (e : Ended Repl W)
      → Ends (probe pkg fuel session request registry started expr e)
  unfolding probe
  probe-Ends fuel session request registry started (err error) e =
      end_with_error-IsCoherent session started _ error e validation_error-not_ok
  probe-Ends fuel session request registry started (ok expr) e =
      and_then-Ends (run_repl_snippet (env_of pkg session registry) fuel e.repl "result" [] e.world)
        (λ outcome. some (after_probe pkg session request started expr e.stdout e.records outcome))
        (λ (outcome : SnippetOutcome Repl × W).
          after_probe-IsCoherent session request started expr e.stdout e.records outcome.0
            outcome.1)

  after_program-Ends :
      (fuel : ℕ) (session : MontySession Repl) (request : RunRequest) (registry : ToolRegistry W)
      → (started : W) (outcome : SnippetOutcome Repl × W)
      → Ends (after_program pkg fuel session request registry started outcome)
  unfolding after_program
  after_program-Ends fuel session request registry started
        (SnippetOutcome.complete repl value stdout records, w) =
      probe-Ends fuel session request registry started (expression_value pkg.library value) _
  after_program-Ends fuel session request registry started
        (SnippetOutcome.error repl error stdout records, w) =
      end_with_outcome_error-IsCoherent session started error _

  rejected-IsCoherent :
      (session : MontySession Repl) (w : W) (status : RunStatus) (error : ErrorObject)
      → status ≢ RunStatus.ok
      → IsCoherent (rejected pkg session w status error).0.1
  rejected-IsCoherent session w status error h = record {
    verdict = inr (record {
      cause = error;
      warnings = [];
      state = h;
      shown = refl;
      valueless = refl;
      reported = refl;
    });
    counted = refl;
  }

  run_with_inputs-Ends :
      (fuel : ℕ) (session : MontySession Repl) (request : RunRequest) (registry : ToolRegistry W)
      → (w : W) (inputs : Result ErrorObject (List (String × MontyObject)))
      → Ends (run_with_inputs pkg fuel session request registry w inputs)
  unfolding run_with_inputs
  run_with_inputs-Ends fuel session request registry w (err error) =
      rejected-IsCoherent session w _ error validation_error-not_ok
  run_with_inputs-Ends fuel session request registry w (ok inputs) =
      and_then-Ends
        (run_repl_snippet (env_of pkg session registry) fuel session.repl request.code inputs w)
        (after_program pkg fuel session request registry w)
        (after_program-Ends fuel session request registry w)

  run_session-Ends :
      (fuel : ℕ) (session : MontySession Repl) (request : RunRequest) (registry : ToolRegistry W)
      (w : W)
      → Ends (run_session pkg fuel session request registry w)
  unfolding run_session
  run_session-Ends fuel session request registry w =
      elim (static_validation_error registry (pkg.parse_module request.code))
        as (λ e. Ends (elim e [
          | some error ↦ some (rejected pkg session w (code_to_status error.code true) error)
          | none ↦
              run_with_inputs pkg fuel (limit_duration pkg session request) request registry w
                (inputs_to_monty pkg.library (from_fields request.inputs))
        ])) [
          | some error ↦
              rejected-IsCoherent session w _ error (code_to_status-not_ok error.code true)
          | none ↦ run_with_inputs-Ends fuel _ request registry w _
        ]

  -- Every result of `run_session` is a success without an error, or a failure that shows the same error in
  -- `error` and in its first diagnostic and has no value; and `external_calls_count` is the number of the
  -- records in `external_calls`, in 32 bits.
  pub run_session-IsCoherent :
      (fuel : ℕ) (session : MontySession Repl) (request : RunRequest) (registry : ToolRegistry W)
      (w : W)
      → (done : Done pkg) → run_session pkg fuel session request registry w ≡ some done
      → IsCoherent done.0.1
  run_session-IsCoherent fuel session request registry w done h =
      subst Ends h (run_session-Ends fuel session request registry w)

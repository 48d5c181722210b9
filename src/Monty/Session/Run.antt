-- ===== src/Monty/Session/Run.antt =====
-- `run_session` of crates/langshell-monty/src/lib.rs.
use langshell.Common.{true, ℕ, Option, none, some, get_or, and_then, String, List, Result, ok, err}
use langshell.Core.{ErrorObject, RunRequest, RunStatus, from_fields, error_result}
use langshell.Core.Registry.{ToolRegistry}
use langshell.Monty.Objects.{MontyObject}
use langshell.Monty.Errors.{code_to_status}
use langshell.Monty.Limits.{metrics}
use langshell.Monty.Snippet.{run_repl_snippet}
use langshell.Monty.Validate.{static_validation_error}
use langshell.Monty.Session.{MontySession, Packages, Done, inputs_to_monty, env_of, after_program}

module _ {Repl K W : Type 0} (pkg : Packages Repl K W) where
  -- A return before the program runs.
  abbrev pub rejected : MontySession Repl → W → RunStatus → ErrorObject → Done pkg
  rejected session w status error =
      let spent = metrics (pkg.host.elapsed w w) (pkg.current_memory session.repl) 0 in
      ((session, error_result status error "" spent), w)

  unfoldable pub run_with_inputs :
      ℕ
      → MontySession Repl
      → RunRequest
      → ToolRegistry W
      → W
      → Result ErrorObject (List (String × MontyObject))
      → Option (Done pkg)
  unfolding run_repl_snippet after_program
  run_with_inputs fuel session request registry w (err error) =
      some (rejected session w RunStatus.validation_error error)
  run_with_inputs fuel session request registry w (ok inputs) =
      and_then
        (run_repl_snippet (env_of pkg session registry) fuel session.repl request.code inputs w)
        (after_program pkg fuel session request registry w)

  abbrev pub limit_duration : MontySession Repl → RunRequest → MontySession Repl
  limit_duration session request = record session {
    repl = pkg.set_max_duration session.repl (get_or request.timeout_ms session.limits.wall_ms);
  }

  -- `fuel` bounds the turns of each of the two snippets; `none` without enough.
  unfoldable pub run_session :
      ℕ → MontySession Repl → RunRequest → ToolRegistry W → W → Option (Done pkg)
  unfolding static_validation_error code_to_status run_with_inputs inputs_to_monty
  run_session fuel session request registry w =
      elim (static_validation_error registry (pkg.parse_module request.code)) [
        | some error ↦ some (rejected session w (code_to_status error.code true) error)
        | none ↦
            run_with_inputs fuel (limit_duration session request) request registry w
              (inputs_to_monty pkg.library (from_fields request.inputs))
      ]

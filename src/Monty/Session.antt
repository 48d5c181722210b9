-- ===== src/Monty/Session.antt =====
-- `MontySession` and `run_session` of crates/langshell-monty/src/lib.rs.
pub mod Run
pub mod Coherent
pub mod Bounded
pub mod Total
use langshell.Common.{
  ℕ, ◌+◌, ◌%◌, ◌^◌, ◌≡◌, refl, Bool, true, false, ◌||◌, ◌==◌, ◌<>◌, String, Option, none, some,
  get_or, and_then, List, [], ◌∷◌, ◌++◌, length, Result, ok, err, map_ok, ◌>>=◌, bytes,
  if◌then◌else◌,
}
use langshell.Core.{
  Value, Fields, from_fields, ErrorObject, Diagnostic, Metrics, RunRequest, RunResult, RunStatus,
  SessionId, SessionLimits, ExternalCallRecord, ok_result, error_result,
}
use langshell.Core.Digest.{Hashing, digest_bytes}
use langshell.Core.Registry.{ToolRegistry}
use langshell.Monty.Objects.{MontyObject, Interpreter, Library}
use langshell.Monty.Convert.{json_to_monty, monty_to_json_checked}
use langshell.Monty.Errors.{code_to_status}
use langshell.Monty.Limits.{metrics, truncate_stdout}
use langshell.Monty.Calls.{Host}
use langshell.Monty.Snippet.{Env, SnippetOutcome, run_repl_snippet}
use langshell.Monty.Validate.{Nodes, static_validation_error}

pub record MontySession (Repl : Type 0) : Type 0 where
  pub id : SessionId
  pub limits : SessionLimits
  pub repl : Repl

-- The other packages, as a session uses them: the tracker of the interpreter's state is in it.
pub record Packages (Repl K W : Type 0) : Type 0 where
  pub interpreter : Interpreter Repl K
  pub library : Library
  pub hashing : Hashing
  pub host : Host W
  pub parse_module : String → Option Nodes
  pub current_memory : Repl → ℕ
  pub set_max_duration : Repl → ℕ → Repl

-- `matches!(value, MontyObject::None)` and the conversion of another value.
expression_value : Library → MontyObject → Result ErrorObject (Option Value)
unfolding monty_to_json_checked
expression_value lib MontyObject.none = ok none
expression_value lib value = map_ok some (monty_to_json_checked lib value)

inputs_to_monty : Library → List (String × Value) → Result ErrorObject (List (String × MontyObject))
unfolding json_to_monty
inputs_to_monty lib [] = ok []
inputs_to_monty lib ((name, value) ∷ inputs) = json_to_monty lib.as_f64 value >>= λ o.
    map_ok (λ os. (name, o) ∷ os) (inputs_to_monty lib inputs)

abbrev push_diagnostic : Option Diagnostic → RunResult → RunResult
push_diagnostic none result = result
push_diagnostic (some d) result = record result { diagnostics = result.diagnostics ++ d ∷ [] }

-- What a run has when its program has ended: `records.len() as u32` is cut to 32 bits.
pub record Ended (Repl W : Type 0) : Type 0 where
  pub repl : Repl
  pub stdout : String
  pub records : List ExternalCallRecord
  pub world : W

module _ {Repl K W : Type 0} (pkg : Packages Repl K W) where
  abbrev pub ended_metrics : W → Ended Repl W → Metrics
  ended_metrics started e =
      metrics (pkg.host.elapsed started e.world) (pkg.current_memory e.repl)
        (length e.records % 2 ^ 32)

  -- The returns with an error after the program has run.
  unfoldable pub end_with_error :
      MontySession Repl → W → RunStatus → ErrorObject → Ended Repl W → MontySession Repl × RunResult
  end_with_error session started status error e =
      let result = error_result status error e.stdout (ended_metrics started e) in
      (record session { repl = e.repl }, record result { external_calls = e.records })

  -- `SnippetOutcome::Error` of the program.
  unfoldable pub end_with_outcome_error :
      MontySession Repl → W → ErrorObject → Ended Repl W → MontySession Repl × RunResult
  unfolding end_with_error truncate_stdout code_to_status
  end_with_outcome_error session started error e =
      let (stdout, stdout_diag) = truncate_stdout e.stdout session.limits in
      let (session', result) =
        end_with_error session started (code_to_status error.code false) error
          (record e { stdout = stdout }) in
      (session', push_diagnostic stdout_diag result)

  abbrev snapshot_name : Bool → SessionId → Option String
  snapshot_name false id = none
  snapshot_name true id = some ("snap_" <> digest_bytes pkg.hashing (bytes id.id))

  -- The end of a run that succeeds.
  unfoldable pub end_with_value :
      MontySession Repl
      → RunRequest
      → W
      → Option Value
      → Ended Repl W
      → MontySession Repl × RunResult
  unfolding truncate_stdout
  end_with_value session request started value e =
      let (stdout, stdout_diag) = truncate_stdout e.stdout session.limits in
      let result = push_diagnostic stdout_diag (ok_result value stdout (ended_metrics started e)) in
      (
        record session { repl = e.repl },
        record result {
          external_calls = e.records;
          snapshot_id = snapshot_name request.return_snapshot session.id;
        },
      )

  -- The value of the probe, or its error, decides the result.
  unfoldable pub end_probe :
      MontySession Repl
      → RunRequest
      → W
      → Option Value
      → Result ErrorObject Value
      → Ended Repl W
      → MontySession Repl × RunResult
  unfolding end_with_value end_with_error
  end_probe session request started expression_result (ok value) e =
      end_with_value session request started (some value) e
  end_probe session request started expression_result (err error) e =
      end_with_error session started RunStatus.validation_error error e

  unfoldable pub end_probe_error :
      MontySession Repl
      → RunRequest
      → W
      → Option Value
      → ErrorObject
      → Ended Repl W
      → MontySession Repl × RunResult
  unfolding end_with_value end_with_error code_to_status
  end_probe_error session request started expression_result error e =
      if error.code == "UNKNOWN_TOOL" || error.code == "RUNTIME_ERROR"
      then end_with_value session request started expression_result e
      else end_with_error session started (code_to_status error.code false) error e

  abbrev env_of : MontySession Repl → ToolRegistry W → Env Repl K W
  env_of session registry = record {
    interpreter = pkg.interpreter;
    library = pkg.library;
    hashing = pkg.hashing;
    host = pkg.host;
    registry = registry;
    limits = session.limits;
  }

  -- The session and the result of a run, and the world after it.
  abbrev pub Done : Type 0
  Done = (MontySession Repl × RunResult) × W

  -- The program's output and records, with those of the probe after them.
  abbrev joined :
      String → List ExternalCallRecord → Repl → String → List ExternalCallRecord → W → Ended Repl W
  joined stdout records repl probe_stdout probe_records w = record {
    repl = repl;
    stdout = stdout <> probe_stdout;
    records = records ++ probe_records;
    world = w;
  }

  -- The match on `probe`, whose records follow those of the program.
  unfoldable pub after_probe :
      MontySession Repl
      → RunRequest
      → W
      → Option Value
      → String
      → List ExternalCallRecord
      → SnippetOutcome Repl × W
      → Done
  unfolding end_probe end_probe_error monty_to_json_checked
  after_probe session request started expr stdout records
        (SnippetOutcome.complete repl value probe_stdout probe_records, w) =
      (
        end_probe session request started expr (monty_to_json_checked pkg.library value)
            (joined stdout records repl probe_stdout probe_records w),
        w,
      )
  after_probe session request started expr stdout records
        (SnippetOutcome.error repl error probe_stdout probe_records, w) =
      (
        end_probe_error session request started expr error
            (joined stdout records repl probe_stdout probe_records w),
        w,
      )

  -- The probe, after a value that can be a result, or the error of one that cannot.
  unfoldable pub probe :
      ℕ
      → MontySession Repl
      → RunRequest
      → ToolRegistry W
      → W
      → Result ErrorObject (Option Value)
      → Ended Repl W
      → Option Done
  unfolding after_probe run_repl_snippet end_with_error
  probe fuel session request registry started (err error) e =
      some (end_with_error session started RunStatus.validation_error error e, e.world)
  probe fuel session request registry started (ok expression_result) e =
      and_then (run_repl_snippet (env_of session registry) fuel e.repl "result" [] e.world)
        λ outcome.
          some (after_probe session request started expression_result e.stdout e.records outcome)

  -- The match on `run_outcome`.
  unfoldable pub after_program :
      ℕ
      → MontySession Repl
      → RunRequest
      → ToolRegistry W
      → W
      → SnippetOutcome Repl × W
      → Option Done
  unfolding probe expression_value end_with_outcome_error
  after_program fuel session request registry started
        (SnippetOutcome.complete repl value stdout records, w) =
      probe fuel session request registry started (expression_value pkg.library value)
        (record { repl = repl; stdout = stdout; records = records; world = w })
  after_program fuel session request registry started
        (SnippetOutcome.error repl error stdout records, w) =
      some (
        end_with_outcome_error session started error
            (record { repl = repl; stdout = stdout; records = records; world = w }),
        w,
      )

-- ===== src/Deno/Session/Run.antt =====
-- `DenoSession::new`, `DenoSession::run`, `transpile_typescript` and `validate_request` of
-- crates/langshell-deno/src/lib.rs.
pub mod Coherent
pub mod Accounted
pub mod Created
pub mod Carried
use langshell.Common.{
  ℕ, ◌%◌, ◌^◌, Bool, true, false, ◌<>◌, String, Option, none, some, get_or, or_else, List, [],
  length, bytes, Result, ok, err, map_ok, map_err, ◌>>=◌,
}
use langshell.Core.{
  Value, ErrorObject, new_error, Metrics, RunRequest, RunResult, RunStatus, SessionId,
  SessionLimits, ok_result, error_result,
}
use langshell.Core.Digest.{digest_bytes}
use langshell.Core.Registry.{ToolRegistry}
use langshell.Deno.Errors.{code_to_status, metrics}
use langshell.Deno.Ops.{DenoOpState, new_state, reset_run_state}
use langshell.Deno.Ops.Calls.{OpSystem}
use langshell.Deno.Scripts.{
  Packages, Live, Answer, wrap_user_code, inject_inputs, execute_user_code, read_result,
}
use langshell.Deno.Session.{
  DenoSession, live_of, keep_live, run_state_snapshot, heap_max, error_of, install_tool_globals,
}
use langshell.Deno.Streams.{RunStateSnapshot, apply_streams}
use langshell.Deno.Validate.{Nodes, static_validation_error}

abbrev program_of : {Parsed : Type 0} → (Parsed → Nodes) → Result String Parsed → Option Nodes
program_of program (err e) = none
program_of program (ok parsed) = some (program parsed)

module _ {Js V Parsed W : Type 0} (pkg : Packages Js V Parsed W) where
  abbrev first_live : Js → SessionLimits → ToolRegistry W → W → Live Js W
  first_live js limits registry w = record {
    js = js;
    ops = record { data_of = new_state registry limits; running = []; world = w };
  }

  installed :
      SessionId → SessionLimits → Answer Js W (Unit {0}) → Result ErrorObject (DenoSession Js W) × W
  installed id limits (err e, live) = (err e, live.ops.world)
  installed id limits (ok u, live) = (
    ok (record {
      id = id;
      limits = limits;
      js = live.js;
      op_state = live.ops.data_of;
      running = live.ops.running;
    }),
    live.ops.world,
  )

  create :
      SessionId
      → SessionLimits
      → ToolRegistry W
      → W
      → Result String Js
      → Result ErrorObject (DenoSession Js W) × W
  unfolding install_tool_globals installed
  create id limits registry w (err e) = (err (new_error "RUNTIME_ERROR" e), w)
  create id limits registry w (ok js) =
      installed id limits (install_tool_globals pkg (first_live js limits registry w) registry)

  -- `DenoSession::new`.
  unfoldable pub new_session :
      SessionId → SessionLimits → ToolRegistry W → W → Result ErrorObject (DenoSession Js W) × W
  unfolding create heap_max
  new_session id limits registry w =
      create id limits registry w (pkg.engine.try_new (heap_max limits))

  unfoldable pub transpile_typescript : String → Result ErrorObject String
  transpile_typescript code = do
    parsed ← map_err (λ e. new_error "SYNTAX_ERROR" e) (pkg.parse_module code)
    map_err (λ e. new_error "SYNTAX_ERROR" e) (pkg.transpile parsed)

  -- The static validation, and then the JavaScript.
  unfoldable pub checked_code : ToolRegistry W → String → Result ErrorObject String
  unfolding static_validation_error transpile_typescript
  checked_code registry code =
      elim (static_validation_error registry (program_of pkg.program (pkg.parse_module code))) [
        | some e ↦ err e
        | none ↦ transpile_typescript code
      ]

  -- The metrics of a result, from the times and the number of records: `records.len() as u32` is cut.
  abbrev metrics_at : W → W → ℕ → Metrics
  metrics_at started now calls = metrics (pkg.host.elapsed started now) (calls % 2 ^ 32)

  abbrev refused_result : W → W → ErrorObject → RunResult
  refused_result started now e =
      error_result (code_to_status e.code true) e "" (metrics_at started now 0)

  validated : W → Result ErrorObject String → RunResult
  unfolding code_to_status
  validated w (err e) = refused_result w w e
  validated w (ok js) = ok_result none "" (metrics_at w w 0)

  unfoldable pub validate_request : RunRequest → ToolRegistry W → W → RunResult
  unfolding checked_code validated
  validate_request request registry w = validated w (checked_code registry request.code)

  -- A result with an error after the program has run, with what the run had printed and called by then.
  ended_with_error :
      DenoSession Js W → W → RunStatus → ErrorObject → RunStateSnapshot → Live Js W → RunResult
  unfolding apply_streams
  ended_with_error session started status e state live =
      apply_streams
        (error_result status e "" (metrics_at started live.ops.world (length state.records))) state
        session.limits

  abbrev snapshot_name : Bool → SessionId → Option String
  snapshot_name false id = none
  snapshot_name true id = some ("snap_" <> digest_bytes pkg.hashing (bytes id.id))

  ended_with_value :
      DenoSession Js W → RunRequest → W → Option Value → RunStateSnapshot → Live Js W → RunResult
  unfolding apply_streams
  ended_with_value session request started value state live =
      let result =
        apply_streams
          (ok_result value "" (metrics_at started live.ops.world (length state.records))) state
          session.limits in
      record result { snapshot_id = snapshot_name request.return_snapshot session.id }

  -- The result is read after the streams and the records are taken.
  after_read :
      DenoSession Js W
      → RunRequest
      → W
      → RunStateSnapshot
      → Answer Js W (Option Value)
      → RunResult × Live Js W
  unfolding ended_with_error ended_with_value
  after_read session request started state (err e, live) =
      (ended_with_error session started RunStatus.validation_error e state live, live)
  after_read session request started state (ok value, live) =
      (ended_with_value session request started value state live, live)

  -- By the error of the program, or else the last one of the ops.
  after_error :
      DenoSession Js W → RunRequest → W → Live Js W → Option ErrorObject → RunResult × Live Js W
  unfolding ended_with_error after_read read_result run_state_snapshot code_to_status
  after_error session request started live (some e) = (
    ended_with_error session started (code_to_status e.code false) e (run_state_snapshot live) live,
    live,
  )
  after_error session request started live none =
      after_read session request started (run_state_snapshot live) (read_result pkg live)

  after_program : DenoSession Js W → RunRequest → W → Answer Js W (Unit {0}) → RunResult × Live Js W
  unfolding after_error
  after_program session request started (r, live) =
      after_error session request started live (or_else (error_of r) live.ops.data_of.error)

  after_inputs :
      DenoSession Js W → RunRequest → W → String → Answer Js W (Unit {0}) → RunResult × Live Js W
  unfolding after_program execute_user_code wrap_user_code
  after_inputs session request started js (err e, live) =
      (error_result RunStatus.validation_error e "" (metrics_at started live.ops.world 0), live)
  after_inputs session request started js (ok u, live) = after_program session request started (
      execute_user_code pkg live (wrap_user_code js)
        (get_or request.timeout_ms session.limits.wall_ms))

  -- `reset_run_state` of the session.
  abbrev reset_live : DenoSession Js W → ToolRegistry W → W → Live Js W
  unfolding reset_run_state
  reset_live session registry w =
      live_of
        (record session { op_state = reset_run_state session.op_state registry session.limits }) w

  after_checked :
      DenoSession Js W
      → RunRequest
      → ToolRegistry W
      → W
      → Result ErrorObject String
      → RunResult × Live Js W
  unfolding after_inputs inject_inputs reset_run_state code_to_status
  after_checked session request registry w (err e) = (refused_result w w e, live_of session w)
  after_checked session request registry w (ok js) =
      after_inputs session request w js
        (inject_inputs pkg (reset_live session registry w) request.inputs)

  -- `DenoSession::run`: the result, the session and the world that it leaves.
  unfoldable pub run :
      DenoSession Js W → RunRequest → ToolRegistry W → W → (RunResult × DenoSession Js W) × W
  unfolding after_checked checked_code
  run session request registry w =
      let (result, live) =
        after_checked session request registry w (checked_code registry request.code) in
      ((result, keep_live session live), live.ops.world)

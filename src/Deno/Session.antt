-- ===== src/Deno/Session.antt =====
-- `DenoSession` of crates/langshell-deno/src/lib.rs: `new`, `run` and their parts, and `validate_request`.
pub mod Run
use langshell.Common.{
  ℕ, ◌*◌, ◌%◌, ◌^◌, Bool, true, false, ◌<>◌, String, Option, none, some, get_or, or_else, List, [],
  ◌∷◌, ◌++◌, length, bytes, Result, ok, err, map_ok, map_err, ◌>>=◌, leb, if◌then◌else◌,
}
use langshell.Core.{
  Value, Fields, to_items, to_fields, ErrorObject, new_error, Metrics, RunRequest, RunResult,
  RunStatus, SessionId, SessionLimits, ok_result, error_result,
}
use langshell.Core.Digest.{digest_bytes}
use langshell.Core.Registry.{RegisteredTool, ToolRegistry, names, get_tool}
use langshell.Monty.Limits.{saturate, usize_max}
use langshell.Deno.Errors.{code_to_status, error_from_js, metrics}
use langshell.Deno.Ops.{DenoOpState, RunningCall, new_state, reset_run_state}
use langshell.Deno.Ops.Calls.{OpSystem}
use langshell.Deno.Engine.{Engine, run_script}
use langshell.Deno.Scripts.{
  Packages, Live, Answer, wrap_user_code, execute_script_unit, inject_inputs, execute_user_code,
  read_result,
}
use langshell.Deno.Streams.{RunStateSnapshot, apply_streams}
use langshell.Deno.Validate.{static_validation_error}

-- `runtime` is the JavaScript state, the state of the ops and the calls that still run.
pub record DenoSession (Js W : Type 0) : Type 0 where
  pub id : SessionId
  pub limits : SessionLimits
  pub js : Js
  pub op_state : DenoOpState W
  pub running : List (RunningCall W)

module _ {Js W : Type 0} where
  abbrev pub live_of : DenoSession Js W → W → Live Js W
  live_of session w = record {
    js = session.js;
    ops = record { data_of = session.op_state; running = session.running; world = w };
  }

  abbrev pub keep_live : DenoSession Js W → Live Js W → DenoSession Js W
  keep_live session live = record session {
    js = live.js;
    op_state = live.ops.data_of;
    running = live.ops.running;
  }

  unfoldable pub run_state_snapshot : Live Js W → RunStateSnapshot
  run_state_snapshot live =
      let state = live.ops.data_of in
      record {
        stdout = state.stdout;
        stderr = state.stderr;
        records = state.records;
        error = state.error;
      }

-- `(limits.memory_mb as usize).saturating_mul(1024 * 1024).max(1)`
unfoldable pub heap_max : SessionLimits → ℕ
heap_max limits =
    let size = saturate usize_max (limits.memory_mb * (1_024 * 1_024)) in
    if leb 1 size then size else 1

abbrev with_tool : {W : Type 0} → String → Option (RegisteredTool W) → List Value → List Value
with_tool name none rest = rest
with_tool name (some tool) rest =
    Value.object
      (to_fields (("asyncMode", Value.bool tool.async_mode) ∷ ("name", Value.string name) ∷ []))
    ∷ rest

tool_defs : {W : Type 0} → ToolRegistry W → List String → List Value
unfolding get_tool
tool_defs registry [] = []
tool_defs registry (name ∷ rest) = with_tool name (get_tool registry name) (tool_defs registry rest)

abbrev error_of {ℓ} : {A : Type ℓ} → Result ErrorObject A → Option ErrorObject
error_of (ok a) = none
error_of (err e) = some e

module _ {Js V Parsed W : Type 0} (pkg : Packages Js V Parsed W) where
  -- The bootstrap script of `install_tool_globals`, on the text of the definitions.
  install_text : Live Js W → Result String String → Answer Js W (Unit {0})
  unfolding run_script
  install_text live (err e) = (err (new_error "SERIALIZE_ERROR" ("tool metadata: " <> e)), live)
  install_text live (ok tools) =
      let ((js, r), ops) =
        run_script pkg.hashing pkg.host (pkg.engine.bootstrap live.js tools) live.ops in
      (
        map_err (λ message. error_from_js message false) (map_ok (λ _. tt) r),
        record { js = js; ops = ops },
      )

  unfoldable pub install_tool_globals : Live Js W → ToolRegistry W → Answer Js W (Unit {0})
  unfolding install_text tool_defs names
  install_tool_globals live registry =
      install_text live
        (pkg.to_string (Value.array (to_items (tool_defs registry (names registry)))))

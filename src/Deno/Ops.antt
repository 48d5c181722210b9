-- ===== src/Deno/Ops.antt =====
-- `DenoOpState` and the ops of crates/langshell-deno/src/lib.rs: `op_print`, the two calls of tools and
-- their parts. A JavaScript error is its message.
pub mod Calls
mod Tests
use langshell.Common.{
  ℕ, ◌+◌, Bool, true, false, ltb, String, Option, none, some, List, [], ◌∷◌, ◌++◌, Result, ok, err,
  ◌<>◌, decimal, if◌then◌else◌,
}
use langshell.Core.{
  Value, Fields, to_fields, to_items, ErrorObject, ToolError, ToolCallContext, ExternalCallRecord,
  CallStatus, Capability, SessionLimits, new_error, with_hint,
}
use langshell.Core.Digest.{Hashing, digest_json}
use langshell.Core.Registry.{RegisteredTool, ToolRegistry, get_tool, call}
use langshell.Monty.Limits.{saturate, u32_max, elapsed_ms}
use langshell.Monty.Calls.{Host}

pub record DenoOpState (W : Type 0) : Type 0 where
  pub registry : ToolRegistry W
  pub limits : SessionLimits
  pub stdout : String
  pub stderr : String
  pub records : List ExternalCallRecord
  pub started_calls : ℕ
  pub error : Option ErrorObject

abbrev pub error_object_to_js : ErrorObject → String
error_object_to_js error = error.code <> ": " <> error.message

-- What a future of `op_langshell_call_tool_async` holds while its tool runs.
pub record RunningCall (W : Type 0) : Type 0 where
  pub tool : RegisteredTool W
  pub ctx : ToolCallContext

abbrev pub calls_exceeded : ℕ → ErrorObject
calls_exceeded max =
    new_error "EXTERNAL_CALLS_EXCEEDED" ("External call limit " <> decimal max <> " exceeded.")

abbrev pub unknown_tool : String → ErrorObject
unknown_tool name =
    with_hint (new_error "UNKNOWN_TOOL" ("Function " <> name <> " is not registered."))
      "Call list_tools() or describe_tool() to inspect registered functions."

request_value : ToolCallContext → Value
request_value ctx = Value.object (
    to_fields
      (("args", Value.array (to_items ctx.args)) ∷ ("kwargs", Value.object ctx.kwargs) ∷ []))

-- The record of a call, by the handler's result.
outcome :
    Hashing
    → Capability
    → ToolCallContext
    → ℕ
    → Result ToolError Value
    → Result ErrorObject Value × ExternalCallRecord
unfolding request_value
outcome hashing capability ctx duration_ms (ok value) = (
  ok value,
  record {
    name = capability.name;
    side_effect = capability.side_effect;
    duration_ms = duration_ms;
    status = CallStatus.ok;
    request_digest = digest_json hashing (request_value ctx);
    response_digest = some (digest_json hashing value);
    error = none;
  },
)
outcome hashing capability ctx duration_ms (err e) =
    let error_object = new_error e.code e.message in
    (
      err error_object,
      record {
        name = capability.name;
        side_effect = capability.side_effect;
        duration_ms = duration_ms;
        status = CallStatus.error;
        request_digest = digest_json hashing (request_value ctx);
        response_digest = none;
        error = some error_object;
      },
    )

abbrev pub not_awaited : String → ErrorObject
not_awaited name =
    new_error "TYPE_ERROR" ("Tool " <> name <> " is asynchronous; call it with await.")

module _ {W : Type 0} where
  -- `DenoOpState::new`.
  abbrev pub new_state : ToolRegistry W → SessionLimits → DenoOpState W
  new_state registry limits = record {
    registry = registry;
    limits = limits;
    stdout = "";
    stderr = "";
    records = [];
    started_calls = 0;
    error = none;
  }

  -- `reset_run_state`, which every run begins with.
  unfoldable pub reset_run_state : DenoOpState W → ToolRegistry W → SessionLimits → DenoOpState W
  reset_run_state state registry limits = record state {
    registry = registry;
    limits = limits;
    stdout = "";
    stderr = "";
    records = [];
    started_calls = 0;
    error = none;
  }

  unfoldable pub op_print : DenoOpState W → String → Bool → DenoOpState W
  op_print state msg true = record state { stderr = state.stderr <> msg }
  op_print state msg false = record state { stdout = state.stdout <> msg }

  -- `data.error = Some(error.clone())`, and the error for JavaScript.
  abbrev pub fail_with {ℓ} :
      {A : Type ℓ} → DenoOpState W → ErrorObject → Result String A × DenoOpState W
  fail_with state error = (err (error_object_to_js error), record state { error = some error })

  prepare_found :
      DenoOpState W
      → ToolCallContext
      → Option (RegisteredTool W)
      → Result String (RunningCall W) × DenoOpState W
  prepare_found state ctx none = fail_with state (unknown_tool ctx.name)
  prepare_found state ctx (some tool) = (ok (record { tool = tool; ctx = ctx }), state)

  unfoldable pub prepare_tool_call :
      DenoOpState W → ToolCallContext → Result String (RunningCall W) × DenoOpState W
  unfolding prepare_found get_tool
  prepare_tool_call state ctx =
      let started = saturate u32_max (state.started_calls + 1) in
      let counted = record state { started_calls = started } in
      if ltb state.limits.max_external_calls started
      then fail_with counted (calls_exceeded state.limits.max_external_calls)
      else prepare_found counted ctx (get_tool state.registry ctx.name)

  unfoldable pub run_tool :
      Hashing → Host W → RunningCall W → W → (Result ErrorObject Value × ExternalCallRecord) × W
  unfolding outcome
  run_tool hashing host running w =
      let (answer, w') = call running.tool running.ctx w in
      (
        outcome hashing running.tool.capability running.ctx (elapsed_ms (host.elapsed w w')) answer,
        w',
      )

  unfoldable pub finish_tool_call :
      DenoOpState W
      → Result ErrorObject Value × ExternalCallRecord
      → Result String Value × DenoOpState W
  finish_tool_call state (ok value, r) =
      (ok value, record state { records = state.records ++ r ∷ [] })
  finish_tool_call state (err e, r) =
      fail_with (record state { records = state.records ++ r ∷ [] }) e

  -- The rest of the synchronous call, after `prepare_tool_call`.
  run_prepared :
      Hashing
      → Host W
      → Result String (RunningCall W) × DenoOpState W
      → W
      → (Result String Value × DenoOpState W) × W
  unfolding run_tool finish_tool_call
  run_prepared hashing host (err e, state) w = ((err e, state), w)
  run_prepared hashing host (ok running, state) w =
      let (answer, w') = run_tool hashing host running w in
      if running.tool.async_mode
      then (fail_with state (not_awaited running.tool.capability.name), w)
      else (finish_tool_call state answer, w')

  unfoldable pub op_langshell_call_tool_sync :
      Hashing
      → Host W
      → DenoOpState W
      → ToolCallContext
      → W
      → (Result String Value × DenoOpState W) × W
  unfolding prepare_tool_call run_prepared
  op_langshell_call_tool_sync hashing host state ctx w =
      run_prepared hashing host (prepare_tool_call state ctx) w

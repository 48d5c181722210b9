-- ===== src/Deno/Ops/Calls.antt =====
-- Interleavings of the ops: a step is an op, or the end of a call that runs. The asynchronous op is two steps,
-- its preparation and its end, between which the state is not borrowed.
pub mod Accounting
pub mod Runs
pub mod Clean
pub mod Carried
use langshell.Common.{
  ℕ, suc, ◌+◌, ◌<◌, ◌≤◌, ◌≡◌, refl, ap, Bool, true, false, ltb, String, Option, none, some, List,
  [], ◌∷◌, ◌++◌, length, length-append, All, All-append, Result, ok, err, by_test, arith,
}
use langshell.Core.{
  Value, ErrorObject, ToolError, ToolCallContext, ExternalCallRecord, Capability, SessionLimits,
}
use langshell.Core.Digest.{Hashing}
use langshell.Core.Registry.{RegisteredTool, ToolRegistry, get_tool, call}
use langshell.Monty.Limits.{saturate, u32_max}
use langshell.Monty.Calls.{Host}
use langshell.Monty.Snippet.Accounting.{IsKnown, IsRecorded}
use langshell.Deno.Ops.{
  DenoOpState, RunningCall, reset_run_state, op_print, prepare_found, prepare_tool_call, outcome,
  run_tool, finish_tool_call, fail_with, calls_exceeded, run_prepared, op_langshell_call_tool_sync,
}

-- The op state, the calls that run, and the world.
pub record OpSystem (W : Type 0) : Type 0 where
  pub data_of : DenoOpState W
  pub running : List (RunningCall W)
  pub world : W

module _ {W : Type 0} (hashing : Hashing) (host : Host W) where
  started : OpSystem W → Result String (RunningCall W) × DenoOpState W → OpSystem W
  started s (err e, state) = record s { data_of = state }
  started s (ok call, state) = record s { data_of = state; running = call ∷ s.running }

  -- The first part of `op_langshell_call_tool_async`.
  unfoldable pub start_async : OpSystem W → ToolCallContext → OpSystem W
  unfolding started prepare_tool_call
  start_async s ctx = started s (prepare_tool_call s.data_of ctx)

  -- The rest of it, for a call that leaves the others running.
  unfoldable pub finish_async : OpSystem W → RunningCall W → List (RunningCall W) → OpSystem W
  unfolding run_tool finish_tool_call
  finish_async s call others =
      let (answer, w) = run_tool hashing host call s.world in
      record { data_of = (finish_tool_call s.data_of answer).1; running = others; world = w }

  unfoldable pub call_sync : OpSystem W → ToolCallContext → OpSystem W
  unfolding op_langshell_call_tool_sync
  call_sync s ctx =
      let ((r, state), w) = op_langshell_call_tool_sync hashing host s.data_of ctx s.world in
      record s { data_of = state; world = w }

  pub data Step : OpSystem W → OpSystem W → Type 0 where
    print :
        (s : OpSystem W) (msg : String) (is_err : Bool)
        → Step s (record s { data_of = op_print s.data_of msg is_err })
    sync : (s : OpSystem W) (ctx : ToolCallContext) → Step s (call_sync s ctx)
    async : (s : OpSystem W) (ctx : ToolCallContext) → Step s (start_async s ctx)
    finish :
        (state : DenoOpState W) (before : List (RunningCall W)) (call : RunningCall W)
        (after : List (RunningCall W)) (w : W)
        → Step
            (record { data_of = state; running = before ++ call ∷ after; world = w })
            (finish_async
              (record { data_of = state; running = before ++ call ∷ after; world = w })
              call
              (before ++ after))

  pub data Steps : OpSystem W → OpSystem W → Type 0 where
    done : (s : OpSystem W) → Steps s s
    step : {s t u : OpSystem W} → Step s t → Steps t u → Steps s u

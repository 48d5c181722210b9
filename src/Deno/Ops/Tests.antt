-- ===== src/Deno/Ops/Tests.antt =====
-- The ops of crates/langshell-deno/src/lib.rs run with one tool, and instances of their theorem.
use langshell.Common.{ℕ, suc, ◌≡◌, refl, String, [], ◌∷◌, ok, arith}
use langshell.Core.{
  Value, Number, to_fields, default_limits, new_capability, SideEffect, ToolCallContext,
}
use langshell.Core.Digest.{Hashing}
use langshell.Core.Registry.{RegisteredTool, ToolRegistry, sync, get_tool}
use langshell.Monty.Calls.{Host}
use langshell.Deno.Ops.{
  RunningCall, new_state, reset_run_state, op_langshell_call_tool_sync, prepare_tool_call,
}
use langshell.Deno.Ops.Calls.{OpSystem, start_async, finish_async, call_sync, Step, Steps}
use langshell.Deno.Ops.Calls.Runs.{IsAccounted, reset_run_state-IsAccounted}

abbrev hashing : Hashing
hashing = record { sha3_256 = λ bs. []; to_vec = λ v. [] }

-- The world counts the calls of the tool.
abbrev host : Host ℕ
host = record { elapsed = λ w w'. 1; choose = λ w. 0 }

abbrev tick : RegisteredTool ℕ
tick =
    sync (new_capability "tick" "Counts." SideEffect.none)
      (λ ctx w. (ok (Value.number (Number.pos_int w)), suc w))

abbrev registry : ToolRegistry ℕ
registry = record { tools = ("tick", tick) ∷ [] }

abbrev call_of : String → ToolCallContext
call_of name = record { name = name; args = []; kwargs = to_fields [] }

abbrev begun : OpSystem ℕ
begun = record {
  data_of = reset_run_state (new_state registry default_limits) registry default_limits;
  running = [];
  world = 7;
}

-- Two asynchronous calls of `tick`, a synchronous one and one of a tool that is not registered; then the call
-- that began first ends.
abbrev two_running : OpSystem ℕ
two_running =
    start_async hashing host (start_async hashing host begun (call_of "tick")) (call_of "tick")

abbrev two_more : OpSystem ℕ
two_more =
    call_sync hashing host (call_sync hashing host two_running (call_of "tick")) (call_of "tock")

abbrev running_tick : RunningCall ℕ
running_tick = record { tool = tick; ctx = call_of "tick" }

abbrev one_ended : OpSystem ℕ
one_ended = finish_async hashing host two_more running_tick (running_tick ∷ [])

two_more-running : two_more.running ≡ running_tick ∷ running_tick ∷ []
unfolding start_async call_sync op_langshell_call_tool_sync prepare_tool_call get_tool
    reset_run_state new_capability
two_more-running = refl

one_ended-world : one_ended.world ≡ 9
unfolding start_async call_sync finish_async op_langshell_call_tool_sync prepare_tool_call get_tool
    reset_run_state new_capability
one_ended-world = refl

many-Steps : Steps hashing host begun one_ended
unfolding start_async call_sync op_langshell_call_tool_sync prepare_tool_call get_tool
    reset_run_state new_capability
many-Steps = Steps.step (Step.async begun (call_of "tick")) (
    Steps.step (Step.async _ (call_of "tick")) (
      Steps.step (Step.sync two_running (call_of "tick")) (
        Steps.step (Step.sync _ (call_of "tock")) (
          Steps.step
            (Step.finish two_more.data_of (running_tick ∷ []) running_tick [] two_more.world)
            (Steps.done one_ended)))))

reset_run_state-IsAccounted_example : IsAccounted registry default_limits hashing host one_ended
reset_run_state-IsAccounted_example =
    reset_run_state-IsAccounted registry default_limits hashing host (omega arith)
      (new_state registry default_limits) 7 many-Steps

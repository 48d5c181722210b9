-- ===== src/Deno/Ops/Calls/Clean.antt =====
-- An op state without an error has records of calls that succeeded, in every interleaving.
use langshell.Common.{
  ℕ, ◌+◌, ltb, ◌≡◌, refl, Bool, true, false, String, Option, none, some, [], ◌∷◌, All, All-append,
  Result, ok, err, by_test,
}
use langshell.Core.{
  Value, ErrorObject, ToolError, ToolCallContext, ExternalCallRecord, CallStatus, Capability,
}
use langshell.Core.Digest.{Hashing}
use langshell.Core.Registry.{RegisteredTool, call, get_tool}
use langshell.Monty.Limits.{saturate, u32_max}
use langshell.Monty.Calls.{Host}
use langshell.Deno.Ops.{
  DenoOpState, RunningCall, op_print, prepare_found, prepare_tool_call, outcome, run_tool,
  finish_tool_call, run_prepared, fail_with, calls_exceeded, not_awaited,
  op_langshell_call_tool_sync,
}
use langshell.Deno.Ops.Calls.{
  OpSystem, started, start_async, finish_async, call_sync, Step, print, sync, async, finish, Steps,
  done, step,
}

abbrev pub Succeeded : ExternalCallRecord → Type 0
Succeeded r = r.status ≡ CallStatus.ok

-- A call that gives a value is recorded as one that succeeded.
abbrev Shows : Result ErrorObject Value × ExternalCallRecord → Type 0
Shows (ok value, r) = Succeeded r
Shows (err e, r) = Unit

module _ {W : Type 0} where
  abbrev pub IsClean : DenoOpState W → Type 0
  IsClean state = state.error ≡ none → All Succeeded state.records

  failed-IsClean :
      (state : DenoOpState W) (e : ErrorObject) → IsClean (record state { error = some e })
  failed-IsClean state e h = cc

  op_print-IsClean :
      (state : DenoOpState W) (msg : String) (is_err : Bool)
      → IsClean state
      → IsClean (op_print state msg is_err)
  unfolding op_print
  op_print-IsClean state msg true c = c
  op_print-IsClean state msg false c = c

  prepare_found-IsClean :
      (state : DenoOpState W) (ctx : ToolCallContext) (o : Option (RegisteredTool W))
      → IsClean state
      → IsClean (prepare_found state ctx o).1
  unfolding prepare_found
  prepare_found-IsClean state ctx none c = failed-IsClean state _
  prepare_found-IsClean state ctx (some tool) c = c

  prepare_tool_call-IsClean :
      (state : DenoOpState W) (ctx : ToolCallContext)
      → IsClean state
      → IsClean (prepare_tool_call state ctx).1
  unfolding prepare_tool_call
  prepare_tool_call-IsClean state ctx c =
      let begun = saturate u32_max (state.started_calls + 1) in
      let counted : DenoOpState W = record state { started_calls = begun } in
      by_test (λ (p : Result String (RunningCall W) × DenoOpState W). IsClean p.1)
        (ltb state.limits.max_external_calls begun)
        (fail_with counted (calls_exceeded state.limits.max_external_calls))
        (prepare_found counted ctx (get_tool state.registry ctx.name))
        (λ over. failed-IsClean counted (calls_exceeded state.limits.max_external_calls))
        (λ room. prepare_found-IsClean counted ctx (get_tool state.registry ctx.name) c)

  finish_tool_call-IsClean :
      (state : DenoOpState W) (answer : Result ErrorObject Value × ExternalCallRecord)
      → Shows answer
      → IsClean state
      → IsClean (finish_tool_call state answer).1
  unfolding finish_tool_call
  finish_tool_call-IsClean state (ok value, r) shown c h =
      All-append Succeeded state.records (r ∷ []) (c h) (shown, tt)
  finish_tool_call-IsClean state (err e, r) shown c h = cc

  module _ (hashing : Hashing) (host : Host W) where
    outcome-Shows :
        (capability : Capability) (ctx : ToolCallContext) (ms : ℕ) (answer : Result ToolError Value)
        → Shows (outcome hashing capability ctx ms answer)
    unfolding outcome
    outcome-Shows capability ctx ms (ok value) = refl
    outcome-Shows capability ctx ms (err e) = tt

    run_tool-Shows : (running : RunningCall W) (w : W) → Shows (run_tool hashing host running w).0
    unfolding run_tool
    run_tool-Shows running w =
        outcome-Shows running.tool.capability running.ctx _ (call running.tool running.ctx w).0

    run_prepared-IsClean :
        (p : Result String (RunningCall W) × DenoOpState W) (w : W)
        → IsClean p.1
        → IsClean (run_prepared hashing host p w).0.1
    unfolding run_prepared
    run_prepared-IsClean (err e, state) w c = c
    run_prepared-IsClean (ok running, state) w c =
        by_test (λ (x : (Result String Value × DenoOpState W) × W). IsClean x.0.1)
          running.tool.async_mode (fail_with state (not_awaited running.tool.capability.name), w)
          (
            finish_tool_call state (run_tool hashing host running w).0,
            (run_tool hashing host running w).1,
          )
          (λ async. failed-IsClean state (not_awaited running.tool.capability.name))
          (λ sync. finish_tool_call-IsClean state _ (run_tool-Shows running w) c)

    started-IsClean :
        (s : OpSystem W) (p : Result String (RunningCall W) × DenoOpState W)
        → IsClean p.1
        → IsClean (started hashing host s p).data_of
    unfolding started
    started-IsClean s (err e, state) c = c
    started-IsClean s (ok running, state) c = c

    step-IsClean :
        {s t : OpSystem W} → Step hashing host s t → IsClean s.data_of → IsClean t.data_of
    unfolding start_async finish_async call_sync op_langshell_call_tool_sync
    step-IsClean (print s msg is_err) c = op_print-IsClean s.data_of msg is_err c
    step-IsClean (sync s ctx) c =
        run_prepared-IsClean (prepare_tool_call s.data_of ctx) s.world
          (prepare_tool_call-IsClean s.data_of ctx c)
    step-IsClean (async s ctx) c =
        started-IsClean s (prepare_tool_call s.data_of ctx)
          (prepare_tool_call-IsClean s.data_of ctx c)
    step-IsClean (finish state front running back w) c =
        finish_tool_call-IsClean state _ (run_tool-Shows running w) c

    pub Steps-IsClean :
        {s t : OpSystem W} → Steps hashing host s t → IsClean s.data_of → IsClean t.data_of
    Steps-IsClean (done s) c = c
    Steps-IsClean (step first rest) c = Steps-IsClean rest (step-IsClean first c)

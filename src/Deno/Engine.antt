-- ===== src/Deno/Engine.antt =====
-- What crates/langshell-deno/src/lib.rs uses of the JavaScript engine, and the engine's calls of the ops. A
-- script that runs is a tree of what it does next: it prints, calls tools, is told of a call's end, and
-- ends; the engine decides each from the answers. So a script takes finitely many steps. One that would run
-- on for ever is ended by the timer, in a state that the engine chooses.
pub mod Trace
use langshell.Common.{ℕ, Bool, String, Option, none, some, List, [], ◌∷◌, Result, ok, err}
use langshell.Core.{Value, ToolCallContext}
use langshell.Core.Digest.{Hashing}
use langshell.Monty.Calls.{Host}
use langshell.Monty.Snippet.{take_at}
use langshell.Deno.Ops.{
  DenoOpState, RunningCall, op_print, prepare_tool_call, run_tool, finish_tool_call,
  op_langshell_call_tool_sync,
}
use langshell.Deno.Ops.Calls.{OpSystem, start_async, finish_async, call_sync}

-- `poll` waits for a call that runs to end, and has none if no call runs; which one ends is its number.
pub data Script (Js A : Type 0) : Type 0 where
  print : String → Bool → Script Js A → Script Js A
  sync : ToolCallContext → (Result String Value → Script Js A) → Script Js A
  async : ToolCallContext → (Option String → Script Js A) → Script Js A
  poll : ℕ → (Option (Result String Value) → Script Js A) → Script Js A
  ended : Js → A → Script Js A

-- `JsRuntime` with its isolate, and `serde_v8`; `V` is the type of the values that scripts leave. `bootstrap` runs
-- the JavaScript of `install_tool_globals` on the definitions of the tools. `event_loop` is
-- `with_event_loop_promise` of the value, within a number of milliseconds: `none` means that they are over.
-- `timer_fired` says whether the timer of a run had set its flag when a script was over.
pub record Engine (Js V : Type 0) : Type 0 where
  pub try_new : ℕ → Result String Js
  pub execute_script : Js → String → String → Script Js (Result String V)
  pub bootstrap : Js → String → Script Js (Result String V)
  pub event_loop : Js → V → ℕ → Script Js (Option (Result String V))
  pub timer_fired : Js → ℕ → Bool
  pub terminate_execution : Js → Js
  pub cancel_terminate_execution : Js → Js
  pub is_undefined : V → Bool
  pub value_from_v8 : Js → V → Result String Value
  pub string_from_v8 : Js → V → Result String String

-- What an asynchronous call is refused with, at once.
abbrev refusal : {W : Type 0} → Result String (RunningCall W) → Option String
refusal (ok call) = none
refusal (err message) = some message

module _ {W : Type 0} (hashing : Hashing) (host : Host W) where
  -- The answer of a call that ends.
  answer_of : OpSystem W → RunningCall W → Result String Value
  unfolding run_tool finish_tool_call
  answer_of s call = (finish_tool_call s.data_of (run_tool hashing host call s.world).0).0

  unfoldable pub run_script : {Js A : Type 0} → Script Js A → OpSystem W → (Js × A) × OpSystem W
  unfolding op_print op_langshell_call_tool_sync call_sync prepare_tool_call start_async
      finish_async take_at answer_of
  run_script (Script.print msg is_err rest) s =
      run_script rest (record s { data_of = op_print s.data_of msg is_err })
  run_script (Script.sync ctx next) s =
      run_script (next (op_langshell_call_tool_sync hashing host s.data_of ctx s.world).0.0)
        (call_sync hashing host s ctx)
  run_script (Script.async ctx next) s =
      run_script (next (refusal (prepare_tool_call s.data_of ctx).0))
        (start_async hashing host s ctx)
  run_script (Script.poll i next) s = elim (take_at i s.running) [
    | none ↦ run_script (next none) s
    | some p ↦ run_script (next (some (answer_of s p.0))) (finish_async hashing host s p.0 p.1)
  ]
  run_script (Script.ended js a) s = ((js, a), s)

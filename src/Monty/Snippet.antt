-- ===== src/Monty/Snippet.antt =====
-- `run_repl_snippet` and `SnippetOutcome` of crates/langshell-monty/src/lib.rs: one turn of its loop, the
-- inner loop that waits for a future, and the loop on fuel.
pub mod Accounting
pub mod Termination
use langshell.Common.{
  ℕ, zero, suc, ◌+◌, ◌<◌, ◌≡◌, refl, Bool, true, false, ltb, ◌==◌, ◌<>◌, String, Option, none, some,
  List, [], ◌∷◌, ◌++◌, length, Result, ok, err, if◌then◌else◌, decimal,
}
use langshell.Core.{
  ErrorObject, ToolCallContext, ExternalCallRecord, SessionLimits, new_error, with_hint,
}
use langshell.Core.Digest.{Hashing}
use langshell.Core.Registry.{RegisteredTool, ToolRegistry, get_tool}
use langshell.Monty.Objects.{
  MontyObject, MontyException, ExtFunctionResult, NameLookupResult, ReplProgress, Resumed,
  Interpreter, Library,
}
use langshell.Monty.Errors.{error_from_exception}
use langshell.Monty.Limits.{saturate, u32_max}
use langshell.Monty.Calls.{
  Host, Finished, run_tool_async, id_in, drain_ready_for, Drained, tool_context,
}

-- What the functions take from outside: the interpreter, Monty's library, the hash, the host, the registry
-- and the session's limits.
pub record Env (Repl K W : Type 0) : Type 0 where
  pub interpreter : Interpreter Repl K
  pub library : Library
  pub hashing : Hashing
  pub host : Host W
  pub registry : ToolRegistry W
  pub limits : SessionLimits

-- A future of `FuturesUnordered`: the arguments of its `run_tool_async`.
pub record PendingTool (W : Type 0) : Type 0 where
  pub call_id : ℕ
  pub tool : RegisteredTool W
  pub ctx : ToolCallContext

-- The variables of the loop, and the world that the tools change.
pub record LoopState (W : Type 0) : Type 0 where
  pub stdout : String
  pub records : List ExternalCallRecord
  pub started_calls : ℕ
  pub pending : List (PendingTool W)
  pub ready : List Finished
  pub world : W

pub data SnippetOutcome (Repl : Type 0) : Type 0 where
  complete : Repl → MontyObject → (stdout : String) → List ExternalCallRecord → SnippetOutcome Repl
  error : Repl → ErrorObject → (stdout : String) → List ExternalCallRecord → SnippetOutcome Repl

-- A turn of the loop goes on or returns.
pub data Turn (Repl K W : Type 0) : Type 0 where
  continue : ReplProgress Repl K → LoopState W → Turn Repl K W
  return : SnippetOutcome Repl → W → Turn Repl K W

-- `pending.next()`: the future at the host's place, or the last one if there are fewer.
unfoldable pub take_at {ℓ} : {A : Type ℓ} → ℕ → List A → Option (A × List A)
take_at i [] = none
take_at zero (x ∷ xs) = some (x, xs)
take_at (suc i) (x ∷ xs) = elim (take_at i xs) [
  | none ↦ some (x, xs)
  | some p ↦ some (p.0, x ∷ p.1)
]

-- The state after the loop that waits, with the results for the interpreter, which are none when no future
-- is left.
pub record Awaited (W : Type 0) : Type 0 where
  pub resolved : List (ℕ × ExtFunctionResult)
  pub after : LoopState W

module _ {Repl K W : Type 0} (env : Env Repl K W) where
  abbrev fail_with : Repl → ErrorObject → LoopState W → Turn Repl K W
  fail_with repl e s = Turn.return (SnippetOutcome.error repl e s.stdout s.records) s.world

  -- The match on a resumption that each branch ends with.
  unfoldable pub resumed : LoopState W → Resumed Repl K → Turn Repl K W
  unfolding error_from_exception
  resumed s (Resumed.progress printed progress) =
      Turn.continue progress (record s { stdout = s.stdout <> printed })
  resumed s (Resumed.failed printed repl e) =
      fail_with repl (error_from_exception e false) (record s { stdout = s.stdout <> printed })

  lookup_result : Option (RegisteredTool W) → NameLookupResult
  lookup_result none = NameLookupResult.undefined
  lookup_result (some tool) =
      NameLookupResult.value
        (MontyObject.function tool.capability.name (some tool.capability.description))

  abbrev calls_exceeded : ℕ → ErrorObject
  calls_exceeded max =
      new_error "EXTERNAL_CALLS_EXCEEDED" ("External call limit exceeded: " <> decimal max <> ".")

  abbrev unknown_tool : String → ErrorObject
  unknown_tool name =
      with_hint
        (new_error "UNKNOWN_TOOL" ("Function " <> name <> " is not registered in this session."))
        "Call list_tools() to inspect available capabilities."

  abbrev no_future : ErrorObject
  no_future =
      new_error "RUNTIME_ERROR"
        "Monty requested async future results but no host futures are pending."

  -- The call itself: queued when the tool is asynchronous, and run at once when it is not.
  unfoldable pub dispatch : ℕ → K → RegisteredTool W → ToolCallContext → LoopState W → Turn Repl K W
  unfolding run_tool_async resumed
  dispatch call_id k tool ctx s =
      let queued : PendingTool W = record { call_id = call_id; tool = tool; ctx = ctx } in
      let (finished, w) =
        run_tool_async env.library env.hashing env.host call_id tool ctx s.world in
      if tool.async_mode
      then resumed (record s { pending = s.pending ++ queued ∷ [] })
          (env.interpreter.resume_pending k)
      else resumed (record s { records = s.records ++ finished.record_of ∷ []; world = w })
          (env.interpreter.resume_call k finished.result)

  call_in_context :
      ℕ → K → RegisteredTool W → Result ErrorObject ToolCallContext → LoopState W → Turn Repl K W
  unfolding dispatch
  call_in_context call_id k tool (ok ctx) s = dispatch call_id k tool ctx s
  call_in_context call_id k tool (err e) s = fail_with (env.interpreter.into_repl k) e s

  call_tool :
      String
      → List MontyObject
      → List (MontyObject × MontyObject)
      → ℕ
      → K
      → Option (RegisteredTool W)
      → LoopState W
      → Turn Repl K W
  unfolding call_in_context tool_context
  call_tool name args kwargs call_id k none s =
      fail_with (env.interpreter.into_repl k) (unknown_tool name) s
  call_tool name args kwargs call_id k (some tool) s =
      call_in_context call_id k tool (tool_context env.library tool.capability.name args kwargs) s

  -- The branch of `ReplProgress::FunctionCall`.
  unfoldable pub function_call :
      String
      → List MontyObject
      → List (MontyObject × MontyObject)
      → ℕ
      → K
      → LoopState W
      → Turn Repl K W
  unfolding call_tool get_tool
  function_call name args kwargs call_id k s =
      let started = saturate u32_max (s.started_calls + 1) in
      let counted = record s { started_calls = started } in
      if ltb env.limits.max_external_calls started
      then fail_with (env.interpreter.into_repl k) (calls_exceeded env.limits.max_external_calls)
          counted
      else call_tool name args kwargs call_id k (get_tool env.registry name) counted

  -- A future's end in the loop that waits, which `again` goes on with.
  settle : (LoopState W → Awaited W) → Bool → Finished → LoopState W → Awaited W
  settle again true item s = record {
    resolved = (item.call_id, item.result) ∷ [];
    after = record s { records = s.records ++ item.record_of ∷ [] };
  }
  settle again false item s = again (record s { ready = s.ready ++ item ∷ [] })

  -- A turn of the loop that waits, with what `pending.next()` gives.
  await_turn :
      (LoopState W → Awaited W)
      → List ℕ
      → LoopState W
      → Option (PendingTool W × List (PendingTool W))
      → Awaited W
  unfolding run_tool_async settle
  await_turn again ids s none = record { resolved = []; after = s }
  await_turn again ids s (some (future, others)) =
      let (item, w) =
        run_tool_async env.library env.hashing env.host future.call_id future.tool future.ctx
          s.world in
      settle again (id_in ids item.call_id) item (record s { pending = others; world = w })

  -- A turn takes one future away, so the number of futures is fuel enough.
  unfoldable pub await_futures : ℕ → List ℕ → LoopState W → Awaited W
  unfolding take_at await_turn
  await_futures zero ids s = record { resolved = []; after = s }
  await_futures (suc fuel) ids s =
      await_turn (await_futures fuel ids) ids s (take_at (env.host.choose s.world) s.pending)

  resume_resolved : K → Awaited W → Turn Repl K W
  unfolding resumed
  resume_resolved k a = elim a.resolved [
    | [] ↦ fail_with (env.interpreter.into_repl k) no_future a.after
    | r ∷ rs ↦ resumed a.after (env.interpreter.resume_futures k (r ∷ rs))
  ]

  -- `while resolved.is_empty()`
  await_if_none : List ℕ → Awaited W → Awaited W
  unfolding await_futures
  await_if_none ids a = elim a.resolved [
    | [] ↦ await_futures (length a.after.pending) ids a.after
    | r ∷ rs ↦ a
  ]

  -- The branch of `ReplProgress::ResolveFutures`.
  unfoldable pub resolve_futures : List ℕ → K → LoopState W → Turn Repl K W
  unfolding drain_ready_for await_if_none resume_resolved
  resolve_futures ids k s =
      let drained = drain_ready_for ids s.ready s.records in
      let s' = record s { ready = drained.ready; records = drained.records } in
      resume_resolved k (await_if_none ids (record { resolved = drained.resolved; after = s' }))

  -- One turn of the loop.
  unfoldable pub advance : ReplProgress Repl K → LoopState W → Turn Repl K W
  unfolding resumed lookup_result get_tool function_call resolve_futures
  advance (ReplProgress.complete repl value) s =
      Turn.return (SnippetOutcome.complete repl value s.stdout s.records) s.world
  advance (ReplProgress.name_lookup name k) s =
      resumed s (env.interpreter.resume_lookup k (lookup_result (get_tool env.registry name)))
  advance (ReplProgress.function_call name args kwargs call_id k) s =
      function_call name args kwargs call_id k s
  advance (ReplProgress.resolve_futures ids k) s = resolve_futures ids k s
  advance (ReplProgress.os_call k) s = resumed s (env.interpreter.resume_os k)

  abbrev pub initial_state : W → LoopState W
  initial_state w = record {
    stdout = "";
    records = [];
    started_calls = 0;
    pending = [];
    ready = [];
    world = w;
  }

  -- The loop, `none` without fuel.
  unfoldable pub run_turns : ℕ → Turn Repl K W → Option (SnippetOutcome Repl × W)
  unfolding advance
  run_turns fuel (Turn.return outcome w) = some (outcome, w)
  run_turns zero (Turn.continue progress s) = none
  run_turns (suc fuel) (Turn.continue progress s) = run_turns fuel (advance progress s)

  unfoldable pub run_repl_snippet :
      ℕ → Repl → String → List (String × MontyObject) → W → Option (SnippetOutcome Repl × W)
  unfolding run_turns resumed
  run_repl_snippet fuel repl code inputs w =
      run_turns fuel (resumed (initial_state w) (env.interpreter.feed_start repl code inputs))

-- ===== src/Monty/Snippet/Accounting/Dispatch.antt =====
-- A call of the snippet keeps the account.
use langshell.Common.{
  ℕ, suc, ◌+◌, ◌<◌, ◌≤◌, ◌≡◌, refl, ltb, String, Option, none, some, List, length, All, Result, ok,
  err, by_test, ap, arith,
}
use langshell.Core.{ErrorObject, ToolCallContext}
use langshell.Core.Registry.{RegisteredTool, get_tool}
use langshell.Monty.Objects.{MontyObject}
use langshell.Monty.Limits.{saturate, u32_max}
use langshell.Monty.Snippet.{
  Env, LoopState, SnippetOutcome, dispatch, call_in_context, call_tool, function_call, fail_with,
}
use langshell.Monty.Snippet.Accounting.{
  IsRecorded, outcome_records, Accounted, OutcomeAccounted, TurnAccounted, resumed-Accounted,
  InHand, run_tool_async-IsRecorded, push_record, push_pending,
}

module _ {Repl K W : Type 0} (env : Env Repl K W) where
  dispatch-Accounted :
      (id : ℕ) (k : K) (tool : RegisteredTool W) (ctx : ToolCallContext) (s : LoopState W)
      → InHand env s tool
      → TurnAccounted env (dispatch env id k tool ctx s)
  unfolding dispatch
  dispatch-Accounted id k tool ctx s h =
      by_test (TurnAccounted env) tool.async_mode _ _
        (λ async. resumed-Accounted env _ _ (push_pending env s _ h))
        (λ sync. resumed-Accounted env _ _ (
          push_record env s tool _ _ h (run_tool_async-IsRecorded env id tool ctx s.world h.known)))

  returning_error :
      (s : LoopState W) (outcome : SnippetOutcome Repl) (tool : RegisteredTool W)
      → InHand env s tool
      → outcome_records outcome ≡ s.records
      → OutcomeAccounted env outcome
  returning_error s outcome tool h eq = record {
    within = rw eq (omega (arith, h.conserved, h.bounded));
    recorded = rw eq h.recorded;
  }

  call_in_context-Accounted :
      (id : ℕ) (k : K) (tool : RegisteredTool W) (ctx : Result ErrorObject ToolCallContext)
      → (s : LoopState W) → InHand env s tool
      → TurnAccounted env (call_in_context env id k tool ctx s)
  unfolding call_in_context
  call_in_context-Accounted id k tool (ok ctx) s h = dispatch-Accounted id k tool ctx s h
  call_in_context-Accounted id k tool (err e) s h = returning_error s _ tool h refl

  -- A counted call, which is not yet of any tool.
  counted : LoopState W → LoopState W
  counted s = record s { started_calls = suc s.started_calls }

  call_tool-Accounted :
      (name : String) (args : List MontyObject) (kwargs : List (MontyObject × MontyObject))
      → (id : ℕ) (k : K) (o : Option (RegisteredTool W)) → (s : LoopState W)
      → get_tool env.registry name ≡ o
      → Accounted env s
      → suc s.started_calls ≤ env.limits.max_external_calls
      → TurnAccounted env (call_tool env name args kwargs id k o (counted s))
  unfolding call_tool counted
  call_tool-Accounted name args kwargs id k none s eq a room = record {
    within = omega (arith, a.conserved, a.bounded);
    recorded = a.recorded;
  }
  call_tool-Accounted name args kwargs id k (some tool) s eq a room =
      call_in_context-Accounted id k tool _ (counted s) (record {
        conserved = ap suc a.conserved;
        bounded = room;
        recorded = a.recorded;
        waiting = a.waiting;
        pending_known = a.known;
        known = (name, eq);
      })

  failing-Accounted :
      (repl : Repl) (e : ErrorObject) (s : LoopState W)
      → length s.records ≤ env.limits.max_external_calls
      → All (IsRecorded env.registry) s.records
      → TurnAccounted env (fail_with env repl e s)
  failing-Accounted repl e s within recorded = record { within = within; recorded = recorded }

  saturate-suc :
      (s : LoopState W)
      → env.limits.max_external_calls < u32_max
      → Accounted env s
      → saturate u32_max (s.started_calls + 1) ≡ suc s.started_calls
  saturate-suc s small a = ground (arith, a.bounded)

  pub function_call-Accounted :
      (name : String) (args : List MontyObject) (kwargs : List (MontyObject × MontyObject))
      → (id : ℕ) (k : K) (s : LoopState W) → env.limits.max_external_calls < u32_max
      → Accounted env s
      → TurnAccounted env (function_call env name args kwargs id k s)
  unfolding function_call counted
  function_call-Accounted name args kwargs id k s small a =
      let within : length s.records ≤ env.limits.max_external_calls =
        omega (arith, a.conserved, a.bounded) in
      rw (saturate-suc s small a) (
        by_test (TurnAccounted env) (ltb env.limits.max_external_calls (suc s.started_calls)) _ _
          (λ over. failing-Accounted _ _ (counted s) within a.recorded)
          (λ room. call_tool-Accounted name args kwargs id k _ s refl a (ground arith)))

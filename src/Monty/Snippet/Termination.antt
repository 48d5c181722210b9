-- ===== src/Monty/Snippet/Termination.antt =====
-- The loop of a snippet ends when the interpreter does.
use langshell.Common.{
  ℕ, zero, suc, ◌+◌, ◌≤◌, ◌≡◌, refl, ltb, String, Option, none, some, List, [], ◌∷◌, Result, ok,
  err, by_test, arith,
}
use langshell.Core.{ErrorObject, ToolCallContext}
use langshell.Core.Registry.{RegisteredTool, get_tool}
use langshell.Monty.Objects.{
  Interpreter, NameLookupResult, MontyObject, ExtFunctionResult, ReplProgress, Resumed,
}
use langshell.Monty.Limits.{saturate, u32_max}
use langshell.Monty.Snippet.{
  Env, LoopState, SnippetOutcome, Turn, resumed, dispatch, call_in_context, call_tool,
  function_call, fail_with, calls_exceeded, resume_resolved, resolve_futures, advance, run_turns,
  run_repl_snippet,
}
use langshell.Monty.Snippet.{initial_state}

-- The number of times that the interpreter stops from here on. Monty's time and memory limits bound the
-- code that it runs, so that every resumption leaves fewer stops than the one before it.
module _ {Repl K : Type 0} (rank : K → ℕ) where
  abbrev pub progress_rank : ReplProgress Repl K → ℕ
  progress_rank (ReplProgress.complete repl value) = 0
  progress_rank (ReplProgress.name_lookup name k) = suc (rank k)
  progress_rank (ReplProgress.function_call name args kwargs call_id k) = suc (rank k)
  progress_rank (ReplProgress.resolve_futures ids k) = suc (rank k)
  progress_rank (ReplProgress.os_call k) = suc (rank k)

  abbrev pub ResumedWithin : ℕ → Resumed Repl K → Type 0
  ResumedWithin n (Resumed.progress printed progress) = progress_rank progress ≤ n
  ResumedWithin n (Resumed.failed printed repl e) = Unit

  pub record IsBounded (i : Interpreter Repl K) : Type 0 where
    pub lookup : (k : K) (r : NameLookupResult) → ResumedWithin (rank k) (i.resume_lookup k r)
    pub call : (k : K) (r : ExtFunctionResult) → ResumedWithin (rank k) (i.resume_call k r)
    pub pending : (k : K) → ResumedWithin (rank k) (i.resume_pending k)
    pub futures :
        (k : K) (rs : List (ℕ × ExtFunctionResult)) → ResumedWithin (rank k) (i.resume_futures k rs)
    pub os : (k : K) → ResumedWithin (rank k) (i.resume_os k)

module _ {Repl K W : Type 0} (env : Env Repl K W) (rank : K → ℕ) where
  abbrev TurnWithin : ℕ → Turn Repl K W → Type 0
  TurnWithin n (Turn.continue progress s) = progress_rank rank progress ≤ n
  TurnWithin n (Turn.return outcome w) = Unit

  resumed-TurnWithin :
      (n : ℕ) (s : LoopState W) (r : Resumed Repl K)
      → ResumedWithin rank n r
      → TurnWithin n (resumed env s r)
  unfolding resumed
  resumed-TurnWithin n s (Resumed.progress printed progress) h = h
  resumed-TurnWithin n s (Resumed.failed printed repl e) h = tt

  module _ (bounded : IsBounded rank env.interpreter) where
    call_in_context-TurnWithin :
        (id : ℕ) (k : K) (tool : RegisteredTool W) (ctx : Result ErrorObject ToolCallContext)
        → (s : LoopState W) → TurnWithin (rank k) (call_in_context env id k tool ctx s)
    unfolding call_in_context dispatch
    call_in_context-TurnWithin id k tool (err e) s = tt
    call_in_context-TurnWithin id k tool (ok ctx) s =
        by_test (TurnWithin (rank k)) tool.async_mode _ _
          (λ async. resumed-TurnWithin _ _ _ (bounded.pending k))
          (λ sync. resumed-TurnWithin _ _ _ (bounded.call k _))

    call_tool-TurnWithin :
        (name : String) (args : List MontyObject) (kwargs : List (MontyObject × MontyObject))
        → (id : ℕ) (k : K) (o : Option (RegisteredTool W)) (s : LoopState W)
        → TurnWithin (rank k) (call_tool env name args kwargs id k o s)
    unfolding call_tool
    call_tool-TurnWithin name args kwargs id k none s = tt
    call_tool-TurnWithin name args kwargs id k (some tool) s =
        call_in_context-TurnWithin id k tool _ s

    function_call-TurnWithin :
        (name : String) (args : List MontyObject) (kwargs : List (MontyObject × MontyObject))
        → (id : ℕ) (k : K) (s : LoopState W)
        → TurnWithin (rank k) (function_call env name args kwargs id k s)
    unfolding function_call
    function_call-TurnWithin name args kwargs id k s =
        let started = saturate u32_max (s.started_calls + 1) in
        by_test (TurnWithin (rank k)) (ltb env.limits.max_external_calls started)
          (fail_with env (env.interpreter.into_repl k)
            (calls_exceeded env env.limits.max_external_calls)
            (record s { started_calls = started }))
          (call_tool env name args kwargs id k (get_tool env.registry name)
            (record s { started_calls = started }))
          (λ over. tt) (λ room. call_tool-TurnWithin name args kwargs id k _ _)

    resume_resolved-TurnWithin :
        (k : K) (rs : List (ℕ × ExtFunctionResult)) (s : LoopState W)
        → TurnWithin (rank k) (resume_resolved env k (record { resolved = rs; after = s }))
    unfolding resume_resolved
    resume_resolved-TurnWithin k [] s = tt
    resume_resolved-TurnWithin k (r ∷ rs) s = resumed-TurnWithin _ _ _ (bounded.futures k (r ∷ rs))

    weaken : (m n : ℕ) (turn : Turn Repl K W) → m ≤ n → TurnWithin m turn → TurnWithin n turn
    weaken m n (Turn.continue progress s) le h = omega arith
    weaken m n (Turn.return outcome w) le h = tt

    -- A turn that does not return leaves fewer stops.
    advance-TurnWithin :
        (n : ℕ) (progress : ReplProgress Repl K) (s : LoopState W)
        → progress_rank rank progress ≤ suc n
        → TurnWithin n (advance env progress s)
    unfolding advance resolve_futures
    advance-TurnWithin n (ReplProgress.complete repl value) s h = tt
    advance-TurnWithin n (ReplProgress.name_lookup name k) s h =
        weaken (rank k) n _ (omega arith) (resumed-TurnWithin _ _ _ (bounded.lookup k _))
    advance-TurnWithin n (ReplProgress.function_call name args kwargs id k) s h =
        weaken (rank k) n (function_call env name args kwargs id k s) (omega arith)
          (function_call-TurnWithin name args kwargs id k s)
    advance-TurnWithin n (ReplProgress.resolve_futures ids k) s h =
        weaken (rank k) n _ (omega arith) (resume_resolved-TurnWithin k _ _)
    advance-TurnWithin n (ReplProgress.os_call k) s h =
        weaken (rank k) n _ (omega arith) (resumed-TurnWithin _ _ _ (bounded.os k))

    run_turns-eq-some :
        (fuel : ℕ) (turn : Turn Repl K W)
        → TurnWithin fuel turn
        → (outcome : SnippetOutcome Repl) × (w : W) × (run_turns env (suc fuel) turn
            ≡ some (outcome, w))
    unfolding run_turns
    run_turns-eq-some fuel (Turn.return o w) h = (o, w, refl)
    run_turns-eq-some zero (Turn.continue (ReplProgress.complete repl value) s) h = (_, _, refl)
    run_turns-eq-some zero (Turn.continue (ReplProgress.name_lookup name k) s) h =
        absurd (omega arith)
    run_turns-eq-some zero (Turn.continue (ReplProgress.function_call name args kwargs id k) s) h =
        absurd (omega arith)
    run_turns-eq-some zero (Turn.continue (ReplProgress.resolve_futures ids k) s) h =
        absurd (omega arith)
    run_turns-eq-some zero (Turn.continue (ReplProgress.os_call k) s) h = absurd (omega arith)
    run_turns-eq-some (suc fuel) (Turn.continue progress s) h =
        run_turns-eq-some fuel (advance env progress s) (advance-TurnWithin fuel progress s h)

    -- Where every resumption of the interpreter leaves fewer stops than the one before it, and the code
    -- starts with at most `budget` of them, `budget + 1` turns of the loop of `run_repl_snippet` are enough
    -- for an outcome.
    pub run_repl_snippet-total :
        (budget : ℕ) (repl : Repl) (code : String) (inputs : List (String × MontyObject)) (w : W)
        → ResumedWithin rank budget (env.interpreter.feed_start repl code inputs)
        → (outcome : SnippetOutcome Repl) × (w' : W) × (run_repl_snippet env
              (suc budget)
              repl
              code
              inputs
              w
            ≡ some (outcome, w'))
    unfolding run_repl_snippet
    run_repl_snippet-total budget repl code inputs w h =
        run_turns-eq-some budget _ (resumed-TurnWithin budget (initial_state env w) _ h)

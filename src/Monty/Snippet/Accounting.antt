-- ===== src/Monty/Snippet/Accounting.antt =====
-- What a snippet records of its calls: their number and their tools.
pub mod Dispatch
pub mod Awaits
pub mod Outcome
use langshell.Common.{
  ℕ, zero, suc, ◌+◌, ◌<◌, ◌≤◌, ◌≡◌, refl, Bool, true, false, ltb, String, Option, none, some, List,
  [], ◌∷◌, ◌++◌, length, length-append, All, All-append, Result, ok, err, Option-cases, inl, inr,
  by_test, ap, arith, lt→ltb,
}
use langshell.Core.{
  ErrorObject, ToolCallContext, ExternalCallRecord, SideEffect, Value, ToolError, Capability,
}
use langshell.Core.Digest.{Hashing}
use langshell.Core.Registry.{RegisteredTool, ToolRegistry, get_tool}
use langshell.Monty.Objects.{MontyObject, ExtFunctionResult, ReplProgress, Resumed}
use langshell.Monty.Limits.{saturate, u32_max}
use langshell.Monty.Calls.{
  Host, Finished, run_tool_async, id_in, drain_ready_for, Drained, tool_context,
}
use langshell.Monty.Calls.Records.{
  run_tool_async-record, drain_ready_for-length, drain_ready_for-All,
}
use langshell.Monty.Snippet.{
  Env, PendingTool, LoopState, SnippetOutcome, Turn, Awaited, take_at, resumed, dispatch,
  call_in_context, call_tool, function_call, settle, await_turn, fail_with, await_futures,
  await_if_none, resume_resolved, resolve_futures, advance, run_turns, run_repl_snippet,
}

-- A registered tool, and a record that shows a registered tool's name and side effect.
module _ {W : Type 0} (registry : ToolRegistry W) where
  abbrev pub IsKnown : RegisteredTool W → Type 0
  IsKnown tool = (name : String) × (get_tool registry name ≡ some tool)

  pub record IsRecorded (r : ExternalCallRecord) : Type 0 where
    pub tool : RegisteredTool W
    pub known : IsKnown tool
    pub same_name : r.name ≡ tool.capability.name
    pub same_effect : r.side_effect ≡ tool.capability.side_effect

abbrev pub outcome_records : {Repl : Type 0} → SnippetOutcome Repl → List ExternalCallRecord
outcome_records (SnippetOutcome.complete repl value stdout records) = records
outcome_records (SnippetOutcome.error repl e stdout records) = records

-- What `take_at` gives has the items of the list, each once.
module _ {ℓ} {A : Type ℓ} (P : A → Type 0) where
  abbrev TakenFrom : List A → Option (A × List A) → Type 0
  TakenFrom xs none = Unit
  TakenFrom xs (some p) = (length xs ≡ suc (length p.1)) × (All P xs → P p.0 × All P p.1)

  take_at_under :
      (x : A) (xs : List A) (o : Option (A × List A))
      → TakenFrom xs o
      → TakenFrom (x ∷ xs) (elim o [ none ↦ some (x, xs) | some p ↦ some (p.0, x ∷ p.1) ])
  take_at_under x xs none h = (refl, (λ a. a))
  take_at_under x xs (some p) h = (omega (arith, h.0), (λ a. ((h.1 a.1).0, (a.0, (h.1 a.1).1))))

  take_at-TakenFrom : (i : ℕ) (xs : List A) → TakenFrom xs (take_at i xs)
  unfolding take_at
  take_at-TakenFrom i [] = tt
  take_at-TakenFrom zero (x ∷ xs) = (refl, (λ a. a))
  take_at-TakenFrom (suc i) (x ∷ xs) = take_at_under x xs (take_at i xs) (take_at-TakenFrom i xs)

module _ {Repl K W : Type 0} (env : Env Repl K W) where
  -- The started calls are those that are recorded, that wait in `ready` and that are still pending; they
  -- are within the limit, and all of them are of registered tools.
  pub record Accounted (s : LoopState W) : Type 0 where
    pub conserved : length s.records + length s.ready + length s.pending ≡ s.started_calls
    pub bounded : s.started_calls ≤ env.limits.max_external_calls
    pub recorded : All (IsRecorded env.registry) s.records
    pub waiting : All (λ item. IsRecorded env.registry item.record_of) s.ready
    pub known : All (λ future. IsKnown env.registry future.tool) s.pending

  -- What holds of an outcome.
  pub record OutcomeAccounted (outcome : SnippetOutcome Repl) : Type 0 where
    pub within : length (outcome_records outcome) ≤ env.limits.max_external_calls
    pub recorded : All (IsRecorded env.registry) (outcome_records outcome)

  abbrev TurnAccounted : Turn Repl K W → Type 0
  TurnAccounted (Turn.continue progress s) = Accounted s
  TurnAccounted (Turn.return outcome w) = OutcomeAccounted outcome

  returning :
      (s : LoopState W) (outcome : SnippetOutcome Repl)
      → Accounted s
      → outcome_records outcome ≡ s.records
      → OutcomeAccounted outcome
  returning s outcome a eq = record {
    within = rw eq (omega (arith, a.conserved, a.bounded));
    recorded = rw eq a.recorded;
  }

  resumed-Accounted :
      (s : LoopState W) (r : Resumed Repl K) → Accounted s → TurnAccounted (resumed env s r)
  unfolding resumed
  resumed-Accounted s (Resumed.progress printed progress) a = record {
    conserved = a.conserved;
    bounded = a.bounded;
    recorded = a.recorded;
    waiting = a.waiting;
    known = a.known;
  }
  resumed-Accounted s (Resumed.failed printed repl e) a = returning s _ a refl

  -- A state with a call in hand: started, and not yet recorded or queued.
  record InHand (s : LoopState W) (tool : RegisteredTool W) : Type 0 where
    conserved : suc (length s.records + length s.ready + length s.pending) ≡ s.started_calls
    bounded : s.started_calls ≤ env.limits.max_external_calls
    recorded : All (IsRecorded env.registry) s.records
    waiting : All (λ item. IsRecorded env.registry item.record_of) s.ready
    pending_known : All (λ future. IsKnown env.registry future.tool) s.pending
    known : IsKnown env.registry tool

  run_tool_async-IsRecorded :
      (id : ℕ) (tool : RegisteredTool W) (ctx : ToolCallContext) (w : W)
      → IsKnown env.registry tool
      → IsRecorded env.registry
          (run_tool_async env.library env.hashing env.host id tool ctx w).0.record_of
  run_tool_async-IsRecorded id tool ctx w known =
      let shown = run_tool_async-record env.library env.hashing env.host id tool ctx w in
      record { tool = tool; known = known; same_name = shown.0; same_effect = shown.1 }

  push_record :
      (s : LoopState W) (tool : RegisteredTool W) (r : ExternalCallRecord) (w : W)
      → InHand s tool
      → IsRecorded env.registry r
      → Accounted (record s { records = s.records ++ r ∷ []; world = w })
  push_record s tool r w h shown = record {
    conserved = omega (arith, length-append s.records (r ∷ []), h.conserved);
    bounded = h.bounded;
    recorded = All-append _ s.records (r ∷ []) h.recorded (shown, tt);
    waiting = h.waiting;
    known = h.pending_known;
  }

  push_ready :
      (s : LoopState W) (tool : RegisteredTool W) (item : Finished)
      → InHand s tool
      → IsRecorded env.registry item.record_of
      → Accounted (record s { ready = s.ready ++ item ∷ [] })
  push_ready s tool item h shown = record {
    conserved = omega (arith, length-append s.ready (item ∷ []), h.conserved);
    bounded = h.bounded;
    recorded = h.recorded;
    waiting = All-append _ s.ready (item ∷ []) h.waiting (shown, tt);
    known = h.pending_known;
  }

  push_pending :
      (s : LoopState W) (future : PendingTool W)
      → InHand s future.tool
      → Accounted (record s { pending = s.pending ++ future ∷ [] })
  push_pending s future h = record {
    conserved = omega (arith, length-append s.pending (future ∷ []), h.conserved);
    bounded = h.bounded;
    recorded = h.recorded;
    waiting = h.waiting;
    known = All-append _ s.pending (future ∷ []) h.pending_known (h.known, tt);
  }

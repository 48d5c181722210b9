-- ===== src/Monty/Snippet/Accounting/Awaits.antt =====
-- Waiting for futures keeps the account.
use langshell.Common.{
  ℕ, zero, suc, refl, Bool, true, false, Option, none, some, List, [], ◌∷◌, length, arith,
}
use langshell.Core.Registry.{RegisteredTool}
use langshell.Monty.Objects.{ExtFunctionResult}
use langshell.Monty.Calls.{Finished, run_tool_async, drain_ready_for}
use langshell.Monty.Calls.Records.{drain_ready_for-length, drain_ready_for-All}
use langshell.Monty.Snippet.{
  Env, PendingTool, LoopState, Awaited, settle, await_turn, await_futures, await_if_none,
  resume_resolved, resolve_futures,
}
use langshell.Monty.Snippet.Accounting.{
  IsKnown, IsRecorded, TakenFrom, take_at-TakenFrom, Accounted, TurnAccounted, returning,
  resumed-Accounted, InHand, run_tool_async-IsRecorded, push_record, push_ready,
}

module _ {Repl K W : Type 0} (env : Env Repl K W) where
  -- The state with the chosen future taken out.
  take_out :
      (s : LoopState W) (p : PendingTool W × List (PendingTool W)) (w : W)
      → TakenFrom (λ future. IsKnown env.registry future.tool) s.pending (some p)
      → Accounted env s
      → InHand env (record s { pending = p.1; world = w }) p.0.tool
  take_out s p w taken a = record {
    conserved = omega (arith, a.conserved, taken.0);
    bounded = a.bounded;
    recorded = a.recorded;
    waiting = a.waiting;
    pending_known = (taken.1 a.known).1;
    known = (taken.1 a.known).0;
  }

  settle-Accounted :
      (again : LoopState W → Awaited W)
      → ((s : LoopState W) → Accounted env s → Accounted env (again s).after)
      → (b : Bool) (item : Finished) (s : LoopState W) (tool : RegisteredTool W) → InHand env s tool
      → IsRecorded env.registry item.record_of
      → Accounted env (settle env again b item s).after
  unfolding settle
  settle-Accounted again keeps true item s tool h shown =
      push_record env s tool item.record_of s.world h shown
  settle-Accounted again keeps false item s tool h shown =
      keeps _ (push_ready env s tool item h shown)

  await_turn-Accounted :
      (again : LoopState W → Awaited W)
      → ((s : LoopState W) → Accounted env s → Accounted env (again s).after)
      → (ids : List ℕ) (s : LoopState W) (o : Option (PendingTool W × List (PendingTool W)))
      → TakenFrom (λ future. IsKnown env.registry future.tool) s.pending o
      → Accounted env s
      → Accounted env (await_turn env again ids s o).after
  unfolding await_turn
  await_turn-Accounted again keeps ids s none taken a = a
  await_turn-Accounted again keeps ids s (some (future, others)) taken a =
      let h =
        take_out s (future, others)
          (run_tool_async env.library env.hashing env.host future.call_id future.tool future.ctx
            s.world).1
          taken a in
      settle-Accounted again keeps _ _ _ future.tool h
        (run_tool_async-IsRecorded env future.call_id future.tool future.ctx s.world h.known)

  await_futures-Accounted :
      (fuel : ℕ) (ids : List ℕ) (s : LoopState W)
      → Accounted env s
      → Accounted env (await_futures env fuel ids s).after
  unfolding await_futures
  await_futures-Accounted zero ids s a = a
  await_futures-Accounted (suc fuel) ids s a =
      await_turn-Accounted (await_futures env fuel ids) (await_futures-Accounted fuel ids) ids s _
        (take_at-TakenFrom _ (env.host.choose s.world) s.pending) a

  await_if_none-Accounted :
      (ids : List ℕ) (resolved : List (ℕ × ExtFunctionResult)) (s : LoopState W)
      → Accounted env s
      → Accounted env (await_if_none env ids (record { resolved = resolved; after = s })).after
  unfolding await_if_none
  await_if_none-Accounted ids [] s a = await_futures-Accounted (length s.pending) ids s a
  await_if_none-Accounted ids (r ∷ rs) s a = a

  resume_resolved-Accounted :
      (k : K) (resolved : List (ℕ × ExtFunctionResult)) (s : LoopState W)
      → Accounted env s
      → TurnAccounted env (resume_resolved env k (record { resolved = resolved; after = s }))
  unfolding resume_resolved
  resume_resolved-Accounted k [] s a = returning env s _ a refl
  resume_resolved-Accounted k (r ∷ rs) s a = resumed-Accounted env s _ a

  drained-Accounted :
      (ids : List ℕ) (s : LoopState W)
      → Accounted env s
      → let d = drain_ready_for ids s.ready s.records in
        Accounted env (record s { ready = d.ready; records = d.records })
  drained-Accounted ids s a =
      let both =
        drain_ready_for-All (IsRecorded env.registry) ids s.ready s.records
          (a.recorded, a.waiting) in
      record {
        conserved = omega (arith, drain_ready_for-length ids s.ready s.records, a.conserved);
        bounded = a.bounded;
        recorded = both.0;
        waiting = both.1;
        known = a.known;
      }

  pub resolve_futures-Accounted :
      (ids : List ℕ) (k : K) (s : LoopState W)
      → Accounted env s
      → TurnAccounted env (resolve_futures env ids k s)
  unfolding resolve_futures
  resolve_futures-Accounted ids k s a =
      resume_resolved-Accounted k _ _ (await_if_none-Accounted ids _ _ (drained-Accounted ids s a))

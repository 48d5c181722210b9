-- ===== src/Deno/Ops/Calls/Runs.antt =====
-- The bounds on the records and on the running calls, through the interleavings of the ops.
use langshell.Common.{
  ℕ, suc, ◌<◌, ◌≡◌, refl, ap, subst, Bool, true, false, String, List, [], ◌∷◌, ◌++◌, length, All,
  Result, ok, err, arith,
}
use langshell.Core.{SessionLimits}
use langshell.Core.Digest.{Hashing}
use langshell.Core.Registry.{ToolRegistry}
use langshell.Monty.Limits.{u32_max}
use langshell.Monty.Calls.{Host}
use langshell.Monty.Snippet.Accounting.{IsKnown}
use langshell.Deno.Ops.{
  DenoOpState, RunningCall, reset_run_state, op_print, prepare_tool_call,
  op_langshell_call_tool_sync,
}
use langshell.Deno.Ops.Calls.{
  OpSystem, started, start_async, finish_async, call_sync, Step, print, sync, async, finish, Steps,
  done, step,
}
use langshell.Deno.Ops.Calls.Accounting.{
  Accounts, Prepared, prepare_tool_call-Prepared, finish_tool_call-Accounts, run_tool-IsRecorded,
  call_tool_sync-Accounts,
}

module _ {W : Type 0} (registry : ToolRegistry W) (limits : SessionLimits) (hashing : Hashing)
    (host : Host W) where
  -- The records, with the calls that run, and the tools of these.
  pub record IsAccounted (s : OpSystem W) : Type 0 where
    pub accounts : Accounts registry limits (length s.running) s.data_of
    pub known : All (λ (c : RunningCall W). IsKnown registry c.tool) s.running

  started-IsAccounted :
      (s : OpSystem W) (p : Result String (RunningCall W) × DenoOpState W)
      → Prepared registry limits (length s.running) p
      → All (λ (c : RunningCall W). IsKnown registry c.tool) s.running
      → IsAccounted (started hashing host s p)
  unfolding started
  started-IsAccounted s (err e, state) a known = record { accounts = a; known = known }
  started-IsAccounted s (ok running, state) a known = record {
    accounts = a.0;
    known = (a.1, known);
  }

  All-pick :
      {A : Type 0} (P : A → Type 0) (before : List A) (x : A) (after : List A)
      → All P (before ++ x ∷ after)
      → P x × All P (before ++ after)
  All-pick P [] x after all = all
  All-pick P (y ∷ before) x after all =
      let rest = All-pick P before x after all.1 in (rest.0, (all.0, rest.1))

  length-pick :
      {A : Type 0} (before : List A) (x : A) (after : List A)
      → length (before ++ x ∷ after) ≡ suc (length (before ++ after))
  length-pick [] x after = refl
  length-pick (y ∷ before) x after = ap suc (length-pick before x after)

  op_print-Accounts :
      (k : ℕ) (state : DenoOpState W) (msg : String) (is_err : Bool)
      → Accounts registry limits k state
      → Accounts registry limits k (op_print state msg is_err)
  unfolding op_print
  op_print-Accounts k state msg true a = record {
    same_registry = a.same_registry;
    same_limits = a.same_limits;
    begun = a.begun;
    within = a.within;
    recorded = a.recorded;
  }
  op_print-Accounts k state msg false a = record {
    same_registry = a.same_registry;
    same_limits = a.same_limits;
    begun = a.begun;
    within = a.within;
    recorded = a.recorded;
  }

  module _ (small : limits.max_external_calls < u32_max) where
    step-IsAccounted : {s t : OpSystem W} → Step hashing host s t → IsAccounted s → IsAccounted t
    unfolding start_async finish_async call_sync op_langshell_call_tool_sync
    step-IsAccounted (print s msg is_err) i = record {
      accounts = op_print-Accounts _ s.data_of msg is_err i.accounts;
      known = i.known;
    }
    step-IsAccounted (sync s ctx) i = record {
      accounts =
          call_tool_sync-Accounts registry limits small hashing host (length s.running) s.data_of
            ctx s.world i.accounts;
      known = i.known;
    }
    step-IsAccounted (async s ctx) i =
        started-IsAccounted s (prepare_tool_call s.data_of ctx)
          (prepare_tool_call-Prepared registry limits small (length s.running) s.data_of ctx
            i.accounts)
          i.known
    step-IsAccounted (finish state before running after w) i =
        let picked = All-pick _ before running after i.known in
        record {
          accounts =
              finish_tool_call-Accounts registry limits small (length (before ++ after)) state _ _
                (subst (λ n. Accounts registry limits n state) (length-pick before running after)
                  i.accounts)
                (run_tool-IsRecorded registry limits small hashing host running w picked.0);
          known = picked.1;
        }

    Steps-IsAccounted : {s t : OpSystem W} → Steps hashing host s t → IsAccounted s → IsAccounted t
    Steps-IsAccounted (done s) i = i
    Steps-IsAccounted (step first rest) i = Steps-IsAccounted rest (step-IsAccounted first i)

    -- From a state that `reset_run_state` has just reset, with no call running, any sequence of prints,
    -- synchronous calls, starts of asynchronous calls and ends of these in any order leaves a state whose
    -- records, counted with the calls that still run, are at most `max_external_calls` and at most the
    -- started calls, where every record has the name and the side effect of a tool of the registry, and
    -- where every running call's tool is one of the registry. The limit is below the largest `u32`.
    pub reset_run_state-IsAccounted :
        (state : DenoOpState W) (w : W) {t : OpSystem W}
        → Steps hashing host
            (record { data_of = reset_run_state state registry limits; running = []; world = w })
            t
        → IsAccounted t
    unfolding reset_run_state
    reset_run_state-IsAccounted state w steps = Steps-IsAccounted steps (record {
      accounts = record {
        same_registry = refl;
        same_limits = refl;
        begun = omega arith;
        within = omega arith;
        recorded = tt;
      };
      known = tt;
    })

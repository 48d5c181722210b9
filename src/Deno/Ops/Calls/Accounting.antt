-- ===== src/Deno/Ops/Calls/Accounting.antt =====
-- What the ops record of the calls, in every interleaving.
use langshell.Common.{
  ℕ, suc, ◌+◌, ◌<◌, ◌≤◌, ◌≡◌, refl, ap, sym, subst, false, ltb, String, Option, none, some, [], ◌∷◌,
  ◌++◌, length, length-append, All, All-append, Result, ok, err, by_test, arith,
}
use langshell.Core.{
  Value, ErrorObject, ToolError, ToolCallContext, ExternalCallRecord, SessionLimits,
}
use langshell.Core.Digest.{Hashing}
use langshell.Core.Registry.{RegisteredTool, ToolRegistry, get_tool, call}
use langshell.Monty.Limits.{saturate, u32_max}
use langshell.Monty.Calls.{Host}
use langshell.Monty.Snippet.Accounting.{IsKnown, IsRecorded}
use langshell.Deno.Ops.{
  DenoOpState, RunningCall, prepare_found, prepare_tool_call, outcome, run_tool, finish_tool_call,
  run_prepared, op_langshell_call_tool_sync,
}
use langshell.Deno.Ops.Calls.{started}

module _ {W : Type 0} (registry : ToolRegistry W) (limits : SessionLimits) where
  -- The records, with `k` more calls, are within the limit and within the started calls, and they are of
  -- registered tools.
  pub record Accounts (k : ℕ) (state : DenoOpState W) : Type 0 where
    pub same_registry : state.registry ≡ registry
    pub same_limits : state.limits ≡ limits
    pub begun : length state.records + k ≤ state.started_calls
    pub within : length state.records + k ≤ limits.max_external_calls
    pub recorded : All (IsRecorded registry) state.records

  abbrev pub Prepared : ℕ → Result String (RunningCall W) × DenoOpState W → Type 0
  Prepared k (err e, state) = Accounts k state
  Prepared k (ok call, state) = Accounts (suc k) state × IsKnown registry call.tool

  prepare_found-Prepared :
      (k : ℕ) (state : DenoOpState W) (ctx : ToolCallContext) (o : Option (RegisteredTool W))
      → get_tool registry ctx.name ≡ o
      → Accounts (suc k) state
      → Prepared k (prepare_found state ctx o)
  unfolding prepare_found
  prepare_found-Prepared k state ctx none eq a = record {
    same_registry = a.same_registry;
    same_limits = a.same_limits;
    begun = omega (arith, a.begun);
    within = omega (arith, a.within);
    recorded = a.recorded;
  }
  prepare_found-Prepared k state ctx (some tool) eq a = (a, (ctx.name, eq))

  module _ (small : limits.max_external_calls < u32_max) where
    refused :
        (n started max : ℕ)
        → n ≤ started
        → n ≤ max
        → max < u32_max
        → n ≤ saturate u32_max (started + 1)
    refused n started max h h' lt = ground arith

    accepted :
        (n started max : ℕ)
        → n ≤ started
        → max < u32_max
        → ltb max (saturate u32_max (started + 1)) ≡ false
        → (suc n ≤ saturate u32_max (started + 1)) × (suc n ≤ max)
    accepted n started max h lt room = ground arith

    pub prepare_tool_call-Prepared :
        (k : ℕ) (state : DenoOpState W) (ctx : ToolCallContext)
        → Accounts k state
        → Prepared k (prepare_tool_call state ctx)
    unfolding prepare_tool_call
    prepare_tool_call-Prepared k state ctx a =
        let begun = saturate u32_max (state.started_calls + 1) in
        let n = length state.records + k in
        by_test (Prepared k) (ltb state.limits.max_external_calls begun) _ _
          (λ over. record {
            same_registry = a.same_registry;
            same_limits = a.same_limits;
            begun = refused n state.started_calls limits.max_external_calls a.begun a.within small;
            within = a.within;
            recorded = a.recorded;
          })
          (λ room.
            let fits = accepted n state.started_calls limits.max_external_calls a.begun small (
              subst (λ (l : SessionLimits). ltb l.max_external_calls begun ≡ false) a.same_limits
                room) in
            prepare_found-Prepared k _ ctx _ (ap (λ r. get_tool r ctx.name) (sym a.same_registry))
              (record {
                same_registry = a.same_registry;
                same_limits = a.same_limits;
                begun = omega (arith, fits.0);
                within = omega (arith, fits.1);
                recorded = a.recorded;
              }))

    push_record :
        (k : ℕ) (state : DenoOpState W) (r : ExternalCallRecord) (error : Option ErrorObject)
        → Accounts (suc k) state
        → IsRecorded registry r
        → Accounts k (record state { records = state.records ++ r ∷ []; error = error })
    push_record k state r error a shown = record {
      same_registry = a.same_registry;
      same_limits = a.same_limits;
      begun = omega (arith, length-append state.records (r ∷ []), a.begun);
      within = omega (arith, length-append state.records (r ∷ []), a.within);
      recorded = All-append _ state.records (r ∷ []) a.recorded (shown, tt);
    }

    pub finish_tool_call-Accounts :
        (k : ℕ) (state : DenoOpState W) (answer : Result ErrorObject Value) (r : ExternalCallRecord)
        → Accounts (suc k) state
        → IsRecorded registry r
        → Accounts k (finish_tool_call state (answer, r)).1
    unfolding finish_tool_call
    finish_tool_call-Accounts k state (ok value) r a shown =
        push_record k state r state.error a shown
    finish_tool_call-Accounts k state (err e) r a shown = push_record k state r (some e) a shown

    module _ (hashing : Hashing) (host : Host W) where
      pub run_tool-IsRecorded :
          (call : RunningCall W) (w : W)
          → IsKnown registry call.tool
          → IsRecorded registry (run_tool hashing host call w).0.1
      unfolding run_tool outcome
      run_tool-IsRecorded running w known = shown (call running.tool running.ctx w).0 _
        where
          shown :
              (answer : Result ToolError Value) (ms : ℕ)
              → IsRecorded registry
                  (outcome hashing running.tool.capability running.ctx ms answer).1
          shown (ok value) ms = record {
            tool = running.tool;
            known = known;
            same_name = refl;
            same_effect = refl;
          }
          shown (err e) ms = record {
            tool = running.tool;
            known = known;
            same_name = refl;
            same_effect = refl;
          }

      fewer :
          (k : ℕ) (state : DenoOpState W) (error : Option ErrorObject)
          → Accounts (suc k) state
          → Accounts k (record state { error = error })
      fewer k state error a = record {
        same_registry = a.same_registry;
        same_limits = a.same_limits;
        begun = omega (arith, a.begun);
        within = omega (arith, a.within);
        recorded = a.recorded;
      }

      run_prepared-Accounts :
          (k : ℕ) (p : Result String (RunningCall W) × DenoOpState W) (w : W)
          → Prepared k p
          → Accounts k (run_prepared hashing host p w).0.1
      unfolding run_prepared
      run_prepared-Accounts k (err e, state) w a = a
      run_prepared-Accounts k (ok running, state) w a =
          by_test (λ (x : (Result String Value × DenoOpState W) × W). Accounts k x.0.1)
            running.tool.async_mode _ _ (λ async. fewer k state _ a.0)
            (λ sync. finish_tool_call-Accounts k state _ _ a.0 (run_tool-IsRecorded running w a.1))

      pub call_tool_sync-Accounts :
          (k : ℕ) (state : DenoOpState W) (ctx : ToolCallContext) (w : W)
          → Accounts k state
          → Accounts k (op_langshell_call_tool_sync hashing host state ctx w).0.1
      unfolding op_langshell_call_tool_sync
      call_tool_sync-Accounts k state ctx w a =
          run_prepared-Accounts k (prepare_tool_call state ctx) w
            (prepare_tool_call-Prepared k state ctx a)

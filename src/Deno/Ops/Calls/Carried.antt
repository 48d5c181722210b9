-- ===== src/Deno/Ops/Calls/Carried.antt =====
-- No call that runs is lost: it runs on, or has a record.
use langshell.Common.{
  suc, ◌+◌, ◌≤◌, ◌≡◌, refl, subst, Bool, true, false, ltb, String, Option, none, some, [], ◌∷◌,
  length, length-append, Result, ok, err, by_test, arith,
}
use langshell.Core.{Value, ErrorObject, ToolCallContext, ExternalCallRecord}
use langshell.Core.Digest.{Hashing}
use langshell.Core.Registry.{RegisteredTool, get_tool}
use langshell.Monty.Limits.{saturate, u32_max}
use langshell.Monty.Calls.{Host}
use langshell.Deno.Ops.{
  DenoOpState, RunningCall, op_print, prepare_found, prepare_tool_call, run_tool, finish_tool_call,
  run_prepared, op_langshell_call_tool_sync,
}
use langshell.Deno.Ops.Calls.{
  OpSystem, started, start_async, finish_async, call_sync, Step, print, sync, async, finish, Steps,
  done, step,
}

module _ {W : Type 0} where
  prepare_found-records :
      (state : DenoOpState W) (ctx : ToolCallContext) (o : Option (RegisteredTool W))
      → (prepare_found state ctx o).1.records ≡ state.records
  unfolding prepare_found
  prepare_found-records state ctx none = refl
  prepare_found-records state ctx (some tool) = refl

  prepare_tool_call-records :
      (state : DenoOpState W) (ctx : ToolCallContext)
      → (prepare_tool_call state ctx).1.records ≡ state.records
  unfolding prepare_tool_call
  prepare_tool_call-records state ctx =
      by_test (λ (p : Result String (RunningCall W) × DenoOpState W). p.1.records ≡ state.records)
        (ltb state.limits.max_external_calls (saturate u32_max (state.started_calls + 1))) _ _
        (λ over. refl) (λ room. prepare_found-records _ ctx (get_tool state.registry ctx.name))

  finish_tool_call-length :
      (state : DenoOpState W) (answer : Result ErrorObject Value × ExternalCallRecord)
      → length (finish_tool_call state answer).1.records ≡ suc (length state.records)
  unfolding finish_tool_call
  finish_tool_call-length state (ok value, r) = omega (arith, length-append state.records (r ∷ []))
  finish_tool_call-length state (err e, r) = omega (arith, length-append state.records (r ∷ []))

  run_prepared-length :
      (hashing : Hashing) (host : Host W) (p : Result String (RunningCall W) × DenoOpState W)
      (w : W)
      → length p.1.records ≤ length (run_prepared hashing host p w).0.1.records
  unfolding run_prepared
  run_prepared-length hashing host (err e, state) w = omega arith
  run_prepared-length hashing host (ok running, state) w =
      let answered = run_tool hashing host running w in
      by_test
        (λ (r : (Result String Value × DenoOpState W) × W).
          length state.records ≤ length r.0.1.records)
        running.tool.async_mode _ _ (λ async_tool. omega arith)
        (λ sync_tool. omega (arith, finish_tool_call-length state answered.0))

  op_print-records :
      (state : DenoOpState W) (msg : String) (is_err : Bool)
      → (op_print state msg is_err).records ≡ state.records
  unfolding op_print
  op_print-records state msg true = refl
  op_print-records state msg false = refl

  -- The records of a state, and its calls that still run.
  abbrev pub Carries : OpSystem W → OpSystem W → Type 0
  Carries s t =
      length s.data_of.records + length s.running ≤ length t.data_of.records + length t.running

  module _ (hashing : Hashing) (host : Host W) where
    started-Carries :
        (s : OpSystem W) (p : Result String (RunningCall W) × DenoOpState W)
        → p.1.records ≡ s.data_of.records
        → Carries s (started hashing host s p)
    unfolding started
    started-Carries s (err e, state) h = rw h (omega arith)
    started-Carries s (ok call, state) h = rw h (omega arith)

    step-Carries : (s t : OpSystem W) → Step hashing host s t → Carries s t
    unfolding call_sync start_async finish_async op_langshell_call_tool_sync
    step-Carries _ _ (print s msg is_err) = rw (op_print-records s.data_of msg is_err) (omega arith)
    step-Carries _ _ (sync s ctx) =
        let p = prepare_tool_call s.data_of ctx in
        let same = prepare_tool_call-records s.data_of ctx in
        let more =
          subst (λ rs. length rs ≤ length (run_prepared hashing host p s.world).0.1.records) same
            (run_prepared-length hashing host p s.world) in
        omega (arith, more)
    step-Carries _ _ (async s ctx) =
        started-Carries s (prepare_tool_call s.data_of ctx)
          (prepare_tool_call-records s.data_of ctx)
    step-Carries _ _ (finish state before call after w) = omega (
      arith,
      finish_tool_call-length state (run_tool hashing host call w).0,
      length-append before (call ∷ after),
      length-append before after,
    )

    -- Whatever the ops do, and in which order.
    pub Steps-Carries : (s t : OpSystem W) → Steps hashing host s t → Carries s t
    Steps-Carries _ _ (done s) = omega arith
    Steps-Carries _ _ (step first more) =
        omega (arith, step-Carries _ _ first, Steps-Carries _ _ more)

-- ===== src/Deno/Session/Run/Accounted.antt =====
-- Where the calls of a result come from, and their bound.
use langshell.Common.{
  ◌≤◌, ◌<◌, ◌≡◌, ◌⊎◌, inl, inr, refl, sym, subst, String, Option, none, some, get_or, List, [],
  length, All, Result, ok, err, arith,
}
use langshell.Core.{Value, ErrorObject, RunRequest, RunResult, SessionLimits, ExternalCallRecord}
use langshell.Core.Registry.{ToolRegistry}
use langshell.Monty.Limits.{u32_max}
use langshell.Monty.Snippet.Accounting.{IsRecorded}
use langshell.Deno.Ops.{RunningCall, reset_run_state}
use langshell.Deno.Ops.Calls.{OpSystem, Steps}
use langshell.Deno.Ops.Calls.Runs.{IsAccounted, reset_run_state-IsAccounted}
use langshell.Deno.Engine.Trace.{Steps-trans}
use langshell.Deno.Scripts.{
  Packages, Live, Answer, wrap_user_code, inject_inputs, execute_user_code, read_result,
}
use langshell.Deno.Scripts.Trace.{Goes, inject_inputs-Goes, execute_user_code-Goes}
use langshell.Deno.Session.{DenoSession, run_state_snapshot}
use langshell.Deno.Session.Run.{
  ended_with_error, ended_with_value, after_read, after_error, after_program, after_inputs,
  reset_live, after_checked, checked_code, run,
}
use langshell.Deno.Streams.{RunStateSnapshot, apply_streams}

module _ {Js V Parsed W : Type 0} (pkg : Packages Js V Parsed W) where
  -- A result has no calls, or those of a state that the run went through.
  abbrev CallsFrom : Live Js W → RunResult → Type 0
  CallsFrom start result =
      (result.external_calls ≡ [])
      ⊎ ((live : Live Js W) × Goes pkg start live
          × (result.external_calls ≡ live.ops.data_of.records))

  after_read-calls :
      (session : DenoSession Js W) (request : RunRequest) (started : W) (state : RunStateSnapshot)
      (answer : Answer Js W (Option Value))
      → (after_read pkg session request started state answer).0.external_calls ≡ state.records
  unfolding after_read ended_with_error ended_with_value apply_streams
  after_read-calls session request started state (err e, live) = refl
  after_read-calls session request started state (ok value, live) = refl

  after_error-calls :
      (session : DenoSession Js W) (request : RunRequest) (started : W) (live : Live Js W)
      (o : Option ErrorObject)
      → (after_error pkg session request started live o).0.external_calls ≡ live.ops.data_of.records
  unfolding after_error ended_with_error apply_streams run_state_snapshot
  after_error-calls session request started live (some e) = refl
  after_error-calls session request started live none =
      after_read-calls session request started (run_state_snapshot live) (read_result pkg live)

  after_program-calls :
      (session : DenoSession Js W) (request : RunRequest) (started : W)
      (answer : Answer Js W (Unit {0}))
      → (after_program pkg session request started answer).0.external_calls
        ≡ answer.1.ops.data_of.records
  unfolding after_program
  after_program-calls session request started (r, live) =
      after_error-calls session request started live _

  after_inputs-CallsFrom :
      (start : Live Js W) (session : DenoSession Js W) (request : RunRequest) (started : W)
      (js : String) (answer : Answer Js W (Unit {0}))
      → Goes pkg start answer.1
      → CallsFrom start (after_inputs pkg session request started js answer).0
  unfolding after_inputs
  after_inputs-CallsFrom start session request started js (err e, live) goes = inl refl
  after_inputs-CallsFrom start session request started js (ok u, live) goes =
      let timeout = get_or request.timeout_ms session.limits.wall_ms in
      let code = wrap_user_code js in
      inr (
        (execute_user_code pkg live code timeout).1,
        Steps-trans pkg.hashing pkg.host goes (execute_user_code-Goes pkg live code timeout),
        after_program-calls session request started (execute_user_code pkg live code timeout),
      )

  after_checked-CallsFrom :
      (session : DenoSession Js W) (request : RunRequest) (registry : ToolRegistry W) (w : W)
      (r : Result ErrorObject String)
      → CallsFrom
          (reset_live pkg session registry w)
          (after_checked pkg session request registry w r).0
  unfolding after_checked
  after_checked-CallsFrom session request registry w (err e) = inl refl
  after_checked-CallsFrom session request registry w (ok js) =
      let start = reset_live pkg session registry w in
      after_inputs-CallsFrom start session request w js (inject_inputs pkg start request.inputs)
        (inject_inputs-Goes pkg start request.inputs)

  -- The calls of a result are at most `max_external_calls`, and each is of a tool of the registry.
  pub record IsWithin (registry : ToolRegistry W) (limits : SessionLimits)
      (calls : List ExternalCallRecord) : Type 0 where
    pub few : length calls ≤ limits.max_external_calls
    pub recorded : All (IsRecorded registry) calls

  accounted-IsWithin :
      (registry : ToolRegistry W) (limits : SessionLimits) (s : OpSystem W)
      → IsAccounted registry limits pkg.hashing pkg.host s
      → IsWithin registry limits s.data_of.records
  accounted-IsWithin registry limits s a = record {
    few = omega (arith, a.accounts.within);
    recorded = a.accounts.recorded;
  }

  from-IsWithin :
      (registry : ToolRegistry W) (limits : SessionLimits) (start : Live Js W) (result : RunResult)
      → ((live : Live Js W)
          → Goes pkg start live
          → IsWithin registry limits live.ops.data_of.records)
      → CallsFrom start result
      → IsWithin registry limits result.external_calls
  from-IsWithin registry limits start result all (inl none_made) =
      subst (IsWithin registry limits) (sym none_made) (record { few = omega arith; recorded = tt })
  from-IsWithin registry limits start result all (inr (live, goes, same)) =
      subst (IsWithin registry limits) (sym same) (all live goes)

  -- A run in a session with no call left running has a result with at most `max_external_calls` calls, each of a
  -- tool of the registry, whatever the engine does. The limit is below the largest `u32`.
  pub run-IsWithin :
      (session : DenoSession Js W) (request : RunRequest) (registry : ToolRegistry W) (w : W)
      → session.limits.max_external_calls < u32_max
      → session.running ≡ []
      → IsWithin registry session.limits (run pkg session request registry w).0.0.external_calls
  unfolding run reset_run_state
  run-IsWithin session request registry w small idle =
      from-IsWithin registry session.limits (reset_live pkg session registry w)
        (after_checked pkg session request registry w (checked_code pkg registry request.code)).0
        (λ live goes. accounted-IsWithin registry session.limits live.ops (
          reset_run_state-IsAccounted registry session.limits pkg.hashing pkg.host small
            session.op_state w (subst (from_reset live) idle goes)))
        (after_checked-CallsFrom session request registry w
          (checked_code pkg registry request.code))
    where
      from_reset : Live Js W → List (RunningCall W) → Type 0
      from_reset live calls =
          Steps pkg.hashing pkg.host
            (record {
              data_of = reset_run_state session.op_state registry session.limits;
              running = calls;
              world = w;
            })
            live.ops

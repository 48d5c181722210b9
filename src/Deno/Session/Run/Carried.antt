-- ===== src/Deno/Session/Run/Carried.antt =====
-- What a run does with the calls that earlier runs of its session did not wait for.
use langshell.Common.{◌+◌, ◌≤◌, Option, none, some, get_or, String, length, Result, ok, err, arith}
use langshell.Core.{Value, ErrorObject, RunRequest}
use langshell.Core.Registry.{ToolRegistry}
use langshell.Deno.Ops.{reset_run_state}
use langshell.Deno.Ops.Calls.{done}
use langshell.Deno.Ops.Calls.Carried.{Steps-Carries}
use langshell.Deno.Engine.Trace.{Steps-trans}
use langshell.Deno.Scripts.{
  Packages, Live, Answer, wrap_user_code, inject_inputs, execute_user_code, read_result,
}
use langshell.Deno.Scripts.Trace.{
  Goes, inject_inputs-Goes, execute_user_code-Goes, read_result-Goes,
}
use langshell.Deno.Session.{DenoSession, run_state_snapshot}
use langshell.Deno.Session.Run.{
  after_read, after_error, after_program, after_inputs, reset_live, after_checked, checked_code,
  run,
}
use langshell.Deno.Streams.{RunStateSnapshot}

module _ {Js V Parsed W : Type 0} (pkg : Packages Js V Parsed W) where
  after_read-Goes :
      (start : Live Js W) (session : DenoSession Js W) (request : RunRequest) (started : W)
      (state : RunStateSnapshot) (answer : Answer Js W (Option Value))
      → Goes pkg start answer.1
      → Goes pkg start (after_read pkg session request started state answer).1
  unfolding after_read
  after_read-Goes start session request started state (err e, live) goes = goes
  after_read-Goes start session request started state (ok value, live) goes = goes

  after_error-Goes :
      (session : DenoSession Js W) (request : RunRequest) (started : W) (live : Live Js W)
      (o : Option ErrorObject)
      → Goes pkg live (after_error pkg session request started live o).1
  unfolding after_error
  after_error-Goes session request started live (some e) = done live.ops
  after_error-Goes session request started live none =
      after_read-Goes live session request started (run_state_snapshot live) (read_result pkg live)
        (read_result-Goes pkg live)

  after_program-Goes :
      (session : DenoSession Js W) (request : RunRequest) (started : W)
      (answer : Answer Js W (Unit {0}))
      → Goes pkg answer.1 (after_program pkg session request started answer).1
  unfolding after_program
  after_program-Goes session request started (r, live) =
      after_error-Goes session request started live _

  after_inputs-Goes :
      (session : DenoSession Js W) (request : RunRequest) (started : W) (js : String)
      (answer : Answer Js W (Unit {0}))
      → Goes pkg answer.1 (after_inputs pkg session request started js answer).1
  unfolding after_inputs
  after_inputs-Goes session request started js (err e, live) = done live.ops
  after_inputs-Goes session request started js (ok u, live) =
      let timeout = get_or request.timeout_ms session.limits.wall_ms in
      let code = wrap_user_code js in
      Steps-trans pkg.hashing pkg.host (execute_user_code-Goes pkg live code timeout)
        (after_program-Goes session request started (execute_user_code pkg live code timeout))

  -- The calls of the session before, and its records and its calls after.
  abbrev Carried : DenoSession Js W → Live Js W → Type 0
  Carried session live =
      length session.running ≤ length live.ops.data_of.records + length live.ops.running

  after_checked-Carried :
      (session : DenoSession Js W) (request : RunRequest) (registry : ToolRegistry W) (w : W)
      (r : Result ErrorObject String)
      → Carried session (after_checked pkg session request registry w r).1
  unfolding after_checked reset_run_state
  after_checked-Carried session request registry w (err e) = omega arith
  after_checked-Carried session request registry w (ok js) =
      let start = reset_live pkg session registry w in
      let injected = inject_inputs pkg start request.inputs in
      let carried =
        Steps-Carries pkg.hashing pkg.host start.ops
          (after_inputs pkg session request w js injected).1.ops
          (Steps-trans pkg.hashing pkg.host (inject_inputs-Goes pkg start request.inputs)
            (after_inputs-Goes session request w js injected)) in
      omega (arith, carried)

  -- A run ends none of its session's calls without a record: the calls that ran when it began are at most the records
  -- that the session has after it and the calls that then still run, whatever the engine does and whatever the limit
  -- on external calls is.
  pub run-carries :
      (session : DenoSession Js W) (request : RunRequest) (registry : ToolRegistry W) (w : W)
      → let after = (run pkg session request registry w).0.1 in
        length session.running ≤ length after.op_state.records + length after.running
  unfolding run
  run-carries session request registry w =
      after_checked-Carried session request registry w (checked_code pkg registry request.code)

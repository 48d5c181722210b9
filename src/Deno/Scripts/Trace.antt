-- ===== src/Deno/Scripts/Trace.antt =====
-- Whatever a session runs, its ops go through steps.
use langshell.Common.{ℕ, String, Option, none, some, Result, ok, err, by_test}
use langshell.Core.{Fields, end, field}
use langshell.Deno.Ops.Calls.{Steps, done}
use langshell.Deno.Engine.Trace.{run_script-Steps, Steps-trans}
use langshell.Deno.Scripts.{
  Packages, Live, Answer, execute_script, execute_script_unit, inject_text, inject_inputs,
  unless_fired, resolved_answer, resolve_value, execute_user_code, read_value, read_result,
}

module _ {Js V Parsed W : Type 0} (pkg : Packages Js V Parsed W) where
  abbrev pub Goes : Live Js W → Live Js W → Type 0
  Goes live after = Steps pkg.hashing pkg.host live.ops after.ops

  pub execute_script_unit-Goes :
      (live : Live Js W) (name source : String)
      → Goes live (execute_script_unit pkg live name source).1
  unfolding execute_script_unit execute_script
  execute_script_unit-Goes live name source =
      run_script-Steps pkg.hashing pkg.host (pkg.engine.execute_script live.js name source) live.ops

  inject_text-Goes :
      (live : Live Js W) (text : Result String String) → Goes live (inject_text pkg live text).1
  unfolding inject_text
  inject_text-Goes live (err e) = done live.ops
  inject_text-Goes live (ok text) = execute_script_unit-Goes live _ _

  pub inject_inputs-Goes :
      (live : Live Js W) (inputs : Fields) → Goes live (inject_inputs pkg live inputs).1
  unfolding inject_inputs
  inject_inputs-Goes live end = done live.ops
  inject_inputs-Goes live (field name value rest) = inject_text-Goes live _

  unless_fired-Goes :
      (from live : Live Js W) (timeout : ℕ) (answer : Answer Js W (Unit {0}))
      → Goes from live
      → Goes from answer.1
      → Goes from (unless_fired pkg live timeout answer).1
  unfolding unless_fired
  unless_fired-Goes from live timeout answer goes goes' =
      by_test (λ (a : Answer Js W (Unit {0})). Goes from a.1)
        (pkg.engine.timer_fired live.js timeout) _ answer (λ fired. goes) (λ runs. goes')

  resolved_answer-Goes :
      (from live : Live Js W) (r : Option (Result String V))
      → Goes from live
      → Goes from (resolved_answer pkg live r).1
  unfolding resolved_answer
  resolved_answer-Goes from live (some (ok value)) goes = goes
  resolved_answer-Goes from live (some (err message)) goes = goes
  resolved_answer-Goes from live none goes = goes

  resolve_value-Goes :
      (from : Live Js W) (timeout : ℕ) (r : Result String V × Live Js W)
      → Goes from r.1
      → Goes from (resolve_value pkg timeout r).1
  unfolding resolve_value
  resolve_value-Goes from timeout (err message, live) goes =
      unless_fired-Goes from live timeout _ goes goes
  resolve_value-Goes from timeout (ok value, live) goes =
      let on = Steps-trans pkg.hashing pkg.host goes (
        run_script-Steps pkg.hashing pkg.host (pkg.engine.event_loop live.js value timeout)
          live.ops) in
      unless_fired-Goes from _ timeout _ on (resolved_answer-Goes from _ _ on)

  pub execute_user_code-Goes :
      (live : Live Js W) (code : String) (timeout : ℕ)
      → Goes live (execute_user_code pkg live code timeout).1
  unfolding execute_user_code execute_script
  execute_user_code-Goes live code timeout =
      resolve_value-Goes live timeout (execute_script pkg live "<langshell-run>" code) (
        run_script-Steps pkg.hashing pkg.host
          (pkg.engine.execute_script live.js "<langshell-run>" code) live.ops)

  read_value-Goes :
      (from : Live Js W) (r : Result String V × Live Js W)
      → Goes from r.1
      → Goes from (read_value pkg r).1
  unfolding read_value
  read_value-Goes from (err message, live) goes = goes
  read_value-Goes from (ok value, live) goes = goes

  pub read_result-Goes : (live : Live Js W) → Goes live (read_result pkg live).1
  unfolding read_result execute_script
  read_result-Goes live =
      read_value-Goes live (execute_script pkg live "<langshell-result>" "globalThis.result") (
        run_script-Steps pkg.hashing pkg.host
          (pkg.engine.execute_script live.js "<langshell-result>" "globalThis.result") live.ops)

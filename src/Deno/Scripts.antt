-- ===== src/Deno/Scripts.antt =====
-- The scripts of a session of crates/langshell-deno/src/lib.rs: `execute_script_unit`, `inject_inputs`,
-- `execute_user_code`, `read_result`, `snapshot_globals`, `restore_globals` and the conversions of V8 values.
pub mod Trace
pub mod Globals
use langshell.Common.{
  ℕ, Bool, true, false, ◌<>◌, String, Option, none, some, List, [], ◌∷◌, Result, ok, err, map_ok,
  map_err, if◌then◌else◌,
}
use langshell.Core.{Value, Fields, end, field, ErrorObject, new_error, with_hint}
use langshell.Core.Digest.{Hashing}
use langshell.Monty.Calls.{Host}
use langshell.Deno.Ops.Calls.{OpSystem}
use langshell.Deno.Engine.{Engine, run_script}
use langshell.Deno.Errors.{error_from_js, timeout_error}
use langshell.Deno.Validate.{Nodes}

-- The other packages, as the sessions use them: the engine, the parser and the transpiler of `deno_ast`,
-- `serde_json::to_string` and `from_str`, the hash and the clock.
pub record Packages (Js V Parsed W : Type 0) : Type 0 where
  pub engine : Engine Js V
  pub parse_module : String → Result String Parsed
  pub program : Parsed → Nodes
  pub transpile : Parsed → Result String String
  pub to_string : Value → Result String String
  pub from_str : String → Result String Value
  pub hashing : Hashing
  pub host : Host W

-- A `JsRuntime`, with the state of its ops, its calls that run, and the world.
pub record Live (Js W : Type 0) : Type 0 where
  pub js : Js
  pub ops : OpSystem W

abbrev snapshot_corrupt : String → ErrorObject
snapshot_corrupt message = new_error "SNAPSHOT_CORRUPT" message

unfoldable pub wrap_user_code : String → String
wrap_user_code js = "\n(async () => {\n  with (globalThis) {\n" <> js <> "\n  }\n})()\n"

abbrev restore_source : String → String
restore_source text = "globalThis.__langshell_restore_globals(" <> text <> ");"

-- What `&mut self` methods give: their result, and the runtime that they leave.
abbrev pub Answer : Type 0 → Type 0 → Type 0 → Type 0
Answer Js W A = Result ErrorObject A × Live Js W

module _ {Js V Parsed W : Type 0} (pkg : Packages Js V Parsed W) where
  unfoldable pub execute_script : Live Js W → String → String → Result String V × Live Js W
  unfolding run_script
  execute_script live name source =
      let ((js, r), ops) =
        run_script pkg.hashing pkg.host (pkg.engine.execute_script live.js name source) live.ops in
      (r, record { js = js; ops = ops })

  unfoldable pub execute_script_unit : Live Js W → String → String → Answer Js W (Unit {0})
  unfolding execute_script error_from_js
  execute_script_unit live name source =
      let (r, live') = execute_script live name source in
      (map_err (λ message. error_from_js message false) (map_ok (λ _. tt) r), live')

  -- The text of the inputs, or its error.
  inject_text : Live Js W → Result String String → Answer Js W (Unit {0})
  unfolding execute_script_unit
  inject_text live (err e) =
      (err (new_error "INVALID_ARGUMENT" ("inputs are not JSON: " <> e)), live)
  inject_text live (ok text) = execute_script_unit live "<langshell-inputs>" (restore_source text)

  unfoldable pub inject_inputs : Live Js W → Fields → Answer Js W (Unit {0})
  unfolding inject_text
  inject_inputs live end = (ok tt, live)
  inject_inputs live (field name value rest) =
      inject_text live (pkg.to_string (Value.object (field name value rest)))

  -- The flag of the timer is read.
  unless_fired : Live Js W → ℕ → Answer Js W (Unit {0}) → Answer Js W (Unit {0})
  unless_fired live timeout answer =
      if pkg.engine.timer_fired live.js timeout
      then (err timeout_error, record live { js = pkg.engine.cancel_terminate_execution live.js })
      else answer

  -- The match on what the event loop gives.
  resolved_answer : Live Js W → Option (Result String V) → Answer Js W (Unit {0})
  unfolding error_from_js
  resolved_answer live (some (ok value)) = (ok tt, live)
  resolved_answer live (some (err message)) = (err (error_from_js message false), live)
  resolved_answer live none = (
    err timeout_error,
    record live {
      js = pkg.engine.cancel_terminate_execution (pkg.engine.terminate_execution live.js);
    },
  )

  resolve_value : ℕ → Result String V × Live Js W → Answer Js W (Unit {0})
  unfolding run_script unless_fired resolved_answer error_from_js
  resolve_value timeout (err message, live) =
      unless_fired live timeout (err (error_from_js message false), live)
  resolve_value timeout (ok value, live) =
      let ((js, r), ops) =
        run_script pkg.hashing pkg.host (pkg.engine.event_loop live.js value timeout) live.ops in
      let live' : Live Js W = record { js = js; ops = ops } in
      unless_fired live' timeout (resolved_answer live' r)

  unfoldable pub execute_user_code : Live Js W → String → ℕ → Answer Js W (Unit {0})
  unfolding execute_script resolve_value
  execute_user_code live code timeout =
      resolve_value timeout (execute_script live "<langshell-run>" code)

  not_json : String → ErrorObject
  not_json e =
      with_hint
        (new_error "RESULT_NOT_SERIALIZABLE"
          ("TypeScript result could not be converted to JSON: " <> e))
        "Assign result to a JSON-compatible value before returning."

  unfoldable pub v8_to_json : Js → V → Result ErrorObject (Option Value)
  unfolding not_json
  v8_to_json js value =
      if pkg.engine.is_undefined value
      then ok none
      else map_err not_json (map_ok some (pkg.engine.value_from_v8 js value))

  unfoldable pub v8_to_string : Js → V → Result ErrorObject String
  v8_to_string js value =
      map_err
        (λ e.
          new_error "RESULT_NOT_SERIALIZABLE"
            ("TypeScript value could not be converted to string: " <> e))
        (pkg.engine.string_from_v8 js value)

  read_value : Result String V × Live Js W → Answer Js W (Option Value)
  unfolding v8_to_json error_from_js
  read_value (err message, live) = (err (error_from_js message false), live)
  read_value (ok value, live) = (v8_to_json live.js value, live)

  unfoldable pub read_result : Live Js W → Answer Js W (Option Value)
  unfolding execute_script read_value
  read_result live = read_value (execute_script live "<langshell-result>" "globalThis.result")

  globals_value : Result ErrorObject String → Result ErrorObject Value
  globals_value (err e) = err e
  globals_value (ok text) =
      map_err (λ e. snapshot_corrupt ("Deno snapshot globals did not produce valid JSON: " <> e))
        (pkg.from_str text)

  read_globals : Result String V × Live Js W → Answer Js W Value
  unfolding v8_to_string globals_value
  read_globals (err message, live) = (err (snapshot_corrupt message), live)
  read_globals (ok value, live) = (globals_value (v8_to_string live.js value), live)

  unfoldable pub snapshot_globals : Live Js W → Answer Js W Value
  unfolding execute_script read_globals
  snapshot_globals live = read_globals (
      execute_script live "<langshell-snapshot>"
        "JSON.stringify(globalThis.__langshell_snapshot_globals())")

  restore_text : Live Js W → Result String String → Answer Js W (Unit {0})
  unfolding execute_script_unit
  restore_text live (err e) = (err (snapshot_corrupt ("Invalid globals: " <> e)), live)
  restore_text live (ok text) =
      let (r, live') = execute_script_unit live "<langshell-restore>" (restore_source text) in
      (map_err (λ e. snapshot_corrupt e.message) r, live')

  unfoldable pub restore_globals : Live Js W → Value → Answer Js W (Unit {0})
  unfolding restore_text
  restore_globals live globals = restore_text live (pkg.to_string globals)

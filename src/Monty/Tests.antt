-- ===== src/Monty/Tests.antt =====
-- The runtime of crates/langshell-monty/src/lib.rs run with a small interpreter and one tool, and instances
-- of its theorems.
pub mod SessionTests
use langshell.Common.{
  ℕ, zero, suc, ◌+◌, ◌<◌, ◌≤◌, ◌≡◌, refl, ◌≢◌, Bool, true, false, not, ◌&&◌, ◌||◌, ◌==◌, String,
  Option, none, some, get_or, List, [], ◌∷◌, Result, ok, err, ltb, len, is_some, if◌then◌else◌,
  lookup, put, contains, arith, code,
}
use langshell.Core.{
  Value, Number, Fields, Items, ErrorObject, new_error, RunRequest, RunResult, RunStatus, SessionId,
  SessionLimits, default_limits, Capability, new_capability, SideEffect, ToolCallContext, ToolError,
  ExternalCallRecord, CallStatus, Language,
}
use langshell.Core.Digest.{Hashing, digest_json, to_hex}
use langshell.Core.Truncate.Longest.{IsLongestPrefix}
use langshell.Core.Registry.{RegisteredTool, ToolRegistry, sync}
use langshell.Monty.Objects.{
  ℤ, MontyObject, ExcType, MontyException, ExtFunctionResult, NameLookupResult, ReplProgress,
  Resumed, Interpreter, Library,
}
use langshell.Monty.Convert.{json_to_monty, monty_to_json_checked, monty_to_json_lossy, is_finite}
use langshell.Monty.Convert.Plain.{FiniteValue, monty_to_json_checked-json_to_monty}
use langshell.Monty.Errors.{code_to_status, uncaught, expected_uncaught, uncaught_lem}
use langshell.Monty.Limits.{truncate_stdout, truncate_stdout_lem}
use langshell.Monty.Calls.{Host}
use langshell.Monty.Snippet.{Env, SnippetOutcome, run_repl_snippet}
use langshell.Monty.Snippet.Accounting.{OutcomeAccounted}
use langshell.Monty.Snippet.Accounting.Outcome.{run_repl_snippet-OutcomeAccounted}
use langshell.Monty.Snippet.Termination.{IsBounded, ResumedWithin, run_repl_snippet-total}
use langshell.Monty.Validate.{Shape, Node, Nodes, static_validation_error}
use langshell.Monty.Validate.Preorder.{
  preorder_all, first_flagged, static_validation_error-first_flagged,
}

abbrev library : Library
library = record {
  new_exception = λ t s. record { exc_type = t; summary = s; last_frame = none };
  py_repr = λ o. "?";
  to_value = λ o. ok Value.null;
  as_f64 = λ n. 0;
}

abbrev hashing : Hashing
hashing = record { sha3_256 = λ bs. []; to_vec = λ v. [] }

-- The world counts the calls of the tool, which is also the clock.
abbrev host : Host ℕ
host = record { elapsed = λ w w'. 1; choose = λ w. 0 }

abbrev tick : RegisteredTool ℕ
tick =
    sync (new_capability "tick" "Counts." SideEffect.none)
      (λ ctx w. (ok (Value.number (Number.pos_int w)), suc w))

abbrev registry : ToolRegistry ℕ
registry = record { tools = ("tick", tick) ∷ [] }

-- A program calls `tick` as many times as it is long, and prints a star for each.
abbrev stop : ℕ → Resumed ℕ ℕ
stop zero = Resumed.progress "*" (ReplProgress.complete 5 (MontyObject.int (ℤ.pos 5)))
stop (suc k) = Resumed.progress "*" (ReplProgress.function_call "tick" [] [] 0 k)

abbrev interpreter : Interpreter ℕ ℕ
interpreter = record {
  feed_start = λ repl code inputs. stop (len code);
  resume_lookup = λ k r. stop k;
  resume_call = λ k r. stop k;
  resume_pending = λ k. stop k;
  resume_futures = λ k rs. stop k;
  resume_os = λ k. stop k;
  into_repl = λ k. 0;
}

abbrev env : Env ℕ ℕ ℕ
env = record {
  interpreter = interpreter;
  library = library;
  hashing = hashing;
  host = host;
  registry = registry;
  limits = default_limits;
}

abbrev ticked : ExternalCallRecord
ticked = record {
  name = "tick";
  side_effect = SideEffect.none;
  duration_ms = 1;
  status = CallStatus.ok;
  request_digest = "";
  response_digest = some "";
  error = none;
}

abbrev two_calls : SnippetOutcome ℕ
two_calls = SnippetOutcome.complete 5 (MontyObject.int (ℤ.pos 5)) "***" (ticked ∷ ticked ∷ [])

two_calls-eq : run_repl_snippet env 3 0 "ab" [] 10 ≡ some (two_calls, 12)
unfolding run_repl_snippet new_capability digest_json to_hex
two_calls-eq = refl

run_repl_snippet-OutcomeAccounted_example : OutcomeAccounted env two_calls
run_repl_snippet-OutcomeAccounted_example =
    run_repl_snippet-OutcomeAccounted env (omega arith) 3 0 "ab" [] 10 two_calls 12 two_calls-eq

stop-ResumedWithin : (k : ℕ) → ResumedWithin (λ (k : ℕ). k) k (stop k)
stop-ResumedWithin zero = omega arith
stop-ResumedWithin (suc k) = omega arith

interpreter-IsBounded : IsBounded (λ (k : ℕ). k) interpreter
interpreter-IsBounded = record {
  lookup = λ k r. stop-ResumedWithin k;
  call = λ k r. stop-ResumedWithin k;
  pending = stop-ResumedWithin;
  futures = λ k rs. stop-ResumedWithin k;
  os = stop-ResumedWithin;
}

abbrev denied : ErrorObject
denied = new_error "PERMISSION_DENIED" "no"

uncaught_lem_example : uncaught library denied ≡ expected_uncaught "PERMISSION_DENIED"
uncaught_lem_example = uncaught_lem library (λ t s. refl) denied

abbrev three_bytes : SessionLimits
three_bytes = record default_limits { max_stdout_bytes = 3 }

abbrev list_value : Value
list_value =
    Value.array
      (Items.cons (Value.number (Number.neg_int 4)) (Items.cons (Value.string "x") Items.nil))

monty_to_json_checked-json_to_monty_example :
    (o : MontyObject) × (json_to_monty library.as_f64 list_value ≡ ok o)
    × (monty_to_json_checked library o ≡ monty_to_json_lossy library o)
unfolding FiniteValue
monty_to_json_checked-json_to_monty_example =
    monty_to_json_checked-json_to_monty library.as_f64 (λ n. refl) library list_value (tt, (tt, tt))

-- `x = eval; x("1"); import os.path`, and the call of `eval` in it.
abbrev program : Nodes
program =
    Nodes.cons
      (Node.node Shape.other (Nodes.cons (Node.node (Shape.call_name "eval") Nodes.nil) Nodes.nil))
      (Nodes.cons (Node.node (Shape.import ("os.path" ∷ [])) Nodes.nil) Nodes.nil)

static_validation_error-first_flagged_example :
    static_validation_error registry (some program) ≡ first_flagged registry (preorder_all program)
static_validation_error-first_flagged_example =
    static_validation_error-first_flagged registry program

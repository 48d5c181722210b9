-- ===== src/Deno/Tests/WorkerTests.antt =====
-- The worker and the sessions of crates/langshell-deno/src/lib.rs run with a small engine and one tool, and instances of
-- their theorems.
use langshell.Common.{
  ◌+◌, ◌≤◌, ℕ, suc, ◌≡◌, refl, sym, ap, Bool, true, false, ◌&&◌, ◌==◌, eqb, eq_iff, String, none,
  some, List, [], ◌∷◌, Result, ok, err, arith, lookup, remove, put, if◌then◌else◌, length,
}
use langshell.Core.{
  Value, Number, Fields, default_limits, new_capability, SideEffect, ToolCallContext, SessionLimits,
  RunRequest, Language,
}
use langshell.Core.Digest.{Hashing, digest_json, to_hex}
use langshell.Core.Registry.{RegisteredTool, ToolRegistry, sync}
use langshell.Monty.Calls.{Host}
use langshell.Deno.Ops.{RunningCall, new_state}
use langshell.Deno.Session.Run.Carried.{run-carries}
use langshell.Deno.Engine.{Script, Engine}
use langshell.Deno.Scripts.{Packages}
use langshell.Deno.Session.{DenoSession, live_of}
use langshell.Deno.Session.Run.{run}
use langshell.Deno.Session.Run.Coherent.{IsCoherent, run-IsCoherent}
use langshell.Deno.Session.Run.Accounted.{IsWithin, run-IsWithin}
use langshell.Deno.Validate.{Nodes, Node, Shape, Callee, ModuleDecl, static_validation_error}
use langshell.Deno.Validate.Walk.{first_error, walk_all, static_validation_error-first_error}
use langshell.Deno.Worker.{DenoWorker, Codec, SnapshotEnvelope, snapshot_session, restore_session}
use langshell.Deno.Worker.Snapshots.{Restored, restore_session-Restored}
use langshell.Deno.Scripts.Globals.{IsRead}
use langshell.Deno.Worker.Commands.{DenoCommand, run_worker_thread}
use langshell.Deno.Worker.Commands.Directory.{directory}
use langshell.Deno.Worker.Commands.Thread.{Serves, run_worker_thread-Serves}

abbrev hashing : Hashing
hashing = record { sha3_256 = λ bs. []; to_vec = λ v. [] }

-- The world counts the calls of the tool.
abbrev host : Host ℕ
host = record { elapsed = λ w w'. 1; choose = λ w. 0 }

abbrev tick : RegisteredTool ℕ
tick =
    sync (new_capability "tick" "Counts." SideEffect.none)
      (λ ctx w. (ok (Value.number (Number.pos_int w)), suc w))

abbrev registry : ToolRegistry ℕ
registry = record { tools = ("tick", tick) ∷ [] }

abbrev tick_call : ToolCallContext
tick_call = record { name = "tick"; args = []; kwargs = Fields.end }

abbrev running_tick : RunningCall ℕ
running_tick = record { tool = tick; ctx = tick_call }

-- A program prints a star, calls `tick`, begins a call of it and waits for its end. Other scripts do nothing.
abbrev program : ℕ → Script ℕ (Result String ℕ)
program js = Script.print "*" false (
    Script.sync tick_call
      (λ r. Script.async tick_call (λ o. Script.poll 0 (λ r. Script.ended (suc js) (ok 5)))))

abbrev engine : Engine ℕ ℕ
engine = record {
  try_new = λ heap. ok 0;
  execute_script =
      λ js name source. if name == "<langshell-run>" then program js else Script.ended js (ok js);
  bootstrap = λ js tools. Script.ended js (ok 0);
  event_loop = λ js v timeout. Script.ended js (some (ok v));
  timer_fired = λ js timeout. false;
  terminate_execution = λ js. js;
  cancel_terminate_execution = λ js. js;
  is_undefined = λ v. false;
  value_from_v8 = λ js v. ok (Value.number (Number.pos_int v));
  string_from_v8 = λ js v. ok "{}";
}

abbrev pkg : Packages ℕ ℕ String ℕ
pkg = record {
  engine = engine;
  parse_module = λ code. ok code;
  program = λ code. Nodes.nil;
  transpile = λ code. ok code;
  to_string = λ v. ok "{}";
  from_str = λ text. ok Value.null;
  hashing = hashing;
  host = host;
}

abbrev session : DenoSession ℕ ℕ
session = record {
  id = record { id = "s" };
  limits = default_limits;
  js = 0;
  op_state = new_state registry default_limits;
  running = [];
}

abbrev request : RunRequest
request = record {
  session_id = record { id = "s" };
  language = Language.type_script;
  code = "";
  inputs = Fields.end;
  timeout_ms = none;
  limits = none;
  return_snapshot = true;
  validate_only = false;
}

two_calls : length (run pkg session request registry 7).0.0.external_calls ≡ 2
unfolding run new_capability
two_calls = refl

run-IsCoherent_example : IsCoherent default_limits (run pkg session request registry 7).0.0
run-IsCoherent_example = run-IsCoherent pkg session request registry 7

run-IsWithin_example :
    IsWithin pkg registry default_limits (run pkg session request registry 7).0.0.external_calls
run-IsWithin_example = run-IsWithin pkg session request registry 7 (omega arith) refl

-- A session whose earlier run began a call of `tick` and did not wait for it.
abbrev busy : DenoSession ℕ ℕ
busy = record session { running = running_tick ∷ [] }

run-carries_example :
    let after = (run pkg busy request registry 7).0.1 in
    1 ≤ length after.op_state.records + length after.running
run-carries_example = run-carries pkg busy request registry 7

-- The limit of the next run is no call, and its result has the call of the earlier one.
stale :
    length
      (run pkg
        (record busy { limits = record default_limits { max_external_calls = 0 } })
        request
        registry
        7).0.0.external_calls
    ≡ 1
unfolding run
stale = refl

-- `export = eval()`, and a call of a member of `process`.
abbrev export_eval : Nodes
export_eval =
    Nodes.cons
      (Node.node (Shape.module_decl ModuleDecl.ts_export_assignment)
        (Nodes.cons (Node.node (Shape.call_expr (Callee.ident "eval")) Nodes.nil) Nodes.nil))
      Nodes.nil

abbrev process_exit : Nodes
process_exit =
    Nodes.cons
      (Node.node (Shape.call_expr Callee.expr)
        (Nodes.cons (Node.node (Shape.member_ident "process") Nodes.nil) Nodes.nil))
      Nodes.nil

export_eval_passes : static_validation_error registry (some export_eval) ≡ none
unfolding static_validation_error
export_eval_passes = refl

static_validation_error-first_error_example :
    static_validation_error registry (some process_exit)
    ≡ first_error registry (walk_all process_exit)
static_validation_error-first_error_example =
    static_validation_error-first_error registry process_exit

-- An archive of one envelope, that of the session above.
abbrev archived : SnapshotEnvelope
archived = record {
  magic = "langshell-deno-snapshot/v1";
  version = 2;
  session_id = "s";
  limits = default_limits;
  globals = Value.null;
  capability_digest = "";
}

limits_eq : SessionLimits → SessionLimits → Bool
limits_eq a b =
    (eqb a.memory_mb b.memory_mb && (eqb a.cpu_ms b.cpu_ms && eqb a.wall_ms b.wall_ms))
    && (eqb a.max_stdout_bytes b.max_stdout_bytes
        && (eqb a.max_external_calls b.max_external_calls
            && eqb a.max_stack_depth b.max_stack_depth))

limits_eq_sound : (a b : SessionLimits) → limits_eq a b ≡ true → a ≡ b
unfolding limits_eq
limits_eq_sound a b h = ground arith

is_null : Value → Bool
is_null Value.null = true
is_null (Value.bool b) = false
is_null _ = false

is_null_sound : (v : Value) → is_null v ≡ true → v ≡ Value.null
unfolding is_null
is_null_sound Value.null h = refl
is_null_sound (Value.bool b) h = cc
is_null_sound _ h = cc

is_archived : SnapshotEnvelope → Bool
unfolding limits_eq is_null
is_archived s =
    ((s.magic == "langshell-deno-snapshot/v1") && (eqb s.version 2 && (s.session_id == "s")))
    && (limits_eq s.limits default_limits && (is_null s.globals && (s.capability_digest == "")))

is_archived_sound : (s : SnapshotEnvelope) → is_archived s ≡ true → s ≡ archived
unfolding is_archived
is_archived_sound s h = ground (
  arith,
  eq_iff s.magic "langshell-deno-snapshot/v1",
  eq_iff s.session_id "s",
  eq_iff s.capability_digest "",
  limits_eq_sound s.limits default_limits,
  is_null_sound s.globals,
)

archive : Bool → Result String (List ℕ)
archive true = ok (1 ∷ [])
archive false = err "another envelope"

archive-eq-ok : (b : Bool) (bytes : List ℕ) → archive b ≡ ok bytes → b ≡ true
unfolding archive
archive-eq-ok true bytes h = refl
archive-eq-ok false bytes h = cc

abbrev codec : Codec
unfolding is_archived archive
codec = record {
  encode = λ s. archive (is_archived s);
  decode = λ bytes. ok archived;
  peek_magic = λ bytes. ok "langshell-deno-snapshot/v1";
}

decode-encode :
    (s : SnapshotEnvelope) (bytes : List ℕ) → codec.encode s ≡ ok bytes → codec.decode bytes ≡ ok s
unfolding codec
decode-encode s bytes h = ap ok (sym (is_archived_sound s (archive-eq-ok _ bytes h)))

abbrev worker : DenoWorker ℕ ℕ
worker = record {
  sessions = ("s", session) ∷ [];
  registry = registry;
  default_limits = default_limits;
}

abbrev empty : DenoWorker ℕ ℕ
empty = record worker { sessions = [] }

there : lookup "s" worker.sessions ≡ some session
unfolding lookup
there = refl

snapshot_taken : (snapshot_session pkg codec worker session.id 7).0.0 ≡ ok (1 ∷ [])
unfolding snapshot_session codec digest_json to_hex lookup
snapshot_taken = refl

restore_session-Restored_example :
    (globals : Value) × IsRead pkg (live_of session 7) globals
    × Restored pkg codec empty session.id default_limits globals 9
        (restore_session pkg codec empty (1 ∷ []) none 9)
restore_session-Restored_example =
    restore_session-Restored pkg codec decode-encode worker empty session.id session 7 9 (1 ∷ [])
      none there snapshot_taken refl

-- A session is made, runs, and is destroyed twice; after a shutdown a listing has no reply.
abbrev commands : List DenoCommand
commands =
    DenoCommand.create_session session.id none
    ∷ DenoCommand.run request
    ∷ DenoCommand.destroy_session session.id
    ∷ DenoCommand.destroy_session session.id
    ∷ DenoCommand.shutdown
    ∷ DenoCommand.list_sessions
    ∷ []

run_worker_thread-Serves_example :
    let left = run_worker_thread pkg codec commands empty 7 in
    Serves default_limits (directory empty) commands left.0.0 (directory left.0.1)
run_worker_thread-Serves_example = run_worker_thread-Serves pkg codec commands empty 7

destroyed_twice :
    let replies = (run_worker_thread pkg codec commands empty 7).0.0 in
    (replies.1.1.0 ≡ some true) × (replies.1.1.1.0 ≡ some false) × (replies.1.1.1.1.1.0 ≡ none)
unfolding run_worker_thread lookup remove put
destroyed_twice = (refl, refl, refl)

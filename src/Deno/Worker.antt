-- ===== src/Deno/Worker.antt =====
-- `DenoCommand`, `DenoWorker`, `run_worker_thread` and the methods of `DenoRuntime` of
-- crates/langshell-deno/src/lib.rs. A command has a channel for its reply, whose type is the command's; a channel
-- that is dropped with no reply gives `none`. The worker has one thread, which ends a command before it takes the
-- next one.
pub mod Commands
pub mod Snapshots
use langshell.Common.{
  ℕ, Bool, true, false, eqb, ◌==◌, ◌<>◌, String, Option, none, some, get_or, List, [], ◌∷◌, Result,
  ok, err, ok_or, ensure, map_err, ◌>>=◌, ◌>>◌, decimal, lookup, remove, put, if◌then◌else◌,
}
use langshell.Core.{
  Value, ErrorObject, new_error, Language, language_eq, RunRequest, RunResult, RunStatus, SessionId,
  SessionLimits, snapshot_version, error_result, default_metrics,
}
use langshell.Core.Registry.{ToolRegistry}
use langshell.Deno.Errors.{effective_limits, capability_digest}
use langshell.Deno.Scripts.{Packages, Live, Answer, snapshot_globals, restore_globals}
use langshell.Deno.Session.{DenoSession, live_of, keep_live}
use langshell.Deno.Session.Run
use langshell.Deno.Session.Run.{new_session, validate_request}

pub record SnapshotEnvelope : Type 0 where
  pub magic : String
  pub version : ℕ
  pub session_id : String
  pub limits : SessionLimits
  pub globals : Value
  pub capability_digest : String

abbrev pub deno_snapshot_magic : String
deno_snapshot_magic = "langshell-deno-snapshot/v1"

-- The CBOR writer of envelopes and the two readers.
pub record Codec : Type 0 where
  pub encode : SnapshotEnvelope → Result String (List ℕ)
  pub decode : List ℕ → Result String SnapshotEnvelope
  pub peek_magic : List ℕ → Result String String

abbrev magic_matches : Result String String → Bool
magic_matches (err e) = false
magic_matches (ok magic) = magic == deno_snapshot_magic

unfoldable pub is_deno_snapshot : Codec → List ℕ → Bool
is_deno_snapshot codec snapshot = magic_matches (codec.peek_magic snapshot)

-- The sessions, of which a key has one.
pub record DenoWorker (Js W : Type 0) : Type 0 where
  pub sessions : List (String × DenoSession Js W)
  pub registry : ToolRegistry W
  pub default_limits : SessionLimits

abbrev snapshot_corrupt : String → ErrorObject
snapshot_corrupt message = new_error "SNAPSHOT_CORRUPT" message

abbrev pub session_not_found : SessionId → ErrorObject
session_not_found id =
    new_error "SESSION_NOT_FOUND" ("TypeScript session " <> id.id <> " does not exist.")

abbrev only_typescript : RunResult
only_typescript =
    error_result RunStatus.validation_error
      (new_error "UNSUPPORTED_FEATURE" "The Deno backend only executes TypeScript.") ""
      default_metrics

-- `sessions.insert`.
abbrev pub insert_session :
    {Js W : Type 0} → DenoWorker Js W → SessionId → DenoSession Js W → DenoWorker Js W
insert_session worker id session = record worker { sessions = put id.id session worker.sessions }

module _ {Js V Parsed W : Type 0} (pkg : Packages Js V Parsed W) (codec : Codec) where
  abbrev Worker : Type 0
  Worker = DenoWorker Js W

  -- What a method of the worker gives: its result, the worker and the world that it leaves.
  abbrev Left : Type 0 → Type 0
  Left A = (A × Worker) × W

  insert_created :
      Worker
      → SessionId
      → Result ErrorObject (DenoSession Js W) × W
      → Left (Result ErrorObject (Unit {0}))
  unfolding put
  insert_created worker id (err e, w) = ((err e, worker), w)
  insert_created worker id (ok session, w) = ((ok tt, insert_session worker id session), w)

  create_missing :
      Worker
      → SessionId
      → Option SessionLimits
      → W
      → Option (DenoSession Js W)
      → Left (Result ErrorObject (Unit {0}))
  unfolding new_session insert_created
  create_missing worker id limits w (some session) = ((ok tt, worker), w)
  create_missing worker id limits w none =
      insert_created worker id
        (new_session pkg id (get_or limits worker.default_limits) worker.registry w)

  unfoldable pub create_session :
      Worker → SessionId → Option SessionLimits → W → Left (Result ErrorObject (Unit {0}))
  unfolding create_missing lookup
  create_session worker id limits w =
      create_missing worker id limits w (lookup id.id worker.sessions)

  -- The run of a session, which goes back into the map.
  run_in : Worker → RunRequest → Result ErrorObject (DenoSession Js W) × W → Left RunResult
  unfolding Run.run put
  run_in worker request (err e, w) =
      ((error_result RunStatus.runtime_error e "" default_metrics, worker), w)
  run_in worker request (ok session, w) =
      let ((result, session'), w') = Run.run pkg session request worker.registry w in
      ((result, insert_session worker request.session_id session'), w')

  -- The session of the request with the limits of the run, or a new one.
  session_for :
      Worker
      → RunRequest
      → W
      → Option (DenoSession Js W)
      → Result ErrorObject (DenoSession Js W) × W
  unfolding new_session effective_limits
  session_for worker request w (some session) =
      (ok (record session { limits = effective_limits worker.default_limits request }), w)
  session_for worker request w none =
      new_session pkg request.session_id (effective_limits worker.default_limits request)
        worker.registry w

  unfoldable pub run : Worker → RunRequest → W → Left RunResult
  unfolding run_in session_for validate_request lookup remove
  run worker request w =
      if language_eq request.language Language.type_script
      then if request.validate_only
        then ((validate_request pkg request worker.registry w, worker), w)
        else run_in (record worker { sessions = remove request.session_id.id worker.sessions })
            request (session_for worker request w (lookup request.session_id.id worker.sessions))
      else ((only_typescript, worker), w)

  envelope : Worker → SessionId → SessionLimits → Value → SnapshotEnvelope
  unfolding capability_digest
  envelope worker id limits globals = record {
    magic = deno_snapshot_magic;
    version = snapshot_version;
    session_id = id.id;
    limits = limits;
    globals = globals;
    capability_digest = capability_digest pkg.hashing worker.registry;
  }

  -- The globals' snapshot runs a script in the session, which stays in the map as the script leaves it.
  snapshot_of :
      Worker → SessionId → DenoSession Js W → Answer Js W Value → Left (Result ErrorObject (List ℕ))
  unfolding envelope put
  snapshot_of worker id session (globals, live) = (
    (
      globals >>= λ value.
          map_err (λ e. snapshot_corrupt ("Failed to serialize Deno snapshot: " <> e))
            (codec.encode (envelope worker id session.limits value)),
      insert_session worker id (keep_live session live),
    ),
    live.ops.world,
  )

  snapshot_found :
      Worker → SessionId → W → Option (DenoSession Js W) → Left (Result ErrorObject (List ℕ))
  unfolding snapshot_of snapshot_globals
  snapshot_found worker id w none = ((err (session_not_found id), worker), w)
  snapshot_found worker id w (some session) =
      snapshot_of worker id session (snapshot_globals pkg (live_of session w))

  unfoldable pub snapshot_session : Worker → SessionId → W → Left (Result ErrorObject (List ℕ))
  unfolding snapshot_found lookup
  snapshot_session worker id w = snapshot_found worker id w (lookup id.id worker.sessions)

  unfoldable pub read_envelope : Worker → List ℕ → Result ErrorObject SnapshotEnvelope
  unfolding capability_digest
  read_envelope worker bytes = do
    snapshot ← map_err (λ e. snapshot_corrupt ("Invalid Deno snapshot: " <> e)) (codec.decode bytes)
    ensure (snapshot.magic == deno_snapshot_magic)
        (snapshot_corrupt "Deno snapshot magic mismatch.")
    ensure (eqb snapshot.version snapshot_version) (
        new_error "SNAPSHOT_VERSION_MISMATCH"
          ("Snapshot version " <> decimal snapshot.version <> " is not supported."))
    ensure (snapshot.capability_digest == capability_digest pkg.hashing worker.registry) (
        new_error "SNAPSHOT_CAPABILITY_MISMATCH"
          "Snapshot was created with a different capability set.")
    ok snapshot

  restored :
      Worker
      → SessionId
      → DenoSession Js W
      → Answer Js W (Unit {0})
      → Left (Result ErrorObject SessionId)
  unfolding put
  restored worker id session (err e, live) = ((err e, worker), live.ops.world)
  restored worker id session (ok u, live) =
      ((ok id, insert_session worker id (keep_live session live)), live.ops.world)

  pub restore_new :
      Worker
      → SessionId
      → Value
      → Result ErrorObject (DenoSession Js W) × W
      → Left (Result ErrorObject SessionId)
  unfolding restored restore_globals
  restore_new worker id globals (err e, w) = ((err e, worker), w)
  restore_new worker id globals (ok session, w) =
      restored worker id session (restore_globals pkg (live_of session w) globals)

  restore_read :
      Worker
      → Option SessionId
      → W
      → Result ErrorObject SnapshotEnvelope
      → Left (Result ErrorObject SessionId)
  unfolding restore_new new_session
  restore_read worker session_id w (err e) = ((err e, worker), w)
  restore_read worker session_id w (ok snapshot) =
      let id = get_or session_id (record { id = snapshot.session_id }) in
      restore_new worker id snapshot.globals (new_session pkg id snapshot.limits worker.registry w)

  unfoldable pub restore_session :
      Worker → List ℕ → Option SessionId → W → Left (Result ErrorObject SessionId)
  unfolding restore_read read_envelope
  restore_session worker bytes session_id w =
      restore_read worker session_id w (read_envelope worker bytes)

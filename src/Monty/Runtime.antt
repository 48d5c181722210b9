-- ===== src/Monty/Runtime.antt =====
-- `MontyRuntime`, `SnapshotEnvelope`, `is_monty_snapshot` and `capability_digest` of
-- crates/langshell-monty/src/lib.rs. An operation takes the map of sessions as it is when it has the lock,
-- and gives the map that it leaves. `run` has the lock twice, so it is two steps: `take` and `finish`.
pub mod Snapshots
pub mod Sessions
pub mod Total
pub mod Validation
use langshell.Common.{
  ℕ, ◌≡◌, refl, Bool, true, false, eqb, ◌==◌, ◌<>◌, String, Option, none, some, get_or, List, [],
  ◌∷◌, map, Result, ok, err, ok_or, ensure, map_err, map_ok, ◌>>=◌, ◌>>◌, is_some, lookup, remove,
  put, keys, sort, decimal, if◌then◌else◌,
}
use langshell.Core.{
  Value, Language, language_eq, ErrorObject, RunRequest, RunResult, RunStatus, SessionId,
  SessionLimits, new_error, error_result, ok_result, default_metrics, snapshot_version, to_items,
  from_fields,
}
use langshell.Core.Digest.{Hashing, digest_json}
use langshell.Core.Registry.{ToolRegistry, names}
use langshell.Monty.Objects.{MontyException}
use langshell.Monty.Errors.{code_to_status, error_from_exception}
use langshell.Monty.Limits.{effective_limits, metrics, resource_limits, ResourceLimits}
use langshell.Monty.Validate.{Nodes, static_validation_error}
use langshell.Monty.Session.{MontySession, Packages}
use langshell.Monty.Session.Run.{run_session}

pub record SnapshotEnvelope : Type 0 where
  pub magic : String
  pub version : ℕ
  pub session_id : String
  pub limits : SessionLimits
  pub repl_dump : List ℕ
  pub capability_digest : String

abbrev pub monty_snapshot_magic : String
monty_snapshot_magic = "langshell-monty-snapshot/v1"

-- What the runtime uses of other packages besides those of a session: `MontyRepl::new` and
-- `MontyRun::new`, `dump` and `load`, and the two CBOR readers and the writer of envelopes.
pub record Storage (Repl : Type 0) : Type 0 where
  pub new_repl : ResourceLimits → Repl
  pub check_program : String → List String → Result MontyException (Unit {0})
  pub dump : Repl → Result String (List ℕ)
  pub load : List ℕ → Result String Repl
  pub encode : SnapshotEnvelope → Result String (List ℕ)
  pub decode : List ℕ → Result String SnapshotEnvelope
  pub peek_magic : List ℕ → Result String String

pub record MontyRuntime (Repl W : Type 0) : Type 0 where
  pub sessions : List (String × MontySession Repl)
  pub registry : ToolRegistry W
  pub default_limits : SessionLimits

abbrev magic_matches : Result String String → Bool
magic_matches (ok magic) = magic == monty_snapshot_magic
magic_matches (err e) = false

abbrev snapshot_corrupt : String → ErrorObject
snapshot_corrupt message = new_error "SNAPSHOT_CORRUPT" message

module _ {Repl K W : Type 0} (pkg : Packages Repl K W) (storage : Storage Repl) where
  unfoldable pub is_monty_snapshot : List ℕ → Bool
  is_monty_snapshot snapshot = magic_matches (storage.peek_magic snapshot)

  unfoldable pub new_session : SessionId → SessionLimits → MontySession Repl
  unfolding resource_limits
  new_session id limits = record {
    id = id;
    limits = limits;
    repl = storage.new_repl (resource_limits limits);
  }

  abbrev pub with_sessions :
      MontyRuntime Repl W → List (String × MontySession Repl) → MontyRuntime Repl W
  with_sessions rt sessions = record rt { sessions = sessions }

  -- `entry(...).or_insert_with(...)`, with what the map has at the key: a session that is there stays.
  or_insert :
      MontyRuntime Repl W
      → String
      → MontySession Repl
      → Option (MontySession Repl)
      → MontyRuntime Repl W
  unfolding put
  or_insert rt key created none = with_sessions rt (put key created rt.sessions)
  or_insert rt key created (some session) = rt

  unfoldable pub create_session :
      MontyRuntime Repl W → SessionId → Option SessionLimits → MontyRuntime Repl W
  unfolding new_session lookup or_insert
  create_session rt session_id limits =
      or_insert rt session_id.id (new_session session_id (get_or limits rt.default_limits))
        (lookup session_id.id rt.sessions)

  validated : W → Result MontyException (Unit {0}) → RunResult
  unfolding error_from_exception code_to_status
  validated w (ok u) = ok_result none "" (metrics (pkg.host.elapsed w w) 0 0)
  validated w (err e) =
      let error = error_from_exception e true in
      error_result (code_to_status error.code true) error "" (metrics (pkg.host.elapsed w w) 0 0)

  unfoldable pub validate : MontyRuntime Repl W → RunRequest → W → RunResult
  unfolding static_validation_error code_to_status validated
  validate rt request w =
      elim (static_validation_error rt.registry (pkg.parse_module request.code)) [
        | some error ↦
            error_result (code_to_status error.code true) error ""
              (metrics (pkg.host.elapsed w w) 0 0)
        | none ↦
            validated w (storage.check_program request.code (keys (from_fields request.inputs)))
      ]

  abbrev only_python : RunResult
  only_python =
      error_result RunStatus.validation_error
        (new_error "UNSUPPORTED_FEATURE" "The Monty runtime only executes Python.") ""
        default_metrics

  -- `run` up to its session: a result at once, or the session with its limits, which leaves the map.
  pub data Taken : Type 0 where
    answered : RunResult → Taken
    taken : MontySession Repl → List (String × MontySession Repl) → Taken

  unfoldable pub take : MontyRuntime Repl W → RunRequest → W → Taken
  unfolding validate effective_limits new_session lookup remove
  take rt request w =
      let limits = effective_limits rt.default_limits request in
      let id = request.session_id in
      let session = get_or (lookup id.id rt.sessions) (new_session id limits) in
      if language_eq request.language Language.python
      then if request.validate_only
        then answered (validate rt request w)
        else taken (record session { limits = limits }) (remove id.id rt.sessions)
      else answered only_python

  -- The end of `run`: its session goes into the map of that moment.
  unfoldable pub finish : MontyRuntime Repl W → SessionId → MontySession Repl → MontyRuntime Repl W
  unfolding put
  finish rt id session = with_sessions rt (put id.id session rt.sessions)

  run_done :
      MontyRuntime Repl W
      → SessionId
      → Option ((MontySession Repl × RunResult) × W)
      → Option ((MontyRuntime Repl W × RunResult) × W)
  unfolding finish
  run_done rt id none = none
  run_done rt id (some ((session, result), w)) = some ((finish rt id session, result), w)

  run_taken :
      ℕ
      → MontyRuntime Repl W
      → RunRequest
      → W
      → Taken
      → Option ((MontyRuntime Repl W × RunResult) × W)
  unfolding run_session run_done
  run_taken fuel rt request w (answered result) = some ((rt, result), w)
  run_taken fuel rt request w (taken session sessions) =
      run_done (with_sessions rt sessions) request.session_id
        (run_session pkg fuel session request rt.registry w)

  -- `run` when no other operation comes between its steps.
  unfoldable pub run :
      ℕ → MontyRuntime Repl W → RunRequest → W → Option ((MontyRuntime Repl W × RunResult) × W)
  unfolding take run_taken
  run fuel rt request w = run_taken fuel rt request w (take rt request w)

  unfoldable pub destroy_session : MontyRuntime Repl W → SessionId → MontyRuntime Repl W × Bool
  unfolding remove lookup
  destroy_session rt session_id = (
    with_sessions rt (remove session_id.id rt.sessions),
    is_some (lookup session_id.id rt.sessions),
  )

  unfoldable pub list_sessions : MontyRuntime Repl W → List SessionId
  unfolding sort
  list_sessions rt = map (λ id. record { id = id }) (sort (keys rt.sessions))

  unfoldable pub capability_digest : ToolRegistry W → String
  unfolding names
  capability_digest registry =
      digest_json pkg.hashing (Value.array (to_items (map Value.string (names registry))))

  unfoldable pub snapshot_session : MontyRuntime Repl W → SessionId → Result ErrorObject (List ℕ)
  unfolding capability_digest
  snapshot_session rt session_id = do
    session ←
        ok_or (lookup session_id.id rt.sessions)
          (new_error "SESSION_NOT_FOUND" ("Session " <> session_id.id <> " does not exist."))
    repl_dump ←
        map_err (λ e. snapshot_corrupt ("Failed to encode snapshot: " <> e))
          (storage.dump session.repl)
    map_err (λ e. snapshot_corrupt ("Failed to serialize snapshot: " <> e))
        (storage.encode (record {
          magic = monty_snapshot_magic;
          version = snapshot_version;
          session_id = session_id.id;
          limits = session.limits;
          repl_dump = repl_dump;
          capability_digest = capability_digest rt.registry;
        }))

  -- The checks of an envelope.
  unfoldable pub check_envelope :
      MontyRuntime Repl W → SnapshotEnvelope → Result ErrorObject (Unit {0})
  unfolding capability_digest
  check_envelope rt snapshot = do
    ensure (snapshot.magic == monty_snapshot_magic) (snapshot_corrupt "Snapshot magic mismatch.")
    ensure (eqb snapshot.version snapshot_version) (
        new_error "SNAPSHOT_VERSION_MISMATCH"
          ("Snapshot version " <> decimal snapshot.version <> " is not supported."))
    ensure (snapshot.capability_digest == capability_digest rt.registry) (
        new_error "SNAPSHOT_CAPABILITY_MISMATCH"
          "Snapshot was created with a different capability set.")

  unfoldable pub restore_session :
      MontyRuntime Repl W
      → List ℕ
      → Option SessionId
      → Result ErrorObject (MontyRuntime Repl W × SessionId)
  unfolding check_envelope put
  restore_session rt bytes session_id = do
    snapshot ← map_err (λ e. snapshot_corrupt ("Invalid snapshot: " <> e)) (storage.decode bytes)
    check_envelope rt snapshot
    repl ←
        map_err (λ e. snapshot_corrupt ("Failed to decode Monty state: " <> e))
          (storage.load snapshot.repl_dump)
    let id = get_or session_id (record { id = snapshot.session_id })
    ok (
      with_sessions rt
          (put id.id (record { id = id; limits = snapshot.limits; repl = repl }) rt.sessions),
      id,
    )

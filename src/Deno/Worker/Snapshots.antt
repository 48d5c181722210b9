-- ===== src/Deno/Worker/Snapshots.antt =====
-- Snapshots of a worker's sessions, restored.
use langshell.Common.{
  ℕ, ◌≡◌, refl, sym, subst, Result, err, eq_refl, Option, some, get_or, List, ok, >>=-eq-ok,
  map_err-eq-ok, lookup,
}
use langshell.Core.{ErrorObject, Value, SessionId, SessionLimits}
use langshell.Deno.Errors.{capability_digest}
use langshell.Deno.Scripts.{Packages, Live, Answer, snapshot_globals}
use langshell.Deno.Scripts.Globals.{IsRead, Gives, snapshot_globals-IsRead, restore_globals-Gives}
use langshell.Deno.Session.{DenoSession, live_of, keep_live}
use langshell.Deno.Session.Run.{new_session}
use langshell.Deno.Session.Run.Created.{new_session-eq-ok}
use langshell.Deno.Worker.{
  DenoWorker, Codec, SnapshotEnvelope, envelope, snapshot_of, snapshot_found, snapshot_session,
  read_envelope, insert_session, restored, restore_new, restore_read, restore_session,
}

module _ {Js V Parsed W : Type 0} (pkg : Packages Js V Parsed W) (codec : Codec) where
  -- An envelope of the same capabilities passes the checks.
  read_envelope-envelope :
      (worker other : DenoWorker Js W) (id : SessionId) (limits : SessionLimits) (globals : Value)
      (bytes : List ℕ)
      → capability_digest pkg.hashing worker.registry ≡ capability_digest pkg.hashing other.registry
      → codec.decode bytes ≡ ok (envelope pkg codec worker id limits globals)
      → read_envelope pkg codec other bytes ≡ ok (envelope pkg codec worker id limits globals)
  unfolding read_envelope envelope
  read_envelope-envelope worker other id limits globals bytes same h =
      rw (h, same, eq_refl (capability_digest pkg.hashing other.registry)) refl

  -- What a snapshot that succeeds has written.
  snapshot_found-eq-ok :
      (worker : DenoWorker Js W) (id : SessionId) (w : W) (session : DenoSession Js W)
      (bytes : List ℕ)
      → (snapshot_found pkg codec worker id w (some session)).0.0 ≡ ok bytes
      → (globals : Value) × ((snapshot_globals pkg (live_of session w)).0 ≡ ok globals)
        × (codec.encode (envelope pkg codec worker id session.limits globals) ≡ ok bytes)
  unfolding snapshot_found snapshot_of
  snapshot_found-eq-ok worker id w session bytes h =
      let (globals, read, written) = >>=-eq-ok _ _ h in (globals, read, map_err-eq-ok _ _ written)

  -- A restore of globals: a new session of the id and the limits is given the globals by a script, and is in the
  -- worker under its id as the script leaves it; where one of these fails, the worker stays as it is.
  pub data Restored (worker : DenoWorker Js W) (id : SessionId) (limits : SessionLimits)
      (globals : Value) (w : W)
      : (Result ErrorObject SessionId × DenoWorker Js W) × W → Type 0 where
    unmade :
        {e : ErrorObject} {w' : W}
        → new_session pkg id limits worker.registry w ≡ (err e, w')
        → Restored worker id limits globals w ((err e, worker), w')
    refused :
        {fresh : DenoSession Js W} {w' : W} {e : ErrorObject} {live : Live Js W}
        → new_session pkg id limits worker.registry w ≡ (ok fresh, w')
        → Gives pkg (live_of fresh w') globals (err e, live)
        → Restored worker id limits globals w ((err e, worker), live.ops.world)
    given :
        {fresh : DenoSession Js W} {w' : W} {live : Live Js W}
        → new_session pkg id limits worker.registry w ≡ (ok fresh, w')
        → (fresh.id ≡ id) × (fresh.limits ≡ limits)
        → Gives pkg (live_of fresh w') globals (ok tt, live)
        → Restored worker id limits globals w
            ((ok id, insert_session worker id (keep_live fresh live)), live.ops.world)

  restored-Restored :
      (worker : DenoWorker Js W) (id : SessionId) (limits : SessionLimits) (globals : Value)
      (w w' : W) (fresh : DenoSession Js W) (answer : Answer Js W (Unit {0}))
      → new_session pkg id limits worker.registry w ≡ (ok fresh, w')
      → Gives pkg (live_of fresh w') globals answer
      → Restored worker id limits globals w (restored pkg codec worker id fresh answer)
  unfolding restored
  restored-Restored worker id limits globals w w' fresh (err e, live) h gives =
      Restored.refused h gives
  restored-Restored worker id limits globals w w' fresh (ok u, live) h gives =
      Restored.given h (new_session-eq-ok pkg id limits worker.registry w w' fresh h) gives

  restore_new-Restored :
      (worker : DenoWorker Js W) (id : SessionId) (limits : SessionLimits) (globals : Value) (w : W)
      (r : Result ErrorObject (DenoSession Js W) × W)
      → new_session pkg id limits worker.registry w ≡ r
      → Restored worker id limits globals w (restore_new pkg codec worker id globals r)
  unfolding restore_new
  restore_new-Restored worker id limits globals w (err e, w') h = Restored.unmade h
  restore_new-Restored worker id limits globals w (ok fresh, w') h =
      restored-Restored worker id limits globals w w' fresh _ h
        (restore_globals-Gives pkg (live_of fresh w') globals)

  -- A snapshot that succeeds and is restored, by a worker whose tools have the same digest, under its own id or
  -- another one: the script of the snapshot has given a text of JSON; the restore makes a new session with that id
  -- and the limits of the snapshot's session, and its script is given the text of the same globals; the session is
  -- in the map under that id as the script leaves it, and the id is the answer. Where the session is not made, or
  -- the globals have no text, or the script throws, the restore fails and the map stays. The reader of envelopes
  -- reads what the writer wrote.
  pub restore_session-Restored :
      ((e : SnapshotEnvelope) (bytes : List ℕ)
        → codec.encode e ≡ ok bytes
        → codec.decode bytes ≡ ok e)
      → (worker other : DenoWorker Js W) (id : SessionId) (session : DenoSession Js W) (w w' : W)
        (bytes : List ℕ) (session_id : Option SessionId)
      → lookup id.id worker.sessions ≡ some session
      → (snapshot_session pkg codec worker id w).0.0 ≡ ok bytes
      → capability_digest pkg.hashing worker.registry ≡ capability_digest pkg.hashing other.registry
      → (globals : Value) × IsRead pkg (live_of session w) globals
        × Restored other
            (get_or session_id id)
            session.limits
            globals
            w'
            (restore_session pkg codec other bytes session_id w')
  unfolding snapshot_session restore_session restore_read
  restore_session-Restored reads worker other id session w w' bytes session_id there taken same =
      let (globals, read, written) =
        snapshot_found-eq-ok worker id w session bytes
          (subst (λ o. (snapshot_found pkg codec worker id w o).0.0 ≡ ok bytes) there taken) in
      let checked =
        read_envelope-envelope worker other id session.limits globals bytes same
          (reads _ bytes written) in
      (
        globals,
        snapshot_globals-IsRead pkg (live_of session w) globals read,
        subst
            (λ r.
              Restored other (get_or session_id id) session.limits globals w'
                (restore_read pkg codec other session_id w' r))
            (sym checked)
            (restore_new-Restored other (get_or session_id id) session.limits globals w' _ refl),
      )

-- ===== src/Deno/Worker/Commands/Handled.antt =====
-- The remaining commands, and the worker's loop as an implementation of the directory.
use langshell.Common.{
  ℕ, ◌≡◌, refl, sym, ap, none-ne-some, lookup-remove, ◌∙◌, subst, ◌==◌, String, Option, none, some,
  get_or, List, [], ◌∷◌, map, Result, ok, err, keys, lookup, sort, contains, contains-keys,
  contains-sort, IsOrdered, sort-IsOrdered,
}
use langshell.Core.{ErrorObject, Value, SessionId}
use langshell.Deno.Scripts.{Packages, Answer}
use langshell.Deno.Session.{DenoSession}
use langshell.Deno.Worker
use langshell.Deno.Worker.{
  DenoWorker, Codec, SnapshotEnvelope, snapshot_of, snapshot_found, restored, restore_new,
  restore_read, read_envelope, session_not_found,
}
use langshell.Deno.Worker.Commands.{DenoCommand, handle}
use langshell.Deno.Worker.Commands.Directory.{
  limits_of, limits_of-if, is_some-limits_of, insert_session-directory, Same-insert_session,
}
use langshell.Deno.Worker.Commands.Allowed.{Worked, create_session-Worked, run-Worked}

module _ {Js V Parsed W : Type 0} (pkg : Packages Js V Parsed W) (codec : Codec) where
  map-ids :
      (ids : List String)
      → map (λ (id : SessionId). id.id) (map (λ id. record { id = id }) ids) ≡ ids
  map-ids [] = refl
  map-ids (id ∷ ids) = ap (◌∷◌ id) (map-ids ids)

  snapshot_found-Worked :
      (worker : DenoWorker Js W) (id : SessionId) (w : W) (o : Option (DenoSession Js W))
      → lookup id.id worker.sessions ≡ o
      → Worked pkg codec
          (DenoCommand.snapshot_session id)
          worker
          (snapshot_found pkg codec worker id w o)
  unfolding snapshot_found snapshot_of
  snapshot_found-Worked worker id w none h = ((λ absent. refl), (λ k. refl))
  snapshot_found-Worked worker id w (some session) h = (
    (λ absent. absurd (none-ne-some _ (sym absent ∙ ap limits_of h))),
    Same-insert_session worker id _ (ap limits_of h),
  )

  restored-Worked :
      (worker : DenoWorker Js W) (bytes : List ℕ) (session_id : Option SessionId) (id : SessionId)
      (session : DenoSession Js W) (answer : Answer Js W (Unit {0}))
      → id ≡ get_or session_id id
      → Worked pkg codec
          (DenoCommand.restore_session bytes session_id)
          worker
          (restored pkg codec worker id session answer)
  unfolding restored
  restored-Worked worker bytes session_id id session (err e, live) named = λ k. refl
  restored-Worked worker bytes session_id id session (ok u, live) named =
      (named, session.limits, insert_session-directory worker id _)

  restore_new-Worked :
      (worker : DenoWorker Js W) (bytes : List ℕ) (session_id : Option SessionId) (id : SessionId)
      (globals : Value) (made : Result ErrorObject (DenoSession Js W) × W)
      → id ≡ get_or session_id id
      → Worked pkg codec
          (DenoCommand.restore_session bytes session_id)
          worker
          (restore_new pkg codec worker id globals made)
  unfolding restore_new
  restore_new-Worked worker bytes session_id id globals (err e, w) named = λ k. refl
  restore_new-Worked worker bytes session_id id globals (ok session, w) named =
      restored-Worked worker bytes session_id id session _ named

  get_or_twice : (o : Option SessionId) (id : SessionId) → get_or o id ≡ get_or o (get_or o id)
  get_or_twice none id = refl
  get_or_twice (some named) id = refl

  restore_read-Worked :
      (worker : DenoWorker Js W) (bytes : List ℕ) (session_id : Option SessionId) (w : W)
      (r : Result ErrorObject SnapshotEnvelope)
      → Worked pkg codec
          (DenoCommand.restore_session bytes session_id)
          worker
          (restore_read pkg codec worker session_id w r)
  unfolding restore_read
  restore_read-Worked worker bytes session_id w (err e) = λ k. refl
  restore_read-Worked worker bytes session_id w (ok snapshot) =
      restore_new-Worked worker bytes session_id _ snapshot.globals _ (get_or_twice session_id _)

  pub handle-Worked :
      (command : DenoCommand) (worker : DenoWorker Js W) (w : W)
      → Worked pkg codec command worker (handle pkg codec command worker w)
  unfolding handle Worker.snapshot_session Worker.restore_session
  handle-Worked (DenoCommand.create_session id limits) worker w =
      create_session-Worked pkg codec worker id limits w
  handle-Worked (DenoCommand.run request) worker w = run-Worked pkg codec worker request w
  handle-Worked (DenoCommand.destroy_session id) worker w = (
    sym (is_some-limits_of (lookup id.id worker.sessions)),
    λ k. ap limits_of (lookup-remove id.id k worker.sessions) ∙ limits_of-if (id.id == k) _ _,
  )
  handle-Worked DenoCommand.list_sessions worker w = (
    λ k.
        ap (λ ids. contains ids k) (map-ids (sort (keys worker.sessions)))
        ∙ contains-sort k (keys worker.sessions)
        ∙ contains-keys k worker.sessions
        ∙ sym (is_some-limits_of (lookup k worker.sessions)),
    subst IsOrdered (sym (map-ids (sort (keys worker.sessions))))
        (sort-IsOrdered (keys worker.sessions)),
    λ k. refl,
  )
  handle-Worked (DenoCommand.snapshot_session id) worker w =
      snapshot_found-Worked worker id w (lookup id.id worker.sessions) refl
  handle-Worked (DenoCommand.restore_session bytes session_id) worker w =
      restore_read-Worked worker bytes session_id w (read_envelope pkg codec worker bytes)
  handle-Worked DenoCommand.shutdown worker w = λ k. refl

-- ===== src/Deno/Worker/Commands/Allowed.antt =====
-- Each command's reply and effect are as the directory says.
use langshell.Common.{
  ◌≡◌, inl, inr, refl, sym, ap, ◌∙◌, subst, Bool, true, false, not, ◌&&◌, ◌==◌, eq_iff, String,
  Option, none, some, get_or, Result, ok, err, lookup, remove, lookup-remove, if◌then◌else◌,
  Bool-cases,
}
use langshell.Core.{
  ErrorObject, Language, language_eq, RunRequest, RunResult, SessionId, SessionLimits,
}
use langshell.Deno.Errors.{effective_limits}
use langshell.Deno.Scripts.{Packages}
use langshell.Deno.Session.{DenoSession}
use langshell.Deno.Session.Run
use langshell.Deno.Session.Run.{new_session}
use langshell.Deno.Session.Run.Created.{HasLimits, new_session-HasLimits}
use langshell.Deno.Worker
use langshell.Deno.Worker.{
  DenoWorker, Codec, insert_session, insert_created, create_missing, run_in, session_for,
  snapshot_of, snapshot_found, restored, restore_new, restore_read, read_envelope,
  session_not_found,
}
use langshell.Deno.Worker.Commands.{DenoCommand, ReplyOf}
use langshell.Deno.Worker.Commands.Directory.{
  Same, Sets, Ran, Allows, directory, limits_of, limits_of-if, insert_session-directory,
}

module _ {Js V Parsed W : Type 0} (pkg : Packages Js V Parsed W) (codec : Codec) where
  abbrev pub Worked :
      (command : DenoCommand) → DenoWorker Js W → (ReplyOf command × DenoWorker Js W) × W → Type 0
  Worked command worker left =
      Allows worker.default_limits (directory worker) command left.0.0 (directory left.0.1)

  insert_created-Worked :
      (worker : DenoWorker Js W) (id : SessionId) (limits : Option SessionLimits)
      (made : Result ErrorObject (DenoSession Js W) × W)
      → directory worker id.id ≡ none
      → HasLimits (get_or limits worker.default_limits) made.0
      → Worked
          (DenoCommand.create_session id limits)
          worker
          (insert_created pkg codec worker id made)
  unfolding insert_created
  insert_created-Worked worker id limits (err e, w) absent has = (absent, λ k. refl)
  insert_created-Worked worker id limits (ok session, w) absent has =
      λ k. insert_session-directory worker id session k ∙ rw (absent, has) refl

  -- A session that is there stays, and so the directory is the same.
  stays :
      (worker : DenoWorker Js W) (id : SessionId) (limits : SessionLimits)
      (session : DenoSession Js W)
      → lookup id.id worker.sessions ≡ some session
      → Sets (directory worker) id (get_or (directory worker id.id) limits) (directory worker)
  stays worker id limits session h k = elim (Bool-cases (id.id == k)) [
    | inl e ↦ rw (e, ← (eq_iff id.id k).0 e, h) refl
    | inr e ↦ rw e refl
  ]

  create_missing-Worked :
      (worker : DenoWorker Js W) (id : SessionId) (limits : Option SessionLimits) (w : W)
      (o : Option (DenoSession Js W))
      → lookup id.id worker.sessions ≡ o
      → Worked
          (DenoCommand.create_session id limits)
          worker
          (create_missing pkg codec worker id limits w o)
  unfolding create_missing
  create_missing-Worked worker id limits w (some session) h = stays worker id _ session h
  create_missing-Worked worker id limits w none h =
      insert_created-Worked worker id limits _ (ap limits_of h)
        (new_session-HasLimits pkg id (get_or limits worker.default_limits) worker.registry w)

  -- The map without the session of a run.
  pub without : DenoWorker Js W → SessionId → DenoWorker Js W
  without worker id = record worker { sessions = remove id.id worker.sessions }

  pub without-directory :
      (worker : DenoWorker Js W) (id : SessionId) (k : String)
      → directory (without worker id) k ≡ (if id.id == k then none else directory worker k)
  unfolding without
  without-directory worker id k =
      ap limits_of (lookup-remove id.id k worker.sessions) ∙ limits_of-if (id.id == k) _ _

  put_back :
      (worker : DenoWorker Js W) (id : SessionId) (session : DenoSession Js W)
      → Sets
          (directory worker)
          id
          session.limits
          (directory (insert_session (without worker id) id session))
  put_back worker id session k = elim (Bool-cases (id.id == k)) [
    | inl e ↦ insert_session-directory (without worker id) id session k ∙ rw e refl
    | inr e ↦
        insert_session-directory (without worker id) id session k
        ∙ rw (without-directory worker id k, e) refl
  ]

  -- An id that has no session leaves the map as it was.
  absent-Same :
      (worker : DenoWorker Js W) (id : SessionId)
      → directory worker id.id ≡ none
      → Same (directory worker) (directory (without worker id))
  absent-Same worker id h k = elim (Bool-cases (id.id == k)) [
    | inl e ↦ without-directory worker id k ∙ rw (e, ← (eq_iff id.id k).0 e) (sym h)
    | inr e ↦ without-directory worker id k ∙ rw e refl
  ]

  run_in-Ran :
      (worker : DenoWorker Js W) (request : RunRequest)
      (made : Result ErrorObject (DenoSession Js W) × W)
      → HasLimits (effective_limits worker.default_limits request) made.0
      → ((e : ErrorObject) → made.0 ≡ err e → directory worker request.session_id.id ≡ none)
      → let left = run_in pkg codec (without worker request.session_id) request made in
        Ran worker.default_limits (directory worker) request left.0.0 (directory left.0.1)
  unfolding run_in Run.run without
  run_in-Ran worker request (err e, w) has absent =
      let gone = absent e refl in inr (gone, refl, absent-Same worker request.session_id gone)
  run_in-Ran worker request (ok session, w) has absent =
      let after = (Run.run pkg session request worker.registry w).0.1 in
      inl (
        subst
          (λ l. Sets (directory worker) request.session_id l (
            directory
              (insert_session (without worker request.session_id) request.session_id after)))
          has (put_back worker request.session_id after))

  session_for-HasLimits :
      (worker : DenoWorker Js W) (request : RunRequest) (w : W) (o : Option (DenoSession Js W))
      → HasLimits
          (effective_limits worker.default_limits request)
          (session_for pkg codec worker request w o).0
  unfolding session_for
  session_for-HasLimits worker request w (some session) = refl
  session_for-HasLimits worker request w none =
      new_session-HasLimits pkg request.session_id (effective_limits worker.default_limits request)
        worker.registry w

  session_for-eq-err :
      (worker : DenoWorker Js W) (request : RunRequest) (w : W) (o : Option (DenoSession Js W))
      (e : ErrorObject)
      → (session_for pkg codec worker request w o).0 ≡ err e
      → limits_of o ≡ none
  unfolding session_for
  session_for-eq-err worker request w (some session) e h = cc
  session_for-eq-err worker request w none e h = refl

  -- The answers of a run's branches, by the two tests.
  run_by_tests :
      (worker : DenoWorker Js W) (request : RunRequest) (speaks only : Bool)
      (validated ran refused : (RunResult × DenoWorker Js W) × W)
      → validated.0.1 ≡ worker
      → Ran worker.default_limits (directory worker) request ran.0.0 (directory ran.0.1)
      → refused.0.1 ≡ worker
      → let left = if speaks then if only then validated else ran else refused in
        if speaks && not only
        then Ran worker.default_limits (directory worker) request left.0.0 (directory left.0.1)
        else Same (directory worker) (directory left.0.1)
  run_by_tests worker request true true validated ran refused v r f = λ k. ap (λ x. directory x k) v
  run_by_tests worker request true false validated ran refused v r f = r
  run_by_tests worker request false true validated ran refused v r f =
      λ k. ap (λ x. directory x k) f
  run_by_tests worker request false false validated ran refused v r f =
      λ k. ap (λ x. directory x k) f

  pub run-Worked :
      (worker : DenoWorker Js W) (request : RunRequest) (w : W)
      → Worked (DenoCommand.run request) worker (Worker.run pkg codec worker request w)
  unfolding Worker.run without
  run-Worked worker request w =
      let made =
        session_for pkg codec worker request w (lookup request.session_id.id worker.sessions) in
      run_by_tests worker request (language_eq request.language Language.type_script)
        request.validate_only ((_, worker), w)
        (run_in pkg codec (without worker request.session_id) request made) ((_, worker), w) refl
        (run_in-Ran worker request made
          (session_for-HasLimits worker request w (lookup request.session_id.id worker.sessions))
          (session_for-eq-err worker request w (lookup request.session_id.id worker.sessions)))
        refl

  pub create_session-Worked :
      (worker : DenoWorker Js W) (id : SessionId) (limits : Option SessionLimits) (w : W)
      → Worked
          (DenoCommand.create_session id limits)
          worker
          (Worker.create_session pkg codec worker id limits w)
  unfolding Worker.create_session
  create_session-Worked worker id limits w =
      create_missing-Worked worker id limits w (lookup id.id worker.sessions) refl

-- ===== src/Deno/Worker/Commands/Thread.antt =====
-- The worker's loop as an implementation of the directory.
use langshell.Common.{
  ◌≡◌, refl, subst, Bool, true, false, Option, none, some, List, [], ◌∷◌, Result, ok, err, lookup,
  remove, if◌then◌else◌,
}
use langshell.Core.{ErrorObject, Value, Language, language_eq, RunRequest, SessionId, SessionLimits}
use langshell.Deno.Scripts.{Packages, Answer}
use langshell.Deno.Session.{DenoSession}
use langshell.Deno.Worker
use langshell.Deno.Worker.{
  DenoWorker, Codec, SnapshotEnvelope, insert_created, create_missing, run_in, session_for,
  snapshot_of, snapshot_found, restored, restore_new, restore_read,
}
use langshell.Deno.Worker.Commands.{
  DenoCommand, ReplyOf, Replies, dropped, handle, run_worker_thread,
}
use langshell.Deno.Worker.Commands.Directory.{Directory, Same, Allows, directory}
use langshell.Deno.Worker.Commands.Handled.{handle-Worked}

-- What a sequence of commands may do to a directory: each command before a shutdown has a reply that the
-- directory allows, in their order; the shutdown is confirmed, and every later channel is dropped.
abbrev pub Serves :
    SessionLimits
    → Directory
    → (commands : List DenoCommand) → Replies commands
    → Directory
    → Type 0
Serves default_limits before [] replies after = Same before after
Serves default_limits before (DenoCommand.shutdown ∷ commands) replies after =
    (replies.0 ≡ some tt) × (replies.1 ≡ dropped commands) × Same before after
Serves default_limits before (command ∷ commands) replies after =
    (reply : ReplyOf command) × (replies.0 ≡ some reply)
    × (between : Directory) × Allows default_limits before command reply between
    × Serves default_limits between commands replies.1 after

module _ {Js V Parsed W : Type 0} (pkg : Packages Js V Parsed W) (codec : Codec) where
  abbrev Keeps {ℓ} : {A : Type ℓ} → DenoWorker Js W → (A × DenoWorker Js W) × W → Type 0
  Keeps worker left = left.0.1.default_limits ≡ worker.default_limits

  create_missing-Keeps :
      (worker : DenoWorker Js W) (id : SessionId) (limits : Option SessionLimits) (w : W)
      (o : Option (DenoSession Js W))
      → Keeps worker (create_missing pkg codec worker id limits w o)
  unfolding create_missing
  create_missing-Keeps worker id limits w (some session) = refl
  create_missing-Keeps worker id limits w none = created _
    where
      created :
          (made : Result ErrorObject (DenoSession Js W) × W)
          → Keeps worker (insert_created pkg codec worker id made)
      created (err e, w) = refl
      created (ok session, w) = refl

  run_in-Keeps :
      (worker : DenoWorker Js W) (request : RunRequest)
      (made : Result ErrorObject (DenoSession Js W) × W)
      → Keeps worker (run_in pkg codec worker request made)
  unfolding run_in
  run_in-Keeps worker request (err e, w) = refl
  run_in-Keeps worker request (ok session, w) = refl

  snapshot_found-Keeps :
      (worker : DenoWorker Js W) (id : SessionId) (w : W) (o : Option (DenoSession Js W))
      → Keeps worker (snapshot_found pkg codec worker id w o)
  unfolding snapshot_found snapshot_of
  snapshot_found-Keeps worker id w none = refl
  snapshot_found-Keeps worker id w (some session) = refl

  restore_read-Keeps :
      (worker : DenoWorker Js W) (session_id : Option SessionId) (w : W)
      (r : Result ErrorObject SnapshotEnvelope)
      → Keeps worker (restore_read pkg codec worker session_id w r)
  unfolding restore_read restore_new restored
  restore_read-Keeps worker session_id w (err e) = refl
  restore_read-Keeps worker session_id w (ok snapshot) = made _ _ _
    where
      answered :
          (id : SessionId) (session : DenoSession Js W) (answer : Answer Js W (Unit {0}))
          → Keeps worker (restored pkg codec worker id session answer)
      answered id session (err e, live) = refl
      answered id session (ok u, live) = refl

      made :
          (id : SessionId) (globals : Value) (r : Result ErrorObject (DenoSession Js W) × W)
          → Keeps worker (restore_new pkg codec worker id globals r)
      made id globals (err e, w) = refl
      made id globals (ok session, w) = answered id session _

  by_tests-Keeps {ℓ} :
      {A : Type ℓ} (worker : DenoWorker Js W) (speaks only : Bool)
      (validated ran refused : (A × DenoWorker Js W) × W)
      → Keeps worker validated
      → Keeps worker ran
      → Keeps worker refused
      → Keeps worker (if speaks then if only then validated else ran else refused)
  by_tests-Keeps worker true true validated ran refused v r f = v
  by_tests-Keeps worker true false validated ran refused v r f = r
  by_tests-Keeps worker false only validated ran refused v r f = f

  handle-Keeps :
      (command : DenoCommand) (worker : DenoWorker Js W) (w : W)
      → Keeps worker (handle pkg codec command worker w)
  unfolding handle Worker.create_session Worker.snapshot_session Worker.restore_session Worker.run
  handle-Keeps (DenoCommand.create_session id limits) worker w =
      create_missing-Keeps worker id limits w _
  handle-Keeps (DenoCommand.run request) worker w =
      by_tests-Keeps worker (language_eq request.language Language.type_script)
        request.validate_only ((_, worker), w)
        (run_in pkg codec
          (record worker { sessions = remove request.session_id.id worker.sessions }) request
          (session_for pkg codec worker request w (lookup request.session_id.id worker.sessions)))
        ((_, worker), w) refl (run_in-Keeps _ request _) refl
  handle-Keeps (DenoCommand.destroy_session id) worker w = refl
  handle-Keeps DenoCommand.list_sessions worker w = refl
  handle-Keeps (DenoCommand.snapshot_session id) worker w = snapshot_found-Keeps worker id w _
  handle-Keeps (DenoCommand.restore_session bytes session_id) worker w =
      restore_read-Keeps worker session_id w _
  handle-Keeps DenoCommand.shutdown worker w = refl

  abbrev ServesFrom : (commands : List DenoCommand) (worker : DenoWorker Js W) → W → Type 0
  ServesFrom commands worker w =
      let left = run_worker_thread pkg codec commands worker w in
      Serves worker.default_limits (directory worker) commands left.0.0 (directory left.0.1)

  -- A command, and what the loop does after it.
  Serves-cons :
      (command : DenoCommand) (commands : List DenoCommand) (worker : DenoWorker Js W) (w : W)
      → ((worker' : DenoWorker Js W) (w' : W) → ServesFrom commands worker' w')
      → let handled = handle pkg codec command worker w in
        let left = run_worker_thread pkg codec commands handled.0.1 handled.1 in
        (reply : ReplyOf command) × (some handled.0.0 ≡ some reply)
        × (between : Directory) × Allows worker.default_limits
            (directory worker)
            command
            reply
            between
        × Serves worker.default_limits between commands left.0.0 (directory left.0.1)
  Serves-cons command commands worker w later =
      let handled = handle pkg codec command worker w in
      let left = run_worker_thread pkg codec commands handled.0.1 handled.1 in
      (
        handled.0.0,
        refl,
        directory handled.0.1,
        handle-Worked pkg codec command worker w,
        subst (λ l. Serves l (directory handled.0.1) commands left.0.0 (directory left.0.1))
            (handle-Keeps command worker w) (later handled.0.1 handled.1),
      )

  -- The worker implements a directory of sessions that knows no more than the limits of each id. For every
  -- sequence of commands, each one before a shutdown gets a reply, in order, and reply and effect are those that
  -- the directory allows: a creation keeps a session that is there; a run changes the limits of its own session
  -- alone; a destruction answers whether there was a session; a listing has exactly the ids, in order; a snapshot
  -- and a restore that fails change nothing. A shutdown is confirmed, and what follows gets no reply.
  pub run_worker_thread-Serves :
      (commands : List DenoCommand) (worker : DenoWorker Js W) (w : W)
      → ServesFrom commands worker w
  unfolding run_worker_thread
  run_worker_thread-Serves [] worker w = λ k. refl
  run_worker_thread-Serves (DenoCommand.shutdown ∷ commands) worker w = (refl, refl, λ k. refl)
  run_worker_thread-Serves (DenoCommand.create_session id limits ∷ commands) worker w =
      Serves-cons (DenoCommand.create_session id limits) commands worker w
        (run_worker_thread-Serves commands)
  run_worker_thread-Serves (DenoCommand.run request ∷ commands) worker w =
      Serves-cons (DenoCommand.run request) commands worker w (run_worker_thread-Serves commands)
  run_worker_thread-Serves (DenoCommand.destroy_session id ∷ commands) worker w =
      Serves-cons (DenoCommand.destroy_session id) commands worker w
        (run_worker_thread-Serves commands)
  run_worker_thread-Serves (DenoCommand.list_sessions ∷ commands) worker w =
      Serves-cons DenoCommand.list_sessions commands worker w (run_worker_thread-Serves commands)
  run_worker_thread-Serves (DenoCommand.snapshot_session id ∷ commands) worker w =
      Serves-cons (DenoCommand.snapshot_session id) commands worker w
        (run_worker_thread-Serves commands)
  run_worker_thread-Serves (DenoCommand.restore_session bytes session_id ∷ commands) worker w =
      Serves-cons (DenoCommand.restore_session bytes session_id) commands worker w
        (run_worker_thread-Serves commands)

-- ===== src/Deno/Worker/Commands.antt =====
-- `DenoCommand` with the type of each reply, `handle`, `run_worker_thread`, and what the methods of `DenoRuntime`
-- make of a reply, in crates/langshell-deno/src/lib.rs.
pub mod Directory
pub mod Allowed
pub mod Handled
pub mod Thread
use langshell.Common.{
  ℕ, Bool, String, Option, none, some, is_some, List, [], ◌∷◌, map, Result, ok, err, keys, lookup,
  remove, sort,
}
use langshell.Core.{ErrorObject, Language, RunRequest, RunResult, SessionId, SessionLimits}
use langshell.Deno.Errors.{runtime_error_result, worker_closed_error}
use langshell.Deno.Scripts.{Packages}
use langshell.Deno.Worker
use langshell.Deno.Worker.{DenoWorker, Codec}

pub data DenoCommand : Type 0 where
  create_session : SessionId → Option SessionLimits → DenoCommand
  run : RunRequest → DenoCommand
  destroy_session : SessionId → DenoCommand
  list_sessions : DenoCommand
  snapshot_session : SessionId → DenoCommand
  restore_session : List ℕ → Option SessionId → DenoCommand
  shutdown : DenoCommand

-- What the channel of a command carries.
abbrev pub ReplyOf : DenoCommand → Type 0
ReplyOf (DenoCommand.create_session id limits) = Result ErrorObject (Unit {0})
ReplyOf (DenoCommand.run request) = RunResult
ReplyOf (DenoCommand.destroy_session id) = Bool
ReplyOf DenoCommand.list_sessions = List SessionId
ReplyOf (DenoCommand.snapshot_session id) = Result ErrorObject (List ℕ)
ReplyOf (DenoCommand.restore_session snapshot id) = Result ErrorObject SessionId
ReplyOf DenoCommand.shutdown = Unit

-- The channels of a sequence of commands, with what was sent.
abbrev pub Replies : List DenoCommand → Type 0
Replies [] = Unit
Replies (command ∷ commands) = Option (ReplyOf command) × Replies commands

-- Channels that are dropped.
abbrev pub dropped : (commands : List DenoCommand) → Replies commands
dropped [] = tt
dropped (command ∷ commands) = (none, dropped commands)

module _ {Js V Parsed W : Type 0} (pkg : Packages Js V Parsed W) (codec : Codec) where
  unfoldable pub handle :
      (command : DenoCommand) → DenoWorker Js W → W → (ReplyOf command × DenoWorker Js W) × W
  unfolding Worker.create_session Worker.run Worker.snapshot_session Worker.restore_session remove
      lookup sort
  handle (DenoCommand.create_session id limits) worker w =
      Worker.create_session pkg codec worker id limits w
  handle (DenoCommand.run request) worker w = Worker.run pkg codec worker request w
  handle (DenoCommand.destroy_session id) worker w = (
    (
      is_some (lookup id.id worker.sessions),
      record worker { sessions = remove id.id worker.sessions },
    ),
    w,
  )
  handle DenoCommand.list_sessions worker w =
      ((map (λ id. record { id = id }) (sort (keys worker.sessions)), worker), w)
  handle (DenoCommand.snapshot_session id) worker w = Worker.snapshot_session pkg codec worker id w
  handle (DenoCommand.restore_session snapshot id) worker w =
      Worker.restore_session pkg codec worker snapshot id w
  handle DenoCommand.shutdown worker w = ((tt, worker), w)

  abbrev and_rest :
      (command : DenoCommand) (commands : List DenoCommand)
      → ReplyOf command
      → (Replies commands × DenoWorker Js W) × W
      → (Replies (command ∷ commands) × DenoWorker Js W) × W
  and_rest command commands reply ((replies, worker), w) = (((some reply, replies), worker), w)

  -- The loop of `run_worker_thread` over the commands of its channel. `Shutdown` ends it, and what waits in the
  -- channel is dropped.
  unfoldable pub run_worker_thread :
      (commands : List DenoCommand) → DenoWorker Js W → W → (Replies commands × DenoWorker Js W) × W
  unfolding handle
  run_worker_thread [] worker w = ((tt, worker), w)
  run_worker_thread (DenoCommand.shutdown ∷ commands) worker w =
      (((some tt, dropped commands), worker), w)
  run_worker_thread (command ∷ commands) worker w =
      let ((reply, worker'), w') = handle command worker w in
      and_rest command commands reply (run_worker_thread commands worker' w')

-- What a method of `DenoRuntime` answers, by what its channel gives: a method sends its command, and awaits.
abbrev pub AnswerOf : DenoCommand → Type 0
AnswerOf (DenoCommand.destroy_session id) = Result ErrorObject Bool
AnswerOf DenoCommand.list_sessions = Result ErrorObject (List SessionId)
AnswerOf command = ReplyOf command

unfoldable pub method_answer : (command : DenoCommand) → Option (ReplyOf command) → AnswerOf command
method_answer (DenoCommand.create_session id limits) none = err worker_closed_error
method_answer (DenoCommand.create_session id limits) (some r) = r
method_answer (DenoCommand.run request) none = runtime_error_result worker_closed_error
method_answer (DenoCommand.run request) (some result) = result
method_answer (DenoCommand.destroy_session id) none = err worker_closed_error
method_answer (DenoCommand.destroy_session id) (some removed) = ok removed
method_answer DenoCommand.list_sessions none = err worker_closed_error
method_answer DenoCommand.list_sessions (some ids) = ok ids
method_answer (DenoCommand.snapshot_session id) none = err worker_closed_error
method_answer (DenoCommand.snapshot_session id) (some r) = r
method_answer (DenoCommand.restore_session snapshot id) none = err worker_closed_error
method_answer (DenoCommand.restore_session snapshot id) (some r) = r
method_answer DenoCommand.shutdown none = tt
method_answer DenoCommand.shutdown (some u) = u

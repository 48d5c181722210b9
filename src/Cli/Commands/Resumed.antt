-- ===== src/Cli/Commands/Resumed.antt =====
-- A Python session of the command line goes on in the next command.
use langshell.Common.{
  ℕ, ◌≡◌, ap, ◌∙◌, true, false, String, some, is_some, lookup, put, List, ok, >>=-eq-ok,
}
use langshell.Core.{Language, RunRequest, SessionId}
use langshell.Core.Session.{new_session_id}
use langshell.Sdk.{LanguageRuntime, LangShell, runtime_for, snapshot_session_with_language}
use langshell.Sdk.Restore.{restore_session}
use langshell.Sdk.Restore.Alone.{alone, restore_session-alone}
use langshell.Monty.Session.{MontySession, Packages}
use langshell.Monty.Runtime
use langshell.Monty.Runtime.{Storage, MontyRuntime, capability_digest, with_sessions}
use langshell.Monty.Runtime.Snapshots.{RoundTrips, restored, restore_session-snapshot_session_as}
use langshell.Monty.Instance.{answer, language_runtime}
use langshell.Cli.Store.Sessions.{Disk, loaded, load_session_if_exists}
use langshell.Cli.Store.Sessions.Saved.{KeepsFiles}
use langshell.Cli.Commands.{ExitCode, RunCommand, Console, run_code}
use langshell.Cli.Commands.Stored.{PrintsOnly, run_code-stored}

module _ {Repl K W : Type 0} (pkg : Packages Repl K W) (storage : Storage Repl)
    (fuel : RunRequest → ℕ)
    (ends : (rt : MontyRuntime Repl W) (request : RunRequest) (w : W)
      → is_some (Runtime.run pkg storage (fuel request) rt request w) ≡ true) where
  abbrev monty : LanguageRuntime (MontyRuntime Repl W) W
  monty = language_runtime pkg storage fuel ends

  -- A shell of one Monty runtime takes snapshots of Python sessions only.
  snapshot-alone :
      (s : MontyRuntime Repl W) (session_id : String) (language : Language) (bytes : List ℕ)
      → snapshot_session_with_language monty (alone s) session_id language ≡ ok bytes
      → (id : SessionId) × (new_session_id session_id ≡ ok id)
        × (Runtime.snapshot_session pkg storage s id ≡ ok bytes)
  unfolding snapshot_session_with_language language_runtime runtime_for
  snapshot-alone s session_id Language.python bytes h =
      let (id, named, h1) = >>=-eq-ok (new_session_id session_id) _ h in (id, named, h1)
  snapshot-alone s session_id Language.type_script bytes h =
      let (id, named, h1) = >>=-eq-ok (new_session_id session_id) _ h in
      let (s', found, h2) =
        >>=-eq-ok (runtime_for monty (alone s) Language.type_script)
          (λ s'. Runtime.snapshot_session pkg storage s' id) h1 in
      cc

  restore-alone :
      (m m' : MontyRuntime Repl W) (bytes : List ℕ) (session_id : String) (id named : SessionId)
      → new_session_id session_id ≡ ok id
      → Runtime.restore_session pkg storage m bytes (some id) ≡ ok (m', named)
      → restore_session monty (alone m) bytes (some session_id) ≡ (ok named, alone m')
  unfolding language_runtime
  restore-alone m m' bytes session_id id named h h' =
      restore_session-alone monty m bytes session_id id h
      ∙ ap (λ r. ((answer pkg storage fuel ends m r).0, alone (answer pkg storage fuel ends m r).1))
          h'

  module _ (disk : Disk W) (session_dir : List String) (console : Console W) where
    -- In a shell whose only runtime is Monty's, over files that are kept, a console that changes none and packages
    -- that read what they wrote: when `langshell run` exits with success, the shell has a session of the id that the
    -- command names, and the next command, whose runtime has the same capability digest, loads it without an error: its
    -- runtime then has under that id the session with the limits and the state of the interpreter that the run left.
    pub run_code-resumed :
        KeepsFiles disk
        → PrintsOnly disk console
        → RoundTrips storage
        → (command : RunCommand) (before : LangShell (MontyRuntime Repl W))
          (left next : MontyRuntime Repl W) (w w' : W)
        → run_code disk session_dir monty console command false (before, w)
          ≡ (ok ExitCode.success, (alone left, w'))
        → capability_digest pkg storage left.registry ≡ capability_digest pkg storage next.registry
        → (id : SessionId) × (session : MontySession Repl) × (new_session_id command.session_id
            ≡ ok id)
          × (lookup id.id left.sessions ≡ some session)
          × (load_session_if_exists disk session_dir monty (alone next) command.session_id w' ≡ (
            ok tt,
            alone (
                with_sessions pkg storage next
                  (put id.id (restored pkg storage id session.limits session.repl) next.sessions)),
          ))
    run_code-resumed keeps prints trips command before left next w w' h same =
        let (language, bytes, parsed, taken, loads) =
          run_code-stored disk session_dir monty console keeps prints command before (alone left)
            (alone next) w w' h in
        let (id, named, snapshot) = snapshot-alone left command.session_id language bytes taken in
        let (session, found, restores) =
          restore_session-snapshot_session_as pkg storage trips left next id bytes (some id) same
            snapshot in
        (
          id,
          session,
          named,
          found,
          loads
              ∙ ap (loaded disk session_dir monty)
                  (restore-alone next _ bytes command.session_id id id named restores),
        )

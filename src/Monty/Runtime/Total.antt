-- ===== src/Monty/Runtime/Total.antt =====
-- Runs of the runtime end when the interpreter does.
use langshell.Common.{ℕ, ◌≡◌, refl, true, String, Option, none, some, is_some}
use langshell.Core.{RunRequest, SessionId}
use langshell.Monty.Snippet.Termination.{IsBounded}
use langshell.Monty.Session.{Packages, Done}
use langshell.Monty.Session.Run.{run_session}
use langshell.Monty.Session.Total.{StartsWithin, turns_of, run_session-is_some}
use langshell.Monty.Runtime.{
  Storage, MontyRuntime, Taken, answered, taken, run_done, run_taken, take, run,
}

module _ {Repl K W : Type 0} (pkg : Packages Repl K W) (storage : Storage Repl) where
  run_done-is_some :
      (rt : MontyRuntime Repl W) (id : SessionId) (o : Option (Done pkg))
      → is_some o ≡ true
      → is_some (run_done pkg storage rt id o) ≡ true
  unfolding run_done
  run_done-is_some rt id none h = cc
  run_done-is_some rt id (some ((session, result), w)) h = refl

  module _ (rank : K → ℕ) (budget : String → ℕ) (bounded : IsBounded rank pkg.interpreter)
      (starts : StartsWithin rank pkg.interpreter budget) where
    run_taken-is_some :
        (rt : MontyRuntime Repl W) (request : RunRequest) (w : W) (t : Taken pkg storage)
        → is_some (run_taken pkg storage (turns_of budget request) rt request w t) ≡ true
    unfolding run_taken
    run_taken-is_some rt request w (answered result) = refl
    run_taken-is_some rt request w (taken session sessions) =
        run_done-is_some _ request.session_id
          (run_session pkg (turns_of budget request) session request rt.registry w)
          (run_session-is_some pkg rank budget bounded starts session request rt.registry w)

    -- Where every resumption of the interpreter leaves fewer stops than the one before it, and a code starts with
    -- at most `budget code` of them, every run of the runtime ends with a result, on fuel for the stops of its code
    -- and of the probe.
    pub run-total :
        (rt : MontyRuntime Repl W) (request : RunRequest) (w : W)
        → is_some (run pkg storage (turns_of budget request) rt request w) ≡ true
    unfolding run
    run-total rt request w = run_taken-is_some rt request w (take pkg storage rt request w)

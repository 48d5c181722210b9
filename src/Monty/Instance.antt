-- ===== src/Monty/Instance.antt =====
-- The instance `LanguageRuntime` of `MontyRuntime` in crates/langshell-monty/src/lib.rs, over runs that have enough
-- fuel.
pub mod Validation
use langshell.Common.{
  ℕ, true≢false, sym, ◌≡◌, true, Option, none, some, is_some, List, Result, ok, err,
}
use langshell.Core.{ErrorObject, Language, RunRequest, RunResult, SessionId}
use langshell.Sdk.{LanguageRuntime}
use langshell.Monty.Session.{Packages}
use langshell.Monty.Runtime
use langshell.Monty.Runtime.{Storage, MontyRuntime, is_monty_snapshot}

unwrap : {A : Type 0} (o : Option A) → is_some o ≡ true → A
unwrap none h = absurd (true≢false (sym h))
unwrap (some a) h = a

module _ {Repl K W : Type 0} (pkg : Packages Repl K W) (storage : Storage Repl)
    (fuel : RunRequest → ℕ)
    (ends : (rt : MontyRuntime Repl W) (request : RunRequest) (w : W)
      → is_some (Runtime.run pkg storage (fuel request) rt request w) ≡ true) where
  unfoldable pub answer :
      MontyRuntime Repl W
      → Result ErrorObject (MontyRuntime Repl W × SessionId)
      → Result ErrorObject SessionId × MontyRuntime Repl W
  answer rt (err e) = (err e, rt)
  answer rt (ok (rt', id)) = (ok id, rt')

  unfoldable pub language_runtime : LanguageRuntime (MontyRuntime Repl W) W
  unfolding unwrap answer Runtime.create_session Runtime.run Runtime.destroy_session
      Runtime.list_sessions Runtime.snapshot_session Runtime.restore_session is_monty_snapshot
  language_runtime = record {
    language = λ rt. Language.python;
    create_session = λ rt id limits. (ok tt, Runtime.create_session pkg storage rt id limits);
    run = λ rt request w.
        let ((rt', result), w') =
          unwrap (Runtime.run pkg storage (fuel request) rt request w) (ends rt request w) in
        ((result, rt'), w');
    destroy_session = λ rt id.
        let (rt', removed) = Runtime.destroy_session pkg storage rt id in (ok removed, rt');
    list_sessions = λ rt. ok (Runtime.list_sessions pkg storage rt);
    snapshot_session = λ rt id. Runtime.snapshot_session pkg storage rt id;
    restore_session = λ rt bytes id. answer rt (Runtime.restore_session pkg storage rt bytes id);
    can_restore_snapshot = λ rt bytes. is_monty_snapshot pkg storage bytes;
  }

-- ===== src/Sdk/Restore.antt =====
-- `LangShell::restore_session` of crates/langshell/src/lib.rs.
pub mod Alone
use langshell.Common.{ℕ, String, Option, none, some, List, [], ◌∷◌, Result, ok, err, map_ok}
use langshell.Core.{ErrorObject, SessionId, new_error, with_hint}
use langshell.Core.Session.{new_session_id}
use langshell.Sdk.{LanguageRuntime, LangShell, on_first}

abbrev pub optional_id : Option String → Result ErrorObject (Option SessionId)
unfolding new_session_id
optional_id none = ok none
optional_id (some id) = map_ok some (new_session_id id)

abbrev pub no_restorer : ErrorObject
no_restorer =
    with_hint
      (new_error "SNAPSHOT_CORRUPT" "No registered language runtime can restore this snapshot.")
      "Register the backend that created the snapshot before calling restore_session."

module _ {S W : Type 0} (rt : LanguageRuntime S W) where
  abbrev pub Restored : Type 0
  Restored = Result ErrorObject SessionId × LangShell S

  -- The only runtime, if there is one only.
  only_runtime : LangShell S → List ℕ → Option SessionId → List S → Restored
  only_runtime shell snapshot id (s ∷ []) =
      let (r, s') = rt.restore_session s snapshot id in (r, record { runtimes = s' ∷ [] })
  only_runtime shell snapshot id _ = (err no_restorer, shell)

  first_restorer :
      LangShell S
      → List ℕ
      → Option SessionId
      → Option (Result ErrorObject SessionId × List S)
      → Restored
  unfolding only_runtime
  first_restorer shell snapshot id (some (r, runtimes)) = (r, record { runtimes = runtimes })
  first_restorer shell snapshot id none = only_runtime shell snapshot id shell.runtimes

  restore_checked : LangShell S → List ℕ → Result ErrorObject (Option SessionId) → Restored
  unfolding first_restorer on_first
  restore_checked shell snapshot (err e) = (err e, shell)
  restore_checked shell snapshot (ok id) = first_restorer shell snapshot id (
      on_first (λ s. rt.can_restore_snapshot s snapshot) (λ s. rt.restore_session s snapshot id)
        shell.runtimes)

  unfoldable pub restore_session : LangShell S → List ℕ → Option String → Restored
  unfolding restore_checked
  restore_session shell snapshot session_id =
      restore_checked shell snapshot (optional_id session_id)

-- ===== src/Sdk/Restore/Alone.antt =====
-- A restore by a shell of one runtime.
use langshell.Common.{
  ℕ, ◌≡◌, refl, ap, ◌∙◌, Bool-cases, inl, inr, String, Option, some, List, [], ◌∷◌, ok, map_ok,
}
use langshell.Core.{SessionId}
use langshell.Core.Session.{new_session_id}
use langshell.Sdk.{LanguageRuntime, LangShell, on_first}
use langshell.Sdk.Restore.{
  restore_checked, first_restorer, only_runtime, optional_id, restore_session,
}

abbrev pub alone : {S : Type 0} → S → LangShell S
alone s = record { runtimes = s ∷ [] }

module _ {S W : Type 0} (rt : LanguageRuntime S W) where
  restore_checked-alone :
      (s : S) (bytes : List ℕ) (id : Option SessionId)
      → restore_checked rt (alone s) bytes (ok id)
        ≡ ((rt.restore_session s bytes id).0, alone (rt.restore_session s bytes id).1)
  unfolding restore_checked first_restorer only_runtime on_first
  restore_checked-alone s bytes id = elim (Bool-cases (rt.can_restore_snapshot s bytes)) [
    | inl known ↦ rw known refl
    | inr unknown ↦ rw unknown refl
  ]

  -- It is the restore of that runtime, whether or not it knows the snapshot.
  pub restore_session-alone :
      (s : S) (bytes : List ℕ) (session_id : String) (id : SessionId)
      → new_session_id session_id ≡ ok id
      → restore_session rt (alone s) bytes (some session_id)
        ≡ ((rt.restore_session s bytes (some id)).0, alone (rt.restore_session s bytes (some id)).1)
  unfolding restore_session optional_id new_session_id
  restore_session-alone s bytes session_id id h =
      ap (λ r. restore_checked rt (alone s) bytes (map_ok some r)) h
      ∙ restore_checked-alone s bytes (some id)

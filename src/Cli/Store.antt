-- ===== src/Cli/Store.antt =====
-- `session_file` of crates/langshell-cli/src/lib.rs. The directory of sessions is a parameter: it comes from the
-- environment.
pub mod Sessions
use langshell.Common.{
  ℕ, ◌≡◌, refl, ap, ◌∙◌, sym, Bool, true, false, String, Option, none, some, List, [], ◌∷◌, ◌++◌,
  Result, ok, err, map_ok, map_err, ◌>>=◌, >>=-eq-ok, ◌<>◌, inl, inr, ◌⊎◌, if◌then◌else◌,
}
use langshell.Core.{SessionId, ErrorObject, new_error}
use langshell.Core.Session.{new_session_id, new_session_id_lem, MatchesPattern, invalid_session_id}

-- A path is the list of its names: `session_dir().join(name)` puts one at the end.
unfoldable pub session_file : List String → String → Result ErrorObject (List String)
unfolding new_session_id
session_file session_dir session_id =
    map_ok (λ (id : SessionId). session_dir ++ (id.id <> ".cbor") ∷ []) (new_session_id session_id)

-- `session_file` gives a path only for an id that matches the pattern of session ids, and it is the file
-- `<id>.cbor` of the directory of sessions itself; any other id gives INVALID_SESSION_ID.
pub session_file_lem :
    (session_dir : List String) (session_id : String)
    → (MatchesPattern session_id
        × (session_file session_dir session_id ≡ ok (session_dir ++ (session_id <> ".cbor") ∷ [])))
      ⊎ ((¬ MatchesPattern session_id)
          × (session_file session_dir session_id ≡ err invalid_session_id))
unfolding session_file
session_file_lem session_dir session_id = elim (new_session_id_lem session_id) [
  | inl h ↦ inl (h.0, rw h.1 refl)
  | inr h ↦ inr (h.0, rw h.1 refl)
]

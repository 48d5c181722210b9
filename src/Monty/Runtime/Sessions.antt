-- ===== src/Monty/Runtime/Sessions.antt =====
-- The map of sessions under the operations of the runtime.
use langshell.Common.{
  subst, err, ◌<>◌, remove-remove, ℕ, ◌≡◌, refl, sym, ◌∙◌, ap, false, ◌==◌, ◌||◌, ◌&&◌, not, eq_iff,
  eq_refl, String, Option, none, some, get_or, List, [], ◌∷◌, map, is_some, lookup, remove, put,
  keys, sort, lookup-put, lookup-remove, contains, contains-keys, contains-sort, if◌then◌else◌,
  Bool-cases, inl, inr, by_test,
}
use langshell.Core.{
  ErrorObject, new_error, RunRequest, RunResult, SessionId, SessionLimits, language_eq, Language,
}
use langshell.Monty.Session.{MontySession, Packages}
use langshell.Monty.Runtime.{
  Storage, MontyRuntime, new_session, or_insert, create_session, take, Taken, taken, answered,
  finish, run_done, run_taken, run, destroy_session, list_sessions, snapshot_session, with_sessions,
}

module _ {Repl K W : Type 0} (pkg : Packages Repl K W) (storage : Storage Repl) where
  abbrev pub session_ids : MontyRuntime Repl W → List String
  session_ids rt = map (λ id. id.id) (list_sessions pkg storage rt)

  map-ids :
      (ids : List String)
      → map (λ (id : SessionId). id.id) (map (λ id. record { id = id }) ids) ≡ ids
  map-ids [] = refl
  map-ids (id ∷ ids) = ap (λ rest. id ∷ rest) (map-ids ids)

  contains-session_ids :
      (rt : MontyRuntime Repl W) (k : String)
      → contains (session_ids rt) k ≡ is_some (lookup k rt.sessions)
  unfolding list_sessions
  contains-session_ids rt k =
      rw (map-ids (sort (keys rt.sessions)), contains-sort k (keys rt.sessions))
        (contains-keys k rt.sessions)

  or_insert-lookup :
      (rt : MontyRuntime Repl W) (key : String) (created : MontySession Repl)
      → (o : Option (MontySession Repl)) (k : String) → lookup key rt.sessions ≡ o
      → lookup k (or_insert pkg storage rt key created o).sessions
        ≡ (if key == k then some (get_or (lookup k rt.sessions) created) else lookup k rt.sessions)
  unfolding or_insert
  or_insert-lookup rt key created none k h = elim (Bool-cases (key == k)) [
    | inl e ↦ rw (lookup-put key k created rt.sessions, e, ← (eq_iff key k).0 e, h) refl
    | inr e ↦ rw (lookup-put key k created rt.sessions, e) refl
  ]
  or_insert-lookup rt key created (some session) k h = elim (Bool-cases (key == k)) [
    | inl e ↦ rw (e, ← (eq_iff key k).0 e, h) refl
    | inr e ↦ rw e refl
  ]

  -- `create_session` keeps a session that is there as it is, and otherwise makes a new one with the given
  -- limits or the default ones; the sessions of other ids stay.
  pub create_session-lookup :
      (rt : MontyRuntime Repl W) (id : SessionId) (limits : Option SessionLimits) (k : String)
      → lookup k (create_session pkg storage rt id limits).sessions ≡ (
          if id.id == k
          then some (
              get_or
                (lookup k rt.sessions)
                (new_session pkg storage id (get_or limits rt.default_limits)))
          else lookup k rt.sessions)
  unfolding create_session
  create_session-lookup rt id limits k = or_insert-lookup rt id.id _ _ k refl

  -- `list_sessions` after `create_session` has its id and those that were listed before; after
  -- `destroy_session` it has those listed before without its id, and the answer is whether that was listed.
  pub list_sessions-create-destroy :
      (rt : MontyRuntime Repl W) (id : SessionId) (limits : Option SessionLimits) (k : String)
      → (contains (session_ids (create_session pkg storage rt id limits)) k
          ≡ ((id.id == k) || contains (session_ids rt) k))
        × (contains (session_ids (destroy_session pkg storage rt id).0) k
            ≡ (not (id.id == k) && contains (session_ids rt) k))
        × ((destroy_session pkg storage rt id).1 ≡ contains (session_ids rt) id.id)
  unfolding destroy_session
  list_sessions-create-destroy rt id limits k = (
    contains-session_ids _ k
        ∙ ap is_some (create_session-lookup rt id limits k)
        ∙ created
        ∙ ap (λ b. (id.id == k) || b) (sym (contains-session_ids rt k)),
    contains-session_ids _ k
        ∙ removed
        ∙ ap (λ b. not (id.id == k) && b) (sym (contains-session_ids rt k)),
    sym (contains-session_ids rt id.id),
  )
    where
      created :
          is_some (
            if id.id == k
            then some (
                get_or
                  (lookup k rt.sessions)
                  (new_session pkg storage id (get_or limits rt.default_limits)))
            else lookup k rt.sessions)
          ≡ ((id.id == k) || is_some (lookup k rt.sessions))
      created = elim (Bool-cases (id.id == k)) [ inl e ↦ rw e refl | inr e ↦ rw e refl ]

      removed :
          is_some (lookup k (destroy_session pkg storage rt id).0.sessions)
          ≡ (not (id.id == k) && is_some (lookup k rt.sessions))
      removed = elim (Bool-cases (id.id == k)) [
        | inl e ↦ rw (lookup-remove id.id k rt.sessions, e) refl
        | inr e ↦ rw (lookup-remove id.id k rt.sessions, e) refl
      ]

  -- What `take` leaves in the map.
  abbrev LeavesOut : MontyRuntime Repl W → SessionId → Taken pkg storage → Type 0
  LeavesOut rt id (answered result) = Unit
  LeavesOut rt id (taken session sessions) = sessions ≡ remove id.id rt.sessions

  take-LeavesOut :
      (rt : MontyRuntime Repl W) (request : RunRequest) (w : W)
      → LeavesOut rt request.session_id (take pkg storage rt request w)
  unfolding take
  take-LeavesOut rt request w =
      by_test (LeavesOut rt request.session_id) (language_eq request.language Language.python) _ _
        (λ python.
          by_test (LeavesOut rt request.session_id) request.validate_only (answered _) (taken _ _)
            (λ only. tt) (λ runs. refl))
        (λ other. tt)

  absent :
      (rt : MontyRuntime Repl W) (id : SessionId) (sessions : List (String × MontySession Repl))
      → sessions ≡ remove id.id rt.sessions
      → lookup id.id sessions ≡ none
  absent rt id sessions h = rw (h, lookup-remove id.id id.id rt.sessions, eq_refl id.id) refl

  -- While a run is between its two steps, its session has no place in the map: a snapshot gives
  -- SESSION_NOT_FOUND, no listing has its id, and `destroy_session` answers `false` and leaves the runtime as it was;
  -- when the run ends after that, the session is in the map.
  pub take-destroy-finish :
      (rt : MontyRuntime Repl W) (request : RunRequest) (w : W)
      → (session session' : MontySession Repl) (sessions : List (String × MontySession Repl))
      → take pkg storage rt request w ≡ taken session sessions
      → let running = with_sessions pkg storage rt sessions in
        let id = request.session_id in
        ((e : ErrorObject) × (snapshot_session pkg storage running id ≡ err e)
          × (e.code ≡ "SESSION_NOT_FOUND"))
        × (contains (session_ids running) id.id ≡ false)
        × (destroy_session pkg storage running id ≡ (running, false))
        × (lookup id.id
              (finish pkg storage (destroy_session pkg storage running id).0 id session').sessions
            ≡ some session')
  unfolding destroy_session finish snapshot_session
  take-destroy-finish rt request w session session' sessions h =
      let id = request.session_id in
      let left : sessions ≡ remove id.id rt.sessions =
        subst (LeavesOut rt id) h (take-LeavesOut rt request w) in
      let gone = absent rt id sessions left in
      (
        (
          new_error "SESSION_NOT_FOUND" ("Session " <> id.id <> " does not exist."),
          rw gone refl,
          refl,
        ),
        contains-session_ids (with_sessions pkg storage rt sessions) id.id ∙ ap is_some gone,
        rw (gone, left, remove-remove id.id rt.sessions) refl,
        rw (lookup-put id.id id.id session' (remove id.id sessions), eq_refl id.id) refl,
      )

  run_done-isolation :
      (rt rt' : MontyRuntime Repl W) (id : SessionId)
      (done : Option ((MontySession Repl × RunResult) × W))
      → (result : RunResult) (w' : W) → run_done pkg storage rt id done ≡ some ((rt', result), w')
      → (k : String) → (id.id == k) ≡ false
      → lookup k rt'.sessions ≡ lookup k rt.sessions
  unfolding run_done finish
  run_done-isolation rt rt' id none result w' h k other = cc
  run_done-isolation rt rt' id (some ((session, r), w)) result w' h k other =
      let same : with_sessions pkg storage rt (put id.id session rt.sessions) ≡ rt' = cc h in
      ap (λ x. lookup k x.sessions) (sym same)
      ∙ lookup-put id.id k session rt.sessions
      ∙ rw other refl

  run_taken-isolation :
      (fuel : ℕ) (rt rt' : MontyRuntime Repl W) (request : RunRequest) (w w' : W)
      (result : RunResult)
      → (t : Taken pkg storage) → LeavesOut rt request.session_id t
      → run_taken pkg storage fuel rt request w t ≡ some ((rt', result), w')
      → (k : String) → (request.session_id.id == k) ≡ false
      → lookup k rt'.sessions ≡ lookup k rt.sessions
  unfolding run_taken finish
  run_taken-isolation fuel rt rt' request w w' result (answered r) leaves h k other =
      let same : rt ≡ rt' = cc h in ap (λ x. lookup k x.sessions) (sym same)
  run_taken-isolation fuel rt rt' request w w' result (taken session sessions) leaves h k other =
      run_done-isolation _ rt' request.session_id _ result w' h k other
      ∙ ap (lookup k) leaves
      ∙ lookup-remove request.session_id.id k rt.sessions
      ∙ rw other refl

  -- A run changes no session but its own: every other id has the session that it had.
  pub run-isolation :
      (fuel : ℕ) (rt rt' : MontyRuntime Repl W) (request : RunRequest) (w w' : W)
      (result : RunResult)
      → run pkg storage fuel rt request w ≡ some ((rt', result), w')
      → (k : String) → (request.session_id.id == k) ≡ false
      → lookup k rt'.sessions ≡ lookup k rt.sessions
  unfolding run
  run-isolation fuel rt rt' request w w' result h k other =
      run_taken-isolation fuel rt rt' request w w' result _ (take-LeavesOut rt request w) h k other

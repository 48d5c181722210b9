-- ===== src/Deno/Worker/Commands/Directory.antt =====
-- A directory of sessions, which knows the limits of each id and nothing of the engine, and the worker as its
-- implementation: a command changes the directory, and is answered, as the directory says.
use langshell.Common.{
  ◌≡◌, ◌⊎◌, inl, inr, refl, sym, ap, ◌∙◌, Bool, true, false, not, ◌&&◌, ◌==◌, eq_iff, String,
  Option, none, some, is_some, get_or, map, ok, err, lookup, contains, lookup-put, IsOrdered,
  if◌then◌else◌, Bool-cases,
}
use langshell.Core.{
  Language, language_eq, RunRequest, RunResult, RunStatus, SessionId, SessionLimits,
}
use langshell.Deno.Errors.{effective_limits}
use langshell.Deno.Session.{DenoSession}
use langshell.Deno.Worker.{DenoWorker, insert_session, session_not_found}
use langshell.Deno.Worker.Commands.{DenoCommand, ReplyOf}

abbrev pub Directory : Type 0
Directory = String → Option SessionLimits

abbrev pub Same : Directory → Directory → Type 0
Same before after = (k : String) → after k ≡ before k

abbrev pub Sets : Directory → SessionId → SessionLimits → Directory → Type 0
Sets before id limits after =
    (k : String) → after k ≡ (if id.id == k then some limits else before k)

-- A run that is not refused at once: its session has the limits of the run afterwards, or could not be made.
abbrev pub Ran : SessionLimits → Directory → RunRequest → RunResult → Directory → Type 0
Ran default_limits before request result after =
    Sets before request.session_id (effective_limits default_limits request) after
    ⊎ ((before request.session_id.id ≡ none)
        × (result.status ≡ RunStatus.runtime_error)
        × Same before after)

-- What a command may do to the directory, with its reply.
abbrev pub Allows :
    SessionLimits → Directory → (command : DenoCommand) → ReplyOf command → Directory → Type 0
Allows default_limits before (DenoCommand.create_session id limits) (ok u) after =
    Sets before id (get_or (before id.id) (get_or limits default_limits)) after
Allows default_limits before (DenoCommand.create_session id limits) (err e) after =
    (before id.id ≡ none) × Same before after
Allows default_limits before (DenoCommand.run request) result after =
    if language_eq request.language Language.type_script && not request.validate_only
    then Ran default_limits before request result after
    else Same before after
Allows default_limits before (DenoCommand.destroy_session id) removed after =
    (removed ≡ is_some (before id.id))
    × ((k : String) → after k ≡ (if id.id == k then none else before k))
Allows default_limits before DenoCommand.list_sessions ids after =
    ((k : String) → contains (map (λ id. id.id) ids) k ≡ is_some (before k))
    × IsOrdered (map (λ id. id.id) ids)
    × Same before after
Allows default_limits before (DenoCommand.snapshot_session id) r after =
    (before id.id ≡ none → r ≡ err (session_not_found id)) × Same before after
Allows default_limits before (DenoCommand.restore_session snapshot session_id) (ok id) after =
    (id ≡ get_or session_id id) × (limits : SessionLimits) × Sets before id limits after
Allows default_limits before (DenoCommand.restore_session snapshot session_id) (err e) after =
    Same before after
Allows default_limits before DenoCommand.shutdown u after = Same before after

module _ {Js W : Type 0} where
  abbrev pub limits_of : Option (DenoSession Js W) → Option SessionLimits
  limits_of none = none
  limits_of (some session) = some session.limits

  abbrev pub directory : DenoWorker Js W → Directory
  directory worker k = limits_of (lookup k worker.sessions)

  pub limits_of-if :
      (b : Bool) (x y : Option (DenoSession Js W))
      → limits_of (if b then x else y) ≡ (if b then limits_of x else limits_of y)
  limits_of-if true x y = refl
  limits_of-if false x y = refl

  pub is_some-limits_of : (o : Option (DenoSession Js W)) → is_some (limits_of o) ≡ is_some o
  is_some-limits_of none = refl
  is_some-limits_of (some session) = refl

  pub insert_session-directory :
      (worker : DenoWorker Js W) (id : SessionId) (session : DenoSession Js W)
      → Sets (directory worker) id session.limits (directory (insert_session worker id session))
  insert_session-directory worker id session k =
      ap limits_of (lookup-put id.id k session worker.sessions) ∙ limits_of-if (id.id == k) _ _

  -- A session that is put in place of one with the same limits.
  pub Same-insert_session :
      (worker : DenoWorker Js W) (id : SessionId) (session : DenoSession Js W)
      → directory worker id.id ≡ some session.limits
      → Same (directory worker) (directory (insert_session worker id session))
  Same-insert_session worker id session h k = elim (Bool-cases (id.id == k)) [
    | inl e ↦ insert_session-directory worker id session k ∙ rw (e, ← (eq_iff id.id k).0 e) (sym h)
    | inr e ↦ insert_session-directory worker id session k ∙ rw e refl
  ]

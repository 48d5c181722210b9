-- ===== src/Sdk.antt =====
-- `LangShell`, `SessionHandle` and `RunBuilder` of crates/langshell/src/lib.rs, over the trait
-- `LanguageRuntime` of crates/langshell-core/src/lib.rs. The state of a runtime behind the trait is a value
-- of `S`, and an operation gives the state that it leaves.
pub mod Restore
pub mod Handle
pub mod Builder
pub mod Sessions
pub mod Snapshots
pub mod Validation
mod Tests
use langshell.Common.{
  ℕ, ◌≡◌, refl, Bool, true, false, ◌||◌, ◌==◌, eqb, String, Option, none, some, get_or, find,
  length, List, [], ◌∷◌, ◌++◌, map, Result, ok, err, map_ok, ◌>>=◌, sort, dedup, if◌then◌else◌,
  ◌<>◌,
}
use langshell.Core.{
  Value, Fields, insert_field, Language, language_eq, ErrorObject, RunRequest, RunResult, RunStatus,
  SessionId, SessionLimits, new_error, with_hint, error_result, default_metrics,
}
use langshell.Core.Session.{new_session_id}

-- The trait, with `W` for the world of the tools.
pub record LanguageRuntime (S W : Type 0) : Type 0 where
  pub language : S → Language
  pub create_session : S → SessionId → Option SessionLimits → Result ErrorObject (Unit {0}) × S
  pub run : S → RunRequest → W → (RunResult × S) × W
  pub destroy_session : S → SessionId → Result ErrorObject Bool × S
  pub list_sessions : S → Result ErrorObject (List SessionId)
  pub snapshot_session : S → SessionId → Result ErrorObject (List ℕ)
  pub restore_session : S → List ℕ → Option SessionId → Result ErrorObject SessionId × S
  pub can_restore_snapshot : S → List ℕ → Bool

pub record LangShell (S : Type 0) : Type 0 where
  pub runtimes : List S

unfoldable pub language_name : Language → String
language_name Language.python = "python"
language_name Language.type_script = "typescript"

unfoldable pub no_runtime_registered_error : Option Language → ErrorObject
unfolding language_name
no_runtime_registered_error (some language) =
    with_hint
      (new_error "UNSUPPORTED_FEATURE"
        ("No language runtime is registered for " <> language_name language <> "."))
      "Register a backend with LangShell::builder().runtime(...) before build()."
no_runtime_registered_error none =
    with_hint (new_error "INVALID_ARGUMENT" "At least one language runtime must be registered.")
      "Call .runtime(langshell_monty::MontyRuntime::new) or .runtime(langshell_deno::DenoRuntime::new) before build()."

-- The first state that passes a test, changed, with what the change answers; `none` if no state passes.
unfoldable pub on_first {ℓ} :
    {S : Type 0} {A : Type ℓ} → (S → Bool) → (S → A × S) → List S → Option (A × List S)
on_first p f [] = none
on_first p f (s ∷ ss) =
    let rest = on_first p f ss in
    if p s
    then some ((f s).0, (f s).1 ∷ ss)
    else elim rest [ none ↦ none | some r ↦ some (r.0, s ∷ r.1) ]

abbrev string_ids : List SessionId → List String
string_ids ids = map (λ id. id.id) ids

module _ {S W : Type 0} (rt : LanguageRuntime S W) where
  abbrev pub speaks : Language → S → Bool
  speaks language s = language_eq (rt.language s) language

  -- `runtime_for`: the state of the first runtime of the language.
  unfoldable pub runtime_for : LangShell S → Language → Result ErrorObject S
  unfolding no_runtime_registered_error
  runtime_for shell language = elim (find (speaks language) shell.runtimes) [
    | none ↦ err (no_runtime_registered_error (some language))
    | some s ↦ ok s
  ]

  run_answer :
      LangShell S → Language → W → Option ((RunResult × W) × List S) → (RunResult × LangShell S) × W
  unfolding no_runtime_registered_error
  run_answer shell language w none = (
    (
      error_result RunStatus.validation_error (no_runtime_registered_error (some language)) ""
          default_metrics,
      shell,
    ),
    w,
  )
  run_answer shell language w (some ((result, w'), runtimes)) =
      ((result, record { runtimes = runtimes }), w')

  unfoldable pub run : LangShell S → RunRequest → W → (RunResult × LangShell S) × W
  unfolding on_first run_answer
  run shell request w = run_answer shell request.language w (
      on_first (speaks request.language)
        (λ s. let ((result, s'), w') = rt.run s request w in ((result, w'), s')) shell.runtimes)

  unfoldable pub validate : LangShell S → RunRequest → W → (RunResult × LangShell S) × W
  unfolding run
  validate shell request w = run shell (record request { validate_only = true }) w

  create_answer :
      LangShell S
      → Language
      → Option (Result ErrorObject (Unit {0}) × List S)
      → Result ErrorObject (Unit {0}) × LangShell S
  unfolding no_runtime_registered_error
  create_answer shell language none = (err (no_runtime_registered_error (some language)), shell)
  create_answer shell language (some (r, runtimes)) = (r, record { runtimes = runtimes })

  create_checked :
      LangShell S
      → Result ErrorObject SessionId
      → Language
      → Result ErrorObject (Unit {0}) × LangShell S
  unfolding on_first create_answer
  create_checked shell (err e) language = (err e, shell)
  create_checked shell (ok id) language =
      create_answer shell language
        (on_first (speaks language) (λ s. rt.create_session s id none) shell.runtimes)

  unfoldable pub create_session_with_language :
      LangShell S → String → Language → Result ErrorObject (Unit {0}) × LangShell S
  unfolding create_checked new_session_id
  create_session_with_language shell session_id language =
      create_checked shell (new_session_id session_id) language

  unfoldable pub create_session : LangShell S → String → Result ErrorObject (Unit {0}) × LangShell S
  unfolding create_session_with_language
  create_session shell session_id = create_session_with_language shell session_id Language.python

  abbrev ids_or_none : Result ErrorObject (List SessionId) → List String
  ids_or_none (ok ids) = string_ids ids
  ids_or_none (err e) = []

  -- A runtime that fails to list adds nothing.
  collect_ids : List S → List String
  collect_ids [] = []
  collect_ids (s ∷ ss) = ids_or_none (rt.list_sessions s) ++ collect_ids ss

  unfoldable pub list_sessions : LangShell S → List SessionId
  unfolding collect_ids sort dedup
  list_sessions shell = map (λ id. record { id = id }) (dedup (sort (collect_ids shell.runtimes)))

  -- The loop of `destroy_session` with its `?`.
  unfoldable pub destroy_all : Bool → List S → SessionId → Result ErrorObject Bool × List S
  destroy_all removed [] id = (ok removed, [])
  destroy_all removed (s ∷ ss) id =
      let (r, s') = rt.destroy_session s id in
      elim r [
        | ok b ↦ let (r', ss') = destroy_all (removed || b) ss id in (r', s' ∷ ss')
        | err e ↦ (err e, s' ∷ ss)
      ]

  destroy_checked :
      LangShell S → Result ErrorObject SessionId → Result ErrorObject Bool × LangShell S
  unfolding destroy_all
  destroy_checked shell (err e) = (err e, shell)
  destroy_checked shell (ok id) =
      let (r, runtimes) = destroy_all false shell.runtimes id in (r, record { runtimes = runtimes })

  unfoldable pub destroy_session : LangShell S → String → Result ErrorObject Bool × LangShell S
  unfolding destroy_checked new_session_id
  destroy_session shell session_id = destroy_checked shell (new_session_id session_id)

  -- The loop of `snapshot_session`, with `not_found`.
  snapshot_answer :
      Result ErrorObject (List ℕ)
      → (Option ErrorObject → Result ErrorObject (List ℕ))
      → Result ErrorObject (List ℕ)
  snapshot_answer (ok snapshot) rest = ok snapshot
  snapshot_answer (err e) rest = if e.code == "SESSION_NOT_FOUND" then rest (some e) else err e

  unfoldable pub snapshot_first :
      List S → SessionId → Option ErrorObject → Result ErrorObject (List ℕ)
  unfolding snapshot_answer no_runtime_registered_error
  snapshot_first [] id not_found = err (get_or not_found (no_runtime_registered_error none))
  snapshot_first (s ∷ ss) id not_found =
      snapshot_answer (rt.snapshot_session s id) (snapshot_first ss id)

  unfoldable pub snapshot_session : LangShell S → String → Result ErrorObject (List ℕ)
  unfolding new_session_id snapshot_first
  snapshot_session shell session_id =
      new_session_id session_id >>= λ id. snapshot_first shell.runtimes id none

  unfoldable pub snapshot_session_with_language :
      LangShell S → String → Language → Result ErrorObject (List ℕ)
  unfolding new_session_id runtime_for
  snapshot_session_with_language shell session_id language = do
    id ← new_session_id session_id
    s ← runtime_for shell language
    rt.snapshot_session s id

-- ===== src/Monty/Runtime/Validation.antt =====
-- A validation takes no session.
use langshell.Common.{ℕ, ◌≡◌, refl, ap, true, Bool-cases, inl, inr, some}
use langshell.Core.{Language, language_eq, RunRequest, RunResult}
use langshell.Monty.Session.{Packages}
use langshell.Monty.Runtime.{
  Storage, MontyRuntime, answered, run_taken, take, validate, only_python, run,
}

module _ {Repl K W : Type 0} (pkg : Packages Repl K W) (storage : Storage Repl) where
  take-validated :
      (rt : MontyRuntime Repl W) (request : RunRequest) (w : W)
      → request.validate_only ≡ true
      → (result : RunResult) × (take pkg storage rt request w ≡ answered result)
  unfolding take
  take-validated rt request w only =
      elim (Bool-cases (language_eq request.language Language.python)) [
        | inl python ↦ (validate pkg storage rt request w, rw (python, only) refl)
        | inr other ↦ (only_python pkg storage, rw other refl)
      ]

  pub run-validated :
      (fuel : ℕ) (rt : MontyRuntime Repl W) (request : RunRequest) (w : W)
      → request.validate_only ≡ true
      → (result : RunResult) × (run pkg storage fuel rt request w ≡ some ((rt, result), w))
  unfolding run run_taken
  run-validated fuel rt request w only =
      let (result, h) = take-validated rt request w only in
      (result, ap (run_taken pkg storage fuel rt request w) h)

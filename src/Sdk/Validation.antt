-- ===== src/Sdk/Validation.antt =====
-- A validation by the shell changes nothing, when the runtimes' does not.
use langshell.Common.{
  ◌≡◌, refl, ap, Bool, true, Bool-cases, inl, inr, Option, none, some, List, [], ◌∷◌,
}
use langshell.Core.{Language, RunRequest, RunResult}
use langshell.Sdk
use langshell.Sdk.{LanguageRuntime, LangShell, on_first, speaks, run_answer}

-- A change of the first state that passes leaves the list, and its answer has a property.
Same : {S A : Type 0} → (A → Type 0) → List S → Option (A × List S) → Type 0
Same Ok ss none = Unit
Same Ok ss (some (a, ss')) = (ss' ≡ ss) × Ok a

passed-Same :
    {S A : Type 0} (Ok : A → Type 0) (s : S) (ss : List S) (r : Option (A × List S))
    → Same Ok ss r
    → Same Ok (s ∷ ss) (elim r [ none ↦ none | some r ↦ some (r.0, s ∷ r.1) ])
unfolding Same
passed-Same Ok s ss none same = tt
passed-Same Ok s ss (some (a, ss')) same = (ap (λ x. s ∷ x) same.0, same.1)

on_first-Same :
    {S A : Type 0} (p : S → Bool) (f : S → A × S) (Ok : A → Type 0)
    → ((s : S) → ((f s).1 ≡ s) × Ok (f s).0)
    → (ss : List S) → Same Ok ss (on_first p f ss)
unfolding on_first Same
on_first-Same p f Ok same [] = tt
on_first-Same p f Ok same (s ∷ ss) = elim (Bool-cases (p s)) [
  | inl passes ↦ rw passes (ap (λ x. x ∷ ss) (same s).0, (same s).1)
  | inr fails ↦ rw fails (passed-Same Ok s ss (on_first p f ss) (on_first-Same p f Ok same ss))
]

module _ {S W : Type 0} (rt : LanguageRuntime S W) where
  -- A runtime whose validation changes neither its state nor the world.
  abbrev pub ValidatesPurely : Type 0
  ValidatesPurely =
      (s : S) (request : RunRequest) (w : W)
      → request.validate_only ≡ true
      → ((rt.run s request w).0.1 ≡ s) × ((rt.run s request w).1 ≡ w)

  run_answer-unchanged :
      (shell : LangShell S) (language : Language) (w : W) (r : Option ((RunResult × W) × List S))
      → Same (λ a. a.1 ≡ w) shell.runtimes r
      → let answer = run_answer rt shell language w r in (answer.0.1 ≡ shell) × (answer.1 ≡ w)
  unfolding run_answer Same
  run_answer-unchanged shell language w none same = (refl, refl)
  run_answer-unchanged shell language w (some ((result, w'), runtimes)) same =
      (ap (λ ss. record { runtimes = ss }) same.0, same.1)

  pub run-validated :
      ValidatesPurely
      → (shell : LangShell S) (request : RunRequest) (w : W) → request.validate_only ≡ true
      → ((Sdk.run rt shell request w).0.1 ≡ shell) × ((Sdk.run rt shell request w).1 ≡ w)
  unfolding Sdk.run
  run-validated pure shell request w only = run_answer-unchanged shell request.language w _ (
      on_first-Same (speaks rt request.language) _ (λ a. a.1 ≡ w) (λ s. pure s request w only)
        shell.runtimes)

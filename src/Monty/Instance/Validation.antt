-- ===== src/Monty/Instance/Validation.antt =====
-- A validation by a Monty runtime changes nothing.
use langshell.Common.{true≢false, sym, ℕ, ◌≡◌, ap, true, Option, none, some, is_some}
use langshell.Core.{RunRequest}
use langshell.Sdk.Validation.{ValidatesPurely}
use langshell.Monty.Session.{Packages}
use langshell.Monty.Runtime
use langshell.Monty.Runtime.{Storage, MontyRuntime}
use langshell.Monty.Runtime.Validation.{run-validated}
use langshell.Monty.Instance.{unwrap, language_runtime}

unwrap-some :
    {A : Type 0} (o : Option A) (h : is_some o ≡ true) (a : A) → o ≡ some a → unwrap o h ≡ a
unfolding unwrap
unwrap-some none h a e = absurd (true≢false (sym h))
unwrap-some (some b) h a e = cc

module _ {Repl K W : Type 0} (pkg : Packages Repl K W) (storage : Storage Repl)
    (fuel : RunRequest → ℕ)
    (ends : (rt : MontyRuntime Repl W) (request : RunRequest) (w : W)
      → is_some (Runtime.run pkg storage (fuel request) rt request w) ≡ true) where
  pub language_runtime-ValidatesPurely : ValidatesPurely (language_runtime pkg storage fuel ends)
  unfolding language_runtime
  language_runtime-ValidatesPurely rt request w only =
      let (result, ran) = run-validated pkg storage (fuel request) rt request w only in
      let left = unwrap-some _ (ends rt request w) ((rt, result), w) ran in
      (ap (λ l. l.0.0) left, ap (λ l. l.1) left)

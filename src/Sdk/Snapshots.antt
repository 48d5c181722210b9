-- ===== src/Sdk/Snapshots.antt =====
-- Which runtime answers `LangShell::snapshot_session`.
use langshell.Common.{
  ℕ, ◌≡◌, refl, Bool, true, not, ◌==◌, Option, none, some, List, [], ◌∷◌, Result, ok, err,
  Bool-cases, inl, inr, if◌then◌else◌,
}
use langshell.Core.{ErrorObject, SessionId}
use langshell.Sdk.{LanguageRuntime, snapshot_answer, snapshot_first, no_runtime_registered_error}

-- An answer that ends the search.
pub settles : Result ErrorObject (List ℕ) → Bool
settles (ok snapshot) = true
settles (err e) = not (e.code == "SESSION_NOT_FOUND")

pub IsNotFound : Result ErrorObject (List ℕ) → Type 0
IsNotFound r = (e : ErrorObject) × (r ≡ err e) × (e.code ≡ "SESSION_NOT_FOUND")

-- The answer of the first runtime whose answer settles, and otherwise the answer `otherwise`.
pub first_settled :
    Result ErrorObject (List ℕ) → List (Result ErrorObject (List ℕ)) → Result ErrorObject (List ℕ)
first_settled otherwise [] = otherwise
first_settled otherwise (r ∷ rs) = if settles r then r else first_settled r rs

module _ {S W : Type 0} (rt : LanguageRuntime S W) where
  abbrev pub answers : List S → SessionId → List (Result ErrorObject (List ℕ))
  answers [] id = []
  answers (s ∷ ss) id = rt.snapshot_session s id ∷ answers ss id

  snapshot_answer-eq :
      (r : Result ErrorObject (List ℕ)) (rest : Option ErrorObject → Result ErrorObject (List ℕ))
      → (otherwise : Result ErrorObject (List ℕ) → Result ErrorObject (List ℕ))
      → ((e : ErrorObject) → rest (some e) ≡ otherwise (err e))
      → snapshot_answer rt r rest ≡ (if settles r then r else otherwise r)
  unfolding snapshot_answer settles
  snapshot_answer-eq (ok snapshot) rest otherwise h = refl
  snapshot_answer-eq (err e) rest otherwise h = elim (Bool-cases (e.code == "SESSION_NOT_FOUND")) [
    | inl found ↦ rw found (h e)
    | inr other ↦ rw other refl
  ]

  snapshot_first-some :
      (ss : List S) (id : SessionId) (e : ErrorObject)
      → snapshot_first rt ss id (some e) ≡ first_settled (err e) (answers ss id)
  unfolding snapshot_first first_settled
  snapshot_first-some [] id e = refl
  snapshot_first-some (s ∷ ss) id e =
      snapshot_answer-eq _ _ (λ r. first_settled r (answers ss id)) (snapshot_first-some ss id)

  -- The loop of `snapshot_session` gives the answer of the first runtime that has a snapshot or an error
  -- other than SESSION_NOT_FOUND; when every runtime answers SESSION_NOT_FOUND, it gives the answer of the
  -- last one, and without runtimes the error that none is registered.
  pub snapshot_first-first_settled :
      (ss : List S) (id : SessionId)
      → snapshot_first rt ss id none
        ≡ first_settled (err (no_runtime_registered_error none)) (answers ss id)
  unfolding snapshot_first first_settled
  snapshot_first-first_settled [] id = refl
  snapshot_first-first_settled (s ∷ ss) id =
      snapshot_answer-eq _ _ (λ r. first_settled r (answers ss id)) (snapshot_first-some ss id)

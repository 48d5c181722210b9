-- ===== src/Monty/Session/Total.antt =====
-- Runs of a session end when the interpreter does.
use langshell.Common.{
  ℕ, suc, ◌+◌, ◌≤◌, ◌≡◌, refl, true, String, Option, none, some, is_some, and_then, List, [],
  Result, ok, err, arith,
}
use langshell.Core.{ErrorObject, Value, RunRequest, from_fields}
use langshell.Monty.Errors.{code_to_status}
use langshell.Core.Registry.{ToolRegistry}
use langshell.Monty.Objects.{Interpreter, MontyObject, Resumed}
use langshell.Monty.Snippet.{SnippetOutcome, run_repl_snippet}
use langshell.Monty.Snippet.Termination.{IsBounded, ResumedWithin, run_repl_snippet-total}
use langshell.Monty.Validate.{static_validation_error}
use langshell.Monty.Session.{
  MontySession, Packages, Done, Ended, env_of, inputs_to_monty, probe, after_program,
}
use langshell.Monty.Session.Run.{rejected, limit_duration, run_with_inputs, run_session}

-- Every code is started with at most `budget` stops of the interpreter, whatever the session.
pub record StartsWithin {Repl K : Type 0} (rank : K → ℕ) (i : Interpreter Repl K)
    (budget : String → ℕ) : Type 0 where
  pub start :
      (repl : Repl) (code : String) (inputs : List (String × MontyObject))
      → ResumedWithin rank (budget code) (i.feed_start repl code inputs)

-- The turns of a run: enough for its code and enough for the probe.
abbrev pub turns_of : (String → ℕ) → RunRequest → ℕ
turns_of budget request = suc (budget request.code + budget "result")

weaken :
    {Repl K : Type 0} (rank : K → ℕ) (m n : ℕ) (r : Resumed Repl K)
    → m ≤ n
    → ResumedWithin rank m r
    → ResumedWithin rank n r
weaken rank m n (Resumed.progress printed progress) le h = omega arith
weaken rank m n (Resumed.failed printed repl e) le h = tt

is_some-and_then :
    {A B : Type 0} (o : Option A) (next : A → Option B)
    → is_some o ≡ true
    → ((a : A) → is_some (next a) ≡ true)
    → is_some (and_then o next) ≡ true
is_some-and_then none next h later = cc
is_some-and_then (some a) next h later = later a

module _ {Repl K W : Type 0} (pkg : Packages Repl K W) (rank : K → ℕ) (budget : String → ℕ)
    (bounded : IsBounded rank pkg.interpreter)
    (starts : StartsWithin rank pkg.interpreter budget) where
  snippet-is_some :
      (fuel : ℕ) (session : MontySession Repl) (registry : ToolRegistry W) (repl : Repl)
      (code : String) (inputs : List (String × MontyObject)) (w : W)
      → budget code ≤ fuel
      → is_some (run_repl_snippet (env_of pkg session registry) (suc fuel) repl code inputs w)
        ≡ true
  snippet-is_some fuel session registry repl code inputs w le =
      let (o, w', h) =
        run_repl_snippet-total (env_of pkg session registry) rank bounded fuel repl code inputs w
          (weaken rank (budget code) fuel _ le (starts.start repl code inputs)) in
      rw h refl

  probe-is_some :
      (fuel : ℕ) (session : MontySession Repl) (request : RunRequest) (registry : ToolRegistry W)
      (started : W) (r : Result ErrorObject (Option Value)) (e : Ended Repl W)
      → budget "result" ≤ fuel
      → is_some (probe pkg (suc fuel) session request registry started r e) ≡ true
  unfolding probe
  probe-is_some fuel session request registry started (err error) e le = refl
  probe-is_some fuel session request registry started (ok expr) e le =
      is_some-and_then _ _ (snippet-is_some fuel session registry e.repl "result" [] e.world le)
        λ a. refl

  after_program-is_some :
      (fuel : ℕ) (session : MontySession Repl) (request : RunRequest) (registry : ToolRegistry W)
      (started : W) (outcome : SnippetOutcome Repl × W)
      → budget "result" ≤ fuel
      → is_some (after_program pkg (suc fuel) session request registry started outcome) ≡ true
  unfolding after_program
  after_program-is_some fuel session request registry started
        (SnippetOutcome.complete repl value stdout records, w) le =
      probe-is_some fuel session request registry started _ _ le
  after_program-is_some fuel session request registry started
        (SnippetOutcome.error repl error stdout records, w) le =
      refl

  run_with_inputs-is_some :
      (fuel : ℕ) (session : MontySession Repl) (request : RunRequest) (registry : ToolRegistry W)
      (w : W) (inputs : Result ErrorObject (List (String × MontyObject)))
      → budget request.code ≤ fuel
      → budget "result" ≤ fuel
      → is_some (run_with_inputs pkg (suc fuel) session request registry w inputs) ≡ true
  unfolding run_with_inputs
  run_with_inputs-is_some fuel session request registry w (err e) le le' = refl
  run_with_inputs-is_some fuel session request registry w (ok inputs) le le' =
      is_some-and_then _ _
        (snippet-is_some fuel session registry session.repl request.code inputs w le)
        λ outcome. after_program-is_some fuel session request registry w outcome le'

  validated-is_some :
      (session : MontySession Repl) (request : RunRequest) (registry : ToolRegistry W) (w : W)
      (o : Option ErrorObject)
      → is_some {A = Done pkg} (elim o [
        | some error ↦ some (rejected pkg session w (code_to_status error.code true) error)
        | none ↦
            run_with_inputs pkg
              (turns_of budget request)
              (limit_duration pkg session request)
              request
              registry
              w
              (inputs_to_monty pkg.library (from_fields request.inputs))
      ])
        ≡ true
  validated-is_some session request registry w (some error) = refl
  validated-is_some session request registry w none =
      run_with_inputs-is_some (budget request.code + budget "result")
        (limit_duration pkg session request) request registry w
        (inputs_to_monty pkg.library (from_fields request.inputs)) (omega arith) (omega arith)

  pub run_session-is_some :
      (session : MontySession Repl) (request : RunRequest) (registry : ToolRegistry W) (w : W)
      → is_some (run_session pkg (turns_of budget request) session request registry w) ≡ true
  unfolding run_session
  run_session-is_some session request registry w =
      validated-is_some session request registry w
        (static_validation_error registry (pkg.parse_module request.code))

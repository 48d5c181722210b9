-- ===== src/Monty/Snippet/Accounting/Outcome.antt =====
-- What holds of a snippet's outcome.
use langshell.Common.{subst, ℕ, zero, suc, ◌<◌, ◌≡◌, refl, String, some, List, arith}
use langshell.Monty.Objects.{MontyObject, ReplProgress}
use langshell.Monty.Limits.{u32_max}
use langshell.Monty.Snippet.{
  Env, LoopState, SnippetOutcome, Turn, advance, run_turns, run_repl_snippet,
}
use langshell.Monty.Snippet.Accounting.{
  Accounted, OutcomeAccounted, TurnAccounted, returning, resumed-Accounted,
}
use langshell.Monty.Snippet.{initial_state}
use langshell.Monty.Snippet.Accounting.Dispatch.{function_call-Accounted}
use langshell.Monty.Snippet.Accounting.Awaits.{resolve_futures-Accounted}

module _ {Repl K W : Type 0} (env : Env Repl K W)
    (small : env.limits.max_external_calls < u32_max) where
  advance-Accounted :
      (progress : ReplProgress Repl K) (s : LoopState W)
      → Accounted env s
      → TurnAccounted env (advance env progress s)
  unfolding advance
  advance-Accounted (ReplProgress.complete repl value) s a = returning env s _ a refl
  advance-Accounted (ReplProgress.name_lookup name k) s a = resumed-Accounted env s _ a
  advance-Accounted (ReplProgress.function_call name args kwargs id k) s a =
      function_call-Accounted env name args kwargs id k s small a
  advance-Accounted (ReplProgress.resolve_futures ids k) s a =
      resolve_futures-Accounted env ids k s a
  advance-Accounted (ReplProgress.os_call k) s a = resumed-Accounted env s _ a

  run_turns-Accounted :
      (fuel : ℕ) (turn : Turn Repl K W) (outcome : SnippetOutcome Repl) (w : W)
      → TurnAccounted env turn
      → run_turns env fuel turn ≡ some (outcome, w)
      → OutcomeAccounted env outcome
  unfolding run_turns
  run_turns-Accounted fuel (Turn.return o w') outcome w a h = subst (OutcomeAccounted env) (cc h) a
  run_turns-Accounted zero (Turn.continue progress s) outcome w a h = cc
  run_turns-Accounted (suc fuel) (Turn.continue progress s) outcome w a h =
      run_turns-Accounted fuel (advance env progress s) outcome w (advance-Accounted progress s a) h

  -- When the limit on external calls is below 2^32 - 1, an outcome of `run_repl_snippet`, whether it is a
  -- value or an error, has at most `max_external_calls` records of calls, and each record shows the name
  -- and the side effect of a tool that the registry holds.
  pub run_repl_snippet-OutcomeAccounted :
      (fuel : ℕ) (repl : Repl) (code : String) (inputs : List (String × MontyObject)) (w : W)
      → (outcome : SnippetOutcome Repl) (w' : W)
      → run_repl_snippet env fuel repl code inputs w ≡ some (outcome, w')
      → OutcomeAccounted env outcome
  unfolding run_repl_snippet
  run_repl_snippet-OutcomeAccounted fuel repl code inputs w outcome w' h =
      run_turns-Accounted fuel _ outcome w'
        (resumed-Accounted env (initial_state env w) (env.interpreter.feed_start repl code inputs)
          (record {
            conserved = refl;
            bounded = omega arith;
            recorded = tt;
            waiting = tt;
            known = tt;
          }))
        h

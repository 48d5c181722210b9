-- ===== src/Deno/Engine/Trace.antt =====
-- What a script does to the ops is an interleaving of their steps.
use langshell.Common.{
  ℕ, zero, suc, ◌≡◌, refl, ap, String, Option, none, some, List, [], ◌∷◌, ◌++◌, Result,
}
use langshell.Core.{Value}
use langshell.Core.Digest.{Hashing}
use langshell.Monty.Calls.{Host}
use langshell.Monty.Snippet.{take_at}
use langshell.Deno.Ops.{DenoOpState, RunningCall}
use langshell.Deno.Ops.Calls.{
  OpSystem, finish_async, Step, print, sync, async, finish, Steps, done, step,
}
use langshell.Deno.Engine.{Script, answer_of, run_script}

-- What `take_at` takes stands between the others.
abbrev StandsIn {ℓ} : {A : Type ℓ} → List A → Option (A × List A) → Type ℓ
StandsIn xs none = Unit
StandsIn {A = A} xs (some p) =
    (front : List A) × (back : List A) × (xs ≡ front ++ p.0 ∷ back) × (p.1 ≡ front ++ back)

module _ {ℓ} {A : Type ℓ} where
  StandsIn-under :
      (x : A) (xs : List A) (o : Option (A × List A))
      → StandsIn xs o
      → StandsIn (x ∷ xs) (elim o [ none ↦ some (x, xs) | some p ↦ some (p.0, x ∷ p.1) ])
  StandsIn-under x xs none h = ([], xs, refl, refl)
  StandsIn-under x xs (some p) (front, back, e, f) = (x ∷ front, back, ap (◌∷◌ x) e, ap (◌∷◌ x) f)

  take_at-StandsIn : (i : ℕ) (xs : List A) → StandsIn xs (take_at i xs)
  unfolding take_at
  take_at-StandsIn i [] = tt
  take_at-StandsIn zero (x ∷ xs) = ([], xs, refl, refl)
  take_at-StandsIn (suc i) (x ∷ xs) = StandsIn-under x xs (take_at i xs) (take_at-StandsIn i xs)

module _ {W : Type 0} (hashing : Hashing) (host : Host W) where
  pub Steps-trans :
      {s t u : OpSystem W}
      → Steps hashing host s t
      → Steps hashing host t u
      → Steps hashing host s u
  Steps-trans (done s) rest = rest
  Steps-trans (step first more) rest = step first (Steps-trans more rest)

  -- The end of a call, whose place among the running ones an equation gives.
  finish_at :
      (state : DenoOpState W) (w : W) (running : List (RunningCall W)) (call : RunningCall W)
      (others : List (RunningCall W))
      → StandsIn running (some (call, others))
      → Step hashing host
          (record { data_of = state; running = running; world = w })
          (finish_async hashing host
            (record { data_of = state; running = running; world = w })
            call
            others)
  finish_at state w running call others (front, back, e, f) =
      rw (e, f) (finish state front call back w)

  polled-Steps :
      {Js A : Type 0} (next : Option (Result String Value) → Script Js A) (s : OpSystem W)
      (o : Option (RunningCall W × List (RunningCall W)))
      → StandsIn s.running o
      → ((a : Option (Result String Value)) (t : OpSystem W)
          → Steps hashing host t (run_script hashing host (next a) t).1)
      → Steps hashing host s
          (elim o as (λ _. (Js × A) × OpSystem W) [
            | none ↦ run_script hashing host (next none) s
            | some p ↦
                run_script hashing host
                  (next (some (answer_of hashing host s p.0)))
                  (finish_async hashing host s p.0 p.1)
          ]).1
  polled-Steps next s none h rest = rest none s
  polled-Steps next s (some p) h rest =
      step (finish_at s.data_of s.world s.running p.0 p.1 h)
        (rest (some (answer_of hashing host s p.0)) _)

  pub run_script-Steps :
      {Js A : Type 0} (script : Script Js A) (s : OpSystem W)
      → Steps hashing host s (run_script hashing host script s).1
  unfolding run_script
  run_script-Steps (Script.print msg is_err rest) s =
      step (print s msg is_err) (run_script-Steps rest _)
  run_script-Steps (Script.sync ctx next) s = step (sync s ctx) (run_script-Steps (next _) _)
  run_script-Steps (Script.async ctx next) s = step (async s ctx) (run_script-Steps (next _) _)
  run_script-Steps (Script.poll i next) s =
      polled-Steps next s (take_at i s.running) (take_at-StandsIn i s.running)
        (λ a t. run_script-Steps (next a) t)
  run_script-Steps (Script.ended js a) s = done s

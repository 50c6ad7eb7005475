-- ===== src/Adaptive/Loop.antt =====
-- src/subllm/adaptive.py: the `while` loop of `execute`, and that it ends.
use subllm.Prelude.{
  ℕ, zero, suc, ◌+◌, ◌≡◌, refl, true, false, leb, List, [], ◌∷◌, arith, length, Result, err, All,
}
use subllm.Adaptive.Execute.{Finished, exhausted, go_on, rounds, most_attempts}
use subllm.Adaptive.Steps.{GoodTurn, turn-GoodTurn}
use subllm.Adaptive.Turn.{Job, Round, World, Progress, Turn, leave, finish, next, begin, turn}
use subllm.Client.Outcome.{CompletionResponse, ClientError}
use subllm.Types.{ResolvedRoute}

module _ (job : Job) (given : ℕ → Round) where
  -- The `while` loop as it is written, from its `n`-th turn: its condition is tested before each turn.
  -- There is a derivation only for a run that ends.
  pub data Loops : ℕ → Progress → World → Finished → Type 0 where
    full :
        {n : ℕ} {p : Progress} {w : World}
        → leb (most_attempts job.execution) (length p.attempts) ≡ true
        → Loops n p w (err (exhausted p), w)
    left :
        {n : ℕ} {p : Progress} {w v : World}
        → leb (most_attempts job.execution) (length p.attempts) ≡ false
        → turn job (given n) p w ≡ leave v
        → Loops n p w (err (exhausted p), v)
    finished :
        {n : ℕ} {p : Progress} {w v : World} {r : Result ClientError CompletionResponse}
        → leb (most_attempts job.execution) (length p.attempts) ≡ false
        → turn job (given n) p w ≡ finish r v
        → Loops n p w (r, v)
    again :
        {n : ℕ} {p q : Progress} {w v : World} {out : Finished}
        → leb (most_attempts job.execution) (length p.attempts) ≡ false
        → turn job (given n) p w ≡ next q v
        → Loops (suc n) q v out
        → Loops n p w out

  -- Every route has this property.
  abbrev Anything : ResolvedRoute → Type 0
  Anything r = Unit

  All-Anything : (rs : List ResolvedRoute) → All Anything rs
  All-Anything [] = tt
  All-Anything (r ∷ rs) = (tt, All-Anything rs)

  turn-Loops :
      (n : ℕ) (p : Progress) (w : World) (continued : Progress → World → Finished) (t : Turn)
      → turn job (given n) p w ≡ t
      → leb (most_attempts job.execution) (length p.attempts) ≡ false
      → GoodTurn Anything job p w t
      → ((q : Progress) (v : World)
          → length q.attempts ≡ suc (length p.attempts)
          → Loops (suc n) q v (continued q v))
      → Loops n p w (go_on p continued t)
  turn-Loops n p w continued (leave v) e open_yet g more = left open_yet e
  turn-Loops n p w continued (finish r v) e open_yet g more = finished open_yet e
  turn-Loops n p w continued (next q v) e open_yet g more = again open_yet e (more q v g.3)

  rounds-Loops :
      (room n : ℕ) (p : Progress) (w : World)
      → length p.attempts + room ≡ most_attempts job.execution
      → Loops n p w (rounds job given room n p w)
  unfolding rounds
  rounds-Loops zero n p w e = full (ground (arith, e))
  rounds-Loops (suc room) n p w e =
      turn-Loops n p w (rounds job given room (suc n)) (turn job (given n) p w) refl
        (ground (arith, e)) (turn-GoodTurn Anything job (given n) p w (All-Anything job.eligible))
        (λ q v grown. rounds-Loops room (suc n) q v (omega (arith, e, grown)))

  -- The `while` loop of `execute` ends, whatever the turns meet, and what it ends with is what `rounds`
  -- computes with the bound on attempts as the number of turns it has left.
  pub loop-Terminates :
      (w : World) → Loops 0 begin w (rounds job given (most_attempts job.execution) 0 begin w)
  loop-Terminates w = rounds-Loops (most_attempts job.execution) 0 begin w (omega arith)

-- ===== src/Adaptive/Careful.antt =====
-- src/subllm/adaptive.py: which calls `execute` makes, how many, and in which order.
use subllm.Prelude.{
  ℕ, zero, suc, ◌+◌, ◌≤◌, ◌≡◌, refl, Bool, false, ◌&&◌, or_parts, inl, inr, List, [], ◌∷◌, arith,
  length, Result, err, All, subst, sym, ap, ◌∙◌, ◌==◌,
}
use subllm.Adaptive.Execute.{Finished, exhausted, go_on, rounds, most_attempts}
use subllm.Adaptive.Steps.{IsSound, GoodTurn, turn-GoodTurn, Lists, Called, key_of}
use subllm.Adaptive.Turn.{
  Job, Round, World, Pick, Key, key_in, Progress, Turn, leave, finish, next, begin, turn,
}
use subllm.Client.Outcome.{CompletionResponse, ClientError}
use subllm.Types.{ResolvedRoute}

abbrev pub same_model : ResolvedRoute → ResolvedRoute → Bool
same_model x r = x.provider == r.provider && x.model == r.model

-- No call, the newest first, is of the provider and model of an earlier one.
abbrev pub NoneRepeated : List Pick → Type 0
NoneRepeated [] = Unit
NoneRepeated (c ∷ earlier) =
    All (λ e. same_model e.route c.route ≡ false) earlier × NoneRepeated earlier

abbrev pub picked : List Pick → List Key
picked [] = []
picked (c ∷ cs) = key_of c ∷ picked cs

not_picked :
    (r : ResolvedRoute) (cs : List Pick)
    → key_in (picked cs) r ≡ false
    → All (λ e. same_model e.route r ≡ false) cs
not_picked r [] h = tt
not_picked r (c ∷ cs) h =
    let parts = or_parts (same_model c.route r) (key_in (picked cs) r) h in
    (parts.0, not_picked r cs parts.1)

module _ (P : ResolvedRoute → Type 0) (job : Job) where
  -- What the run leaves: at most `bound` calls, each sound, no two of one provider and model, and a
  -- response lists one attempt for each.
  pub record IsCareful (bound : ℕ) (out : Finished) : Type 0 where
    pub few : length out.1.picks ≤ bound
    pub sound : All (IsSound P job) out.1.picks
    pub fair : NoneRepeated out.1.picks
    pub listed : Lists out.0 (length out.1.picks)

  -- What holds between two turns.
  record IsUnderway (p : Progress) (cs : List Pick) : Type 0 where
    counted : length p.attempts ≡ length cs
    known : p.attempted ≡ picked cs
    sound : All (IsSound P job) cs
    fair : NoneRepeated cs

  -- The calls after one more.
  more_calls :
      (p : Progress) (w v : World) (c : Pick)
      → IsUnderway p w.picks
      → Called P job p w v c
      → All (IsSound P job) v.picks × NoneRepeated v.picks × (length v.picks ≡ suc (length w.picks))
  more_calls p w v c h (made, sound, new) =
      subst (λ cs. All (IsSound P job) cs × NoneRepeated cs × (length cs ≡ suc (length w.picks)))
        (sym made)
        (
          (sound, h.sound),
          (
            not_picked c.route w.picks (subst (λ ks. key_in ks c.route ≡ false) h.known new),
            h.fair,
          ),
          refl,
        )

  stopped-IsCareful :
      (p : Progress) (w v : World) (e : ClientError) (left bound : ℕ)
      → IsUnderway p w.picks
      → v.picks ≡ w.picks
      → length w.picks + left ≡ bound
      → IsCareful bound (err e, v)
  stopped-IsCareful p w v e left bound h same room = record {
    few = omega (arith, ap length same, room);
    sound = subst (All (IsSound P job)) (sym same) h.sound;
    fair = subst NoneRepeated (sym same) h.fair;
    listed = tt;
  }

  finished-IsCareful :
      (p : Progress) (w v : World) (r : Result ClientError CompletionResponse) (left bound : ℕ)
      → IsUnderway p w.picks
      → GoodTurn P job p w (finish r v)
      → length w.picks + suc left ≡ bound
      → IsCareful bound (r, v)
  finished-IsCareful p w v r left bound h (inl (same, e, raised)) room =
      subst (λ o. IsCareful bound (o, v)) (sym raised)
        (stopped-IsCareful p w v e (suc left) bound h same room)
  finished-IsCareful p w v r left bound h (inr (c, called, lists)) room =
      let more = more_calls p w v c h called in
      record {
        few = omega (arith, more.2, room);
        sound = more.0;
        fair = more.1;
        listed = subst (Lists r) (ap suc h.counted ∙ sym more.2) lists;
      }

  next-IsUnderway :
      (p q : Progress) (w v : World)
      → IsUnderway p w.picks
      → GoodTurn P job p w (next q v)
      → IsUnderway q v.picks × (length v.picks ≡ suc (length w.picks))
  next-IsUnderway p q w v h (c, called, keyed, counted) =
      let more = more_calls p w v c h called in
      (
        record {
          counted = counted ∙ (ap suc h.counted ∙ sym more.2);
          known = keyed ∙ (ap (λ ks. key_of c ∷ ks) h.known ∙ sym (ap picked called.0));
          sound = more.0;
          fair = more.1;
        },
        more.2,
      )

  -- After a turn, if the turns that follow are careful.
  after-IsCareful :
      (p : Progress) (w : World) (left bound : ℕ) (continued : Progress → World → Finished)
      (t : Turn)
      → IsUnderway p w.picks
      → length w.picks + suc left ≡ bound
      → ((q : Progress) (v : World)
          → IsUnderway q v.picks
          → length v.picks + left ≡ bound
          → IsCareful bound (continued q v))
      → GoodTurn P job p w t
      → IsCareful bound (go_on p continued t)
  after-IsCareful p w left bound continued (leave v) h room more g =
      stopped-IsCareful p w v (exhausted p) (suc left) bound h g room
  after-IsCareful p w left bound continued (finish r v) h room more g =
      finished-IsCareful p w v r left bound h g room
  after-IsCareful p w left bound continued (next q v) h room more g =
      let then_on = next-IsUnderway p q w v h g in
      more q v then_on.0 (omega (arith, then_on.1, room))

  module _ (given : ℕ → Round) (all : All P job.eligible) where
    rounds-IsCareful :
        (left n bound : ℕ) (p : Progress) (w : World)
        → IsUnderway p w.picks
        → length w.picks + left ≡ bound
        → IsCareful bound (rounds job given left n p w)
    unfolding rounds
    rounds-IsCareful zero n bound p w h room =
        stopped-IsCareful p w w (exhausted p) zero bound h refl room
    rounds-IsCareful (suc left) n bound p w h room =
        after-IsCareful p w left bound (rounds job given left (suc n)) (turn job (given n) p w) h
          room (λ q v. rounds-IsCareful left (suc n) bound q v)
          (turn-GoodTurn P job (given n) p w all)

    -- For routes that all have the property P: the loop of `execute`, begun without a call, makes at most
    -- as many calls as the bound on attempts, each of a route with the property P that was not observed to
    -- fail and has the least rank of the candidates of its turn, within the caller's limit and the route's
    -- own; no two calls are of the same provider and model; and a response lists one attempt for each.
    pub loop-IsCareful :
        (w : World)
        → w.picks ≡ []
        → IsCareful
            (most_attempts job.execution)
            (rounds job given (most_attempts job.execution) 0 begin w)
    loop-IsCareful w none_yet =
        rounds-IsCareful (most_attempts job.execution) 0 (most_attempts job.execution) begin w
          (record {
            counted = sym (ap length none_yet);
            known = sym (ap picked none_yet);
            sound = subst (All (IsSound P job)) (sym none_yet) tt;
            fair = subst NoneRepeated (sym none_yet) tt;
          })
          (omega (arith, ap length none_yet))

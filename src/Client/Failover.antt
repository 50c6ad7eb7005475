-- ===== src/Client/Failover.antt =====
-- src/subllm/client_routes.py: which providers the failover of `complete` calls, how often and how
-- long.
use subllm.Prelude.{
  ℕ, suc, ◌≤◌, String, ◌≡◌, ◌≢◌, refl, Bool, true, false, List, [], ◌∷◌, arith, Result, ok, err,
  if◌then◌else◌, leb, contains, length, length-append, All, All-map, Any, absurd_bool, subst, inl,
  inr, eq_refl,
}
use subllm.Client.Attempt.{
  Setting, Trial, Call, World, Progress, start, Turn, leave, finish, next, turn, attempt, settle,
  call_of, retry, with_failure, with_success,
}
use subllm.Client.Outcome.{
  CompletionResponse, ClientError, Outcome, answered, failed, retryable, fatal,
  RetryableAttemptError,
}
use subllm.Client.Routes.{failover, Finished, go_on}
use subllm.Health.File.{OverflowError}
use subllm.Health.Store.{Host}
use subllm.Types.{ResolvedRoute}

abbrev pub Planned : Type 0
Planned = List (ResolvedRoute × ℕ)

-- The call is of a planned route, for no longer than the route's budget and the caller's limit.
abbrev pub IsPlanned : Setting → Planned → Call → Type 0
IsPlanned st plan c =
    Any (λ (rb : ResolvedRoute × ℕ). (rb.0 ≡ c.route) × (c.timeout ≤ rb.1)) plan
    × (c.timeout ≤ st.caller_limit)

-- No call, the newest first, is of a provider that an earlier one found failing.
abbrev pub NoneRetried : List Call → Type 0
NoneRetried [] = Unit
NoneRetried (c ∷ earlier) =
    All (λ e. e.provider_level ≡ true → e.route.provider ≢ c.route.provider) earlier
    × NoneRetried earlier

abbrev pub IsListed : Result ClientError CompletionResponse → List Call → Type 0
IsListed (ok r) calls = length r.attempts ≡ length calls
IsListed (err e) calls = Unit

pub record IsOrderly (st : Setting) (plan : Planned) (r : Result ClientError CompletionResponse)
    (calls : List Call) : Type 0 where
  pub few : length calls ≤ st.execution.max_attempts
  pub planned : All (IsPlanned st plan) calls
  pub fair : NoneRetried calls
  pub listed : IsListed r calls

-- What holds between two turns.
record IsUnderway (st : Setting) (plan : Planned) (p : Progress) (calls : List Call) : Type 0 where
  counted : length p.attempts ≡ length calls
  few : length calls ≤ st.execution.max_attempts
  planned : All (IsPlanned st plan) calls
  fair : NoneRetried calls
  known :
      All (λ e. e.provider_level ≡ true → contains p.failed_providers e.route.provider ≡ true) calls

abbrev GoodTurn : Setting → Planned → Turn → Type 0
GoodTurn st plan leave = Unit
GoodTurn st plan (finish r w) = IsOrderly st plan r w.calls
GoodTurn st plan (next p w) = IsUnderway st plan p w.calls

unknown_provider :
    (out : List String) (provider : String) (calls : List Call)
    → contains out provider ≡ false
    → All (λ e. e.provider_level ≡ true → contains out e.route.provider ≡ true) calls
    → All (λ e. e.provider_level ≡ true → e.route.provider ≢ provider) calls
unknown_provider out provider calls new known =
    All-map calls
      (λ e h level same. absurd_bool (subst (λ q. contains out q ≡ true) same (h level)) new) known

still_known :
    (out : List String) (provider : String) (calls : List Call)
    → All (λ e. e.provider_level ≡ true → contains out e.route.provider ≡ true) calls
    → All (λ e. e.provider_level ≡ true → contains (provider ∷ out) e.route.provider ≡ true) calls
still_known out provider calls known = All-map calls (λ e h level. ground (arith, h level)) known

-- What holds right after a call, before its outcome is looked at.
record IsCalled (st : Setting) (plan : Planned) (p : Progress) (c : Call) (calls : List Call)
    : Type 0 where
  before : IsUnderway st plan p calls
  room : suc (length calls) ≤ st.execution.max_attempts
  new : contains p.failed_providers c.route.provider ≡ false
  planned : IsPlanned st plan c

module _ (st : Setting) (plan : Planned) (p : Progress) (c : Call) (calls : List Call)
    (v : IsCalled st plan p c calls) where
  called-IsOrderly :
      (r : Result ClientError CompletionResponse)
      → IsListed r (c ∷ calls)
      → IsOrderly st plan r (c ∷ calls)
  called-IsOrderly r listed = record {
    few = v.room;
    planned = (v.planned, v.before.planned);
    fair = (
      unknown_provider p.failed_providers c.route.provider calls v.new v.before.known,
      v.before.fair,
    );
    listed = listed;
  }

  called-IsUnderway :
      (p' : Progress)
      → length p'.attempts ≡ suc (length p.attempts)
      → (c.provider_level ≡ true → contains p'.failed_providers c.route.provider ≡ true)
      → All
          (λ e. e.provider_level ≡ true → contains p'.failed_providers e.route.provider ≡ true)
          calls
      → IsUnderway st plan p' (c ∷ calls)
  called-IsUnderway p' longer own known = record {
    counted = omega (arith, v.before.counted);
    few = v.room;
    planned = (v.planned, v.before.planned);
    fair = (
      unknown_provider p.failed_providers c.route.provider calls v.new v.before.known,
      v.before.fair,
    );
    known = (own, known);
  }

if_good :
    (st : Setting) (plan : Planned) (b : Bool) (x y : Turn)
    → (b ≡ true → GoodTurn st plan x)
    → (b ≡ false → GoodTurn st plan y)
    → GoodTurn st plan (if b then x else y)
if_good st plan true x y f g = f refl
if_good st plan false x y f g = g refl

retry_good :
    (st : Setting) (plan : Planned) (e : RetryableAttemptError) (p : Progress) (w : World)
    → IsUnderway st plan p w.calls
    → GoodTurn st plan (retry st e p w)
retry_good st plan e p w v =
    if_good st plan st.execution.failover_enabled _ _ (λ on. v)
      (λ off. record { few = v.few; planned = v.planned; fair = v.fair; listed = tt })

with_failure_good :
    (st : Setting) (plan : Planned) (e : RetryableAttemptError) (p : Progress) (w : World)
    (h : Result OverflowError Host)
    → IsUnderway st plan p w.calls
    → GoodTurn st plan (with_failure st e p w h)
with_failure_good st plan e p w (ok h) v = retry_good st plan e p (record w { host = h }) v
with_failure_good st plan e p w (err x) v = record {
  few = v.few;
  planned = v.planned;
  fair = v.fair;
  listed = tt;
}

with_success_good :
    (st : Setting) (plan : Planned) (r : CompletionResponse) (w : World)
    (h : Result OverflowError Host)
    → ((q : Result ClientError CompletionResponse)
        → IsListed q w.calls
        → IsOrderly st plan q w.calls)
    → length r.attempts ≡ length w.calls
    → GoodTurn st plan (with_success r w h)
with_success_good st plan r w (ok h) orderly same = orderly (ok r) same
with_success_good st plan r w (err x) orderly same = orderly _ tt

known_now : (provider : String) (out : List String) → contains (provider ∷ out) provider ≡ true
known_now provider out = rw eq_refl

settle_good :
    (st : Setting) (plan : Planned) (trial : Trial) (route : ResolvedRoute) (t : ℕ) (p : Progress)
    (w : World) (o : Outcome)
    → IsCalled st plan p (call_of st route t o) w.calls
    → GoodTurn st plan
        (settle st trial route p (record w { calls = call_of st route t o ∷ w.calls }) o)
unfolding settle call_of
settle_good st plan trial route t p w (answered r) v =
    with_success_good st plan _ _ _ (called-IsOrderly st plan p _ w.calls v)
      (omega (arith, v.before.counted, length-append p.attempts (_ ∷ [])))
settle_good st plan trial route t p w (failed r (fatal e)) v =
    called-IsOrderly st plan p _ w.calls v (err e) tt
settle_good st plan trial route t p w (failed r (retryable e)) v =
    if_good st plan e.provider_level _ _
      (λ level. with_failure_good st plan e _ _ _ (
        called-IsUnderway st plan p _ w.calls v _ (omega (arith, length-append p.attempts (_ ∷ [])))
          (λ own. known_now route.provider p.failed_providers)
          (still_known p.failed_providers route.provider w.calls v.before.known)))
      (λ own. retry_good st plan e _ _ (
        called-IsUnderway st plan p _ w.calls v _ (omega (arith, length-append p.attempts (_ ∷ [])))
          (λ level. absurd_bool level own) v.before.known))

leb-false : (a b : ℕ) → leb a b ≡ false → suc b ≤ a
leb-false a b h = ground arith

-- Each timeout within the budget is one of a planned route.
abbrev IsIn : Planned → ResolvedRoute × ℕ → Type 0
IsIn plan (route, budget) =
    (t : ℕ) → t ≤ budget → Any (λ (rb : ResolvedRoute × ℕ). (rb.0 ≡ route) × (t ≤ rb.1)) plan

turn_good :
    (st : Setting) (plan : Planned) (trial : Trial) (route : ResolvedRoute) (budget : ℕ)
    (p : Progress) (w : World)
    → IsIn plan (route, budget)
    → IsUnderway st plan p w.calls
    → GoodTurn st plan (turn st trial route budget p w)
unfolding turn attempt call_of
turn_good st plan trial route budget p w found v =
    if_good st plan (leb st.execution.max_attempts (length p.attempts)) _ _ (λ full. tt)
      (λ room.
        if_good st plan (contains p.failed_providers route.provider) _ _ (λ out. v)
          (λ new.
            if_good st plan (leb st.caller_limit trial.elapsed) _ _ (λ late. tt)
              (λ time. settle_good st plan trial route _ p w _ (record {
                before = v;
                room = omega (arith, v.counted, leb-false _ _ room);
                new = new;
                planned = (found _ (omega arith), omega arith);
              }))))

plan-IsIn : (plan : Planned) → All (IsIn plan) plan
plan-IsIn [] = tt
plan-IsIn ((route, budget) ∷ plan) =
    (λ t h. inl (refl, h), All-map plan (λ rb found t h. inr (found t h)) (plan-IsIn plan))

module _ (st : Setting) (trials : ℕ → Trial) (plan : Planned) where
  underway-IsOrderly :
      (e : ClientError) (p : Progress) (calls : List Call)
      → IsUnderway st plan p calls
      → IsOrderly st plan (err e) calls
  underway-IsOrderly e p calls v = record {
    few = v.few;
    planned = v.planned;
    fair = v.fair;
    listed = tt;
  }

  go_on-IsOrderly :
      (stopped : Finished) (continued : Progress → World → Finished) (t : Turn)
      → IsOrderly st plan stopped.0 stopped.1.calls
      → ((p : Progress) (w : World)
          → IsUnderway st plan p w.calls
          → IsOrderly st plan (continued p w).0 (continued p w).1.calls)
      → GoodTurn st plan t
      → IsOrderly st plan (go_on stopped continued t).0 (go_on stopped continued t).1.calls
  go_on-IsOrderly stopped continued leave h k good = h
  go_on-IsOrderly stopped continued (finish r w) h k good = good
  go_on-IsOrderly stopped continued (next p w) h k good = k p w good

  failover_from :
      (n : ℕ) (rest : Planned) (p : Progress) (w : World)
      → All (IsIn plan) rest
      → IsUnderway st plan p w.calls
      → IsOrderly st plan (failover st trials n rest p w).0 (failover st trials n rest p w).1.calls
  unfolding failover
  failover_from n [] p w found v = underway-IsOrderly _ p w.calls v
  failover_from n ((route, budget) ∷ rest) p w found v =
      go_on-IsOrderly _ _ (turn st (trials n) route budget p w) (underway-IsOrderly _ p w.calls v)
        (λ q u good. failover_from (suc n) rest q u found.1 good)
        (turn_good st plan (trials n) route budget p w found.0 v)

-- In a run that has made no call before, whatever the providers answer and however long they take:
-- at most `max_attempts` calls are made; each is of a planned route, for no longer than the budget
-- of a plan's entry for that route and the caller's limit; no provider is called again after a call
-- found that the provider itself fails; and a response lists one attempt for each call.
pub failover-IsOrderly :
    (st : Setting) (trials : ℕ → Trial) (plan : Planned) (w : World)
    → w.calls ≡ []
    → IsOrderly st plan
        (failover st trials 0 plan start w).0
        (failover st trials 0 plan start w).1.calls
failover-IsOrderly st trials plan w none_yet =
    failover_from st trials plan 0 plan start w (plan-IsIn plan) (
      rw none_yet
        (record { counted = refl; few = omega arith; planned = tt; fair = tt; known = tt }))

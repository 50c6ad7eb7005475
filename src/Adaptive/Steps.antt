-- ===== src/Adaptive/Steps.antt =====
-- src/subllm/adaptive.py: what one turn of the loop of `execute` does.
use subllm.Prelude.{
  ℕ, suc, ◌-◌, ◌≤◌, min, String, ◌≡◌, refl, Bool, true, false, not, and_parts, not-true, inl, inr,
  ◌⊎◌, Option, none, some, List, [], ◌∷◌, arith, keep, leb, length, length-append, Result, ok, err,
  if◌then◌else◌, All, All-keep, All-both, ◌==◌, subst, ap, ◌∙◌,
}
use subllm.Adaptive.Classes.{failure_kind, check_response}
use subllm.Adaptive.Least.{IsLeast, first-IsLeast, All-sort_by}
use subllm.Adaptive.Observed.{Row, observations, status_of}
use subllm.Adaptive.Rank.{rank, sort_by}
use subllm.Adaptive.Turn.{
  Job, Round, World, Pick, Key, key_in, Progress, Turn, leave, finish, next, is_ok_row, is_fresh,
  note, with_failure, with_success, fail_with, with_kind, provider_level, settle, attempt, call_of,
  try_first, with_order, turn,
}
use subllm.Client.Outcome.{CompletionResponse, ClientError, AttemptError, Outcome, answered, failed}
use subllm.Health.File.{OverflowError}
use subllm.Health.Leaves.{keep-All, Leaves, order-Leaves}
use subllm.Health.Store.{Host}
use subllm.Types.{ResolvedRoute}

-- A response lists so many attempts.
abbrev pub Lists : Result ClientError CompletionResponse → ℕ → Type 0
Lists (ok r) n = length r.attempts ≡ n
Lists (err e) n = Unit

-- After a call: the calls stay, and one attempt is noted.
abbrev Settled : Progress → World → Turn → Type 0
Settled p w (leave v) = ⊥
Settled p w (finish r v) = (v.picks ≡ w.picks) × Lists r (suc (length p.attempts))
Settled p w (next q v) =
    (v.picks ≡ w.picks)
    × (q.attempted ≡ p.attempted)
    × (length q.attempts ≡ suc (length p.attempts))

note-length :
    (p : Progress) (route : ResolvedRoute) (outcome : String) (duration : ℕ)
    → length (note p route outcome duration).attempts ≡ suc (length p.attempts)
note-length p route outcome duration = omega (arith, length-append p.attempts (_ ∷ []))

failure-Settled :
    (p q : Progress) (w v : World) (r : Result OverflowError Host)
    → Settled p w (next q v)
    → Settled p w (with_failure q v r)
failure-Settled p q w v (ok h) g = g
failure-Settled p q w v (err x) g = (g.0, tt)

success-Settled :
    (p : Progress) (a : CompletionResponse) (w v : World) (r : Result OverflowError Host)
    → v.picks ≡ w.picks
    → length a.attempts ≡ suc (length p.attempts)
    → Settled p w (with_success a v r)
success-Settled p a w v (ok h) g l = (g, l)
success-Settled p a w v (err x) g l = (g, tt)

if-Settled :
    (p : Progress) (w : World) (b : Bool) (s t : Turn)
    → Settled p w s
    → Settled p w t
    → Settled p w (if b then s else t)
if-Settled p w true s t g h = g
if-Settled p w false s t g h = h

if_picks : (b : Bool) (v w : World) → v.picks ≡ w.picks → (if b then w else v).picks ≡ w.picks
if_picks true v w h = refl
if_picks false v w h = h

kind-Settled :
    (job : Job) (round : Round) (route : ResolvedRoute) (e : AttemptError) (kind : Option String)
    (p : Progress) (w : World)
    → Settled p w (with_kind job round route e kind p w)
unfolding fail_with
kind-Settled job round route e none p w = (refl, tt)
kind-Settled job round route e (some k) p w =
    let kept = if_picks (k == "quality_rejected") _ w refl in
    if-Settled p w (provider_level e k) _ _
      (failure-Settled p (note p route k round.duration) w _ _
        (kept, refl, note-length p route k round.duration))
      (kept, refl, note-length p route k round.duration)

settle-Settled :
    (job : Job) (round : Round) (route : ResolvedRoute) (p : Progress) (w : World) (o : Outcome)
    → Settled p w (settle job round route p w o)
unfolding settle
settle-Settled job round route p w (answered r) =
    success-Settled p _ w _ _ refl (note-length p route "success" round.duration)
settle-Settled job round route p w (failed r e) =
    kind-Settled job round route e (failure_kind e) p w

-- What holds of a call when it is made.
pub record IsSound (P : ResolvedRoute → Type 0) (job : Job) (c : Pick) : Type 0 where
  pub eligible : P c.route
  pub working : is_ok_row (status_of c.route.provider c.route.model c.observed) ≡ true
  pub least : All (IsLeast (rank job.levels job.tier job.requested c.observed) c.route) c.candidates
  pub within_limit : c.timeout ≤ job.timeout
  pub within_budget : c.timeout ≤ job.budget c.route

abbrev pub key_of : Pick → Key
key_of c = (c.route.provider, c.route.model)

-- One new call, of a provider and model that were not attempted before.
abbrev pub Called : (ResolvedRoute → Type 0) → Job → Progress → World → World → Pick → Type 0
Called P job p w v c =
    (v.picks ≡ c ∷ w.picks) × IsSound P job c × (key_in p.attempted c.route ≡ false)

abbrev pub GoodTurn : (ResolvedRoute → Type 0) → Job → Progress → World → Turn → Type 0
GoodTurn P job p w (leave v) = v.picks ≡ w.picks
GoodTurn P job p w (finish r v) =
    ((v.picks ≡ w.picks) × (e : ClientError) × (r ≡ err e))
    ⊎ ((c : Pick) × Called P job p w v c × Lists r (suc (length p.attempts)))
GoodTurn P job p w (next q v) =
    (c : Pick) × Called P job p w v c
    × (q.attempted ≡ key_of c ∷ p.attempted)
    × (length q.attempts ≡ suc (length p.attempts))

Settled-GoodTurn :
    (P : ResolvedRoute → Type 0) (job : Job) (p q : Progress) (w v : World) (c : Pick) (t : Turn)
    → v.picks ≡ c ∷ w.picks
    → IsSound P job c
    → key_in p.attempted c.route ≡ false
    → q.attempted ≡ key_of c ∷ p.attempted
    → q.attempts ≡ p.attempts
    → Settled q v t
    → GoodTurn P job p w t
Settled-GoodTurn P job p q w v c (leave x) made sound new keyed same h = absurd h
Settled-GoodTurn P job p q w v c (finish r x) made sound new keyed same h =
    inr (c, (h.0 ∙ made, sound, new), subst (λ l. Lists r (suc (length l))) same h.1)
Settled-GoodTurn P job p q w v c (next z x) made sound new keyed same h =
    (c, (h.0 ∙ made, sound, new), h.1 ∙ keyed, h.2 ∙ ap (λ l. suc (length l)) same)

attempt-GoodTurn :
    (P : ResolvedRoute → Type 0) (job : Job) (round : Round) (p : Progress) (w v : World)
    (r : ResolvedRoute) (timeout : ℕ) (rs : List ResolvedRoute) (observed : List Row)
    → w.picks ≡ v.picks
    → IsSound P job (call_of r timeout rs observed)
    → key_in p.attempted r ≡ false
    → GoodTurn P job p v (
        attempt job round r timeout p
          (record w { picks = call_of r timeout rs observed ∷ w.picks }))
unfolding attempt
attempt-GoodTurn P job round p w v r timeout rs observed same sound new =
    let tried : Progress = record p { attempted = (r.provider, r.model) ∷ p.attempted } in
    let called : World = record w { picks = call_of r timeout rs observed ∷ w.picks } in
    Settled-GoodTurn P job p tried v called (call_of r timeout rs observed) _
      (ap (λ l. call_of r timeout rs observed ∷ l) same) sound new refl refl
      (settle-Settled job round r tried called
        (check_response job.loads job.format (round.invoke r timeout)))

if-GoodTurn :
    (P : ResolvedRoute → Type 0) (job : Job) (p : Progress) (w : World) (b : Bool) (s t : Turn)
    → GoodTurn P job p w s
    → GoodTurn P job p w t
    → GoodTurn P job p w (if b then s else t)
if-GoodTurn P job p w true s t g h = g
if-GoodTurn P job p w false s t g h = h

-- A candidate that may be called.
abbrev IsReady : (ResolvedRoute → Type 0) → Progress → List Row → ResolvedRoute → Type 0
IsReady P p observed r = P r × (is_fresh p.attempted observed r ≡ true)

try_first-GoodTurn :
    (P : ResolvedRoute → Type 0) (job : Job) (round : Round) (rs : List ResolvedRoute)
    (observed : List Row) (p : Progress) (w v : World) (sorted : List ResolvedRoute)
    → w.picks ≡ v.picks
    → sort_by (rank job.levels job.tier job.requested observed) rs ≡ sorted
    → All (IsReady P p observed) rs
    → GoodTurn P job p v (try_first job round rs observed p w sorted)
unfolding try_first
try_first-GoodTurn P job round rs observed p w v [] same e h = same
try_first-GoodTurn P job round rs observed p w v (r ∷ rest) same e h =
    let key = rank job.levels job.tier job.requested observed in
    let first : IsReady P p observed r =
      (subst (All (IsReady P p observed)) e (All-sort_by key (IsReady P p observed) rs h)).0 in
    let fresh =
      and_parts (not (key_in p.attempted r)) (is_ok_row (status_of r.provider r.model observed))
        first.1 in
    if-GoodTurn P job p v (leb job.timeout round.elapsed) _ _ same (
      attempt-GoodTurn P job round p w v r (min (job.timeout - round.elapsed) (job.budget r)) rs
        observed same
        (record {
          eligible = first.0;
          working = fresh.1;
          least = first-IsLeast key rs rest r e;
          within_limit = omega arith;
          within_budget = omega arith;
        })
        (not-true (key_in p.attempted r) fresh.0))

order-GoodTurn :
    (P : ResolvedRoute → Type 0) (job : Job) (round : Round) (observed : List Row) (p : Progress)
    (w : World) (o : Result OverflowError (List ResolvedRoute × Host))
    → Leaves (IsReady P p observed) o
    → GoodTurn P job p w (with_order job round observed p w o)
order-GoodTurn P job round observed p w (err x) h = inl (refl, _, refl)
order-GoodTurn P job round observed p w (ok (rs, host)) h =
    try_first-GoodTurn P job round rs observed p (record w { host = host }) w _ refl refl h

-- A turn that does not raise before its call makes at most one, and a sound one.
pub turn-GoodTurn :
    (P : ResolvedRoute → Type 0) (job : Job) (round : Round) (p : Progress) (w : World)
    → All P job.eligible
    → GoodTurn P job p w (turn job round p w)
unfolding turn
turn-GoodTurn P job round p w all =
    let observed = observations round.reads round.read_at job.config job.format w.database in
    order-GoodTurn P job round observed p w _ (
      order-Leaves (IsReady P p observed) round.io round.again job.path round.health_at
        (keep (is_fresh p.attempted observed) job.eligible) w.host
        (All-both P (λ r. is_fresh p.attempted observed r ≡ true) _
          (keep-All P (is_fresh p.attempted observed) job.eligible all)
          (All-keep (is_fresh p.attempted observed) job.eligible)))

-- ===== src/Adaptive/Turn.antt =====
-- src/subllm/adaptive.py: one turn of the loop of `execute`. What a turn reads of the clock, the
-- database, the health store and the provider is a `Round`, a parameter; times are in microseconds.
use subllm.Prelude.{
  ℕ, ◌-◌, min, String, ◌==◌, Bool, true, false, not, ◌&&◌, ◌||◌, Option, none, some, List, [], ◌∷◌,
  ◌++◌, keep, leb, Result, ok, err, if◌then◌else◌,
}
use subllm.Dict.{Dict}
use subllm.Json.{Json}
use subllm.Adaptive.Classes.{failure_kind, check_response}
use subllm.Adaptive.Config.{Config, Tier}
use subllm.Adaptive.Observed.{Row, Database, save, observations, status_of}
use subllm.Adaptive.Rank.{rank, sort_by}
use subllm.Client.Outcome.{
  CompletionAttempt, CompletionResponse, ClientError, completion, raised, AttemptError, retryable,
  fatal, Outcome, answered, failed,
}
use subllm.Health.Entry.{round_ms}
use subllm.Health.File.{OverflowError}
use subllm.Health.Routing.{order_with_last_resort}
use subllm.Health.Store.{Host, Io, record_failure, record_success}
use subllm.PolicyConfig.{ExecutionPolicyConfig}
use subllm.Types.{ResolvedRoute}

pub record Round : Type 0 where
  -- the reading of the observations, and the clock at it
  pub reads : Bool
  pub read_at : ℕ
  -- the two readings of the health store, and the clock at them
  pub io : Io
  pub again : Io
  pub health_at : ℕ
  -- the time since `deadline` was set, where `remaining` is computed
  pub elapsed : ℕ
  pub duration : ℕ
  pub invoke : ResolvedRoute → ℕ → Outcome
  -- the writing of the observation and of the health store
  pub writes : Bool
  pub saved_at : ℕ
  pub record_io : Io
  pub recorded_at : ℕ

-- What `execute` is called with, and what it works out before the loop.
pub record Job : Type 0 where
  pub config : Config
  pub requested : String
  pub tier : Tier
  pub levels : Dict ℕ
  pub format : String
  pub eligible : List ResolvedRoute
  pub timeout : ℕ
  pub execution : ExecutionPolicyConfig
  -- `_state_path(environ)`
  pub path : String
  -- `resolve_attempt_timeout`
  pub budget : ResolvedRoute → ℕ
  -- `json.loads`
  pub loads : String → Option Json

-- A call of `invoke`, the candidates that it was picked from, and the observations at that time.
pub record Pick : Type 0 where
  pub route : ResolvedRoute
  pub timeout : ℕ
  pub candidates : List ResolvedRoute
  pub observed : List Row

-- The stores, and the calls so far, the newest first.
pub record World : Type 0 where
  pub host : Host
  pub database : Database
  pub picks : List Pick

abbrev pub Key : Type 0
Key = String × String

abbrev pub key_in : List Key → ResolvedRoute → Bool
key_in [] r = false
key_in ((provider, model) ∷ rest) r = (provider == r.provider && model == r.model) || key_in rest r

-- `attempts`, `attempted`
pub record Progress : Type 0 where
  pub attempts : List CompletionAttempt
  pub attempted : List Key

abbrev pub begin : Progress
begin = record { attempts = []; attempted = [] }

pub data Turn : Type 0 where
  leave : World → Turn
  finish : Result ClientError CompletionResponse → World → Turn
  next : Progress → World → Turn

abbrev pub is_ok_row : Option Row → Bool
is_ok_row none = true
is_ok_row (some r) = r.status == "ok"

-- The condition on a candidate.
abbrev pub is_fresh : List Key → List Row → ResolvedRoute → Bool
is_fresh attempted observed r =
    not (key_in attempted r) && is_ok_row (status_of r.provider r.model observed)

abbrev pub attempt_of : ResolvedRoute → String → ℕ → CompletionAttempt
attempt_of route outcome duration = record {
  provider = route.provider;
  model = route.wire_model;
  outcome = outcome;
  duration_ms = round_ms duration;
  diagnostic_code = none;
}

abbrev pub note : Progress → ResolvedRoute → String → ℕ → Progress
note p route outcome duration = record p {
  attempts = p.attempts ++ (attempt_of route outcome duration ∷ []);
}

-- `getattr(exc, "provider_level", kind in {...})`
abbrev pub provider_level : AttemptError → String → Bool
provider_level (retryable e) kind = e.provider_level
provider_level (fatal e) kind = kind == "http_401" || kind == "http_402" || kind == "http_403"

abbrev error_of : AttemptError → ClientError
error_of (fatal e) = e
error_of (retryable e) = completion e.message e.diagnostic_code

abbrev overflow : ClientError
overflow = raised "OverflowError"

abbrev pub with_failure : Progress → World → Result OverflowError Host → Turn
with_failure p w (ok h) = next p (record w { host = h })
with_failure p w (err x) = finish (err overflow) w

abbrev pub with_success : CompletionResponse → World → Result OverflowError Host → Turn
with_success r w (ok h) = finish (ok r) (record w { host = h })
with_success r w (err x) = finish (err overflow) w

-- The `except`, for an error of the kind.
unfoldable pub fail_with :
    Job → Round → ResolvedRoute → AttemptError → String → Progress → World → Turn
fail_with job round route e kind p w =
    let saved : World = if kind == "quality_rejected" then w else record w {
      database = save round.writes round.saved_at route job.format kind round.duration w.database;
    } in
    let noted : Progress = note p route kind round.duration in
    if provider_level e kind
    then with_failure noted saved (
        record_failure round.record_io job.path route.provider kind round.duration job.execution
          round.recorded_at saved.host)
    else next noted saved

abbrev pub with_kind :
    Job → Round → ResolvedRoute → AttemptError → Option String → Progress → World → Turn
with_kind job round route e none p w = finish (err (error_of e)) w
with_kind job round route e (some kind) p w = fail_with job round route e kind p w

-- What follows `invoke` and `_check_response`.
unfoldable pub settle : Job → Round → ResolvedRoute → Progress → World → Outcome → Turn
settle job round route p w (answered r) =
    let saved : World = record w {
      database = save round.writes round.saved_at route job.format "ok" round.duration w.database;
    } in
    with_success (record r { attempts = (note p route "success" round.duration).attempts }) saved
      (record_success round.record_io job.path route.provider round.duration job.execution
        round.recorded_at saved.host)
settle job round route p w (failed r e) = with_kind job round route e (failure_kind e) p w

-- `attempted.add(...)`, the call and its outcome
unfoldable pub attempt : Job → Round → ResolvedRoute → ℕ → Progress → World → Turn
attempt job round route timeout p w =
    settle job round route (record p { attempted = (route.provider, route.model) ∷ p.attempted }) w
      (check_response job.loads job.format (round.invoke route timeout))

abbrev pub call_of : ResolvedRoute → ℕ → List ResolvedRoute → List Row → Pick
call_of route timeout candidates observed = record {
  route = route;
  timeout = timeout;
  candidates = candidates;
  observed = observed;
}

-- From the sorted candidates on.
unfoldable pub try_first :
    Job → Round → List ResolvedRoute → List Row → Progress → World → List ResolvedRoute → Turn
try_first job round candidates observed p w [] = leave w
try_first job round candidates observed p w (route ∷ rest) =
    if leb job.timeout round.elapsed
    then leave w
    else let timeout = min (job.timeout - round.elapsed) (job.budget route) in
      attempt job round route timeout p
        (record w { picks = call_of route timeout candidates observed ∷ w.picks })

abbrev pub with_order :
    Job
    → Round
    → List Row
    → Progress
    → World
    → Result OverflowError (List ResolvedRoute × Host)
    → Turn
with_order job round observed p w (err x) = finish (err overflow) w
with_order job round observed p w (ok (rs, h)) =
    try_first job round rs observed p (record w { host = h })
      (sort_by (rank job.levels job.tier job.requested observed) rs)

unfoldable pub turn : Job → Round → Progress → World → Turn
turn job round p w =
    let observed = observations round.reads round.read_at job.config job.format w.database in
    with_order job round observed p w (
      order_with_last_resort round.io round.again job.path round.health_at
        (keep (is_fresh p.attempted observed) job.eligible) w.host)

-- ===== src/Client/Attempt.antt =====
-- src/subllm/client_routes.py: `_complete_route` and one turn of the loop of `complete`. A turn of
-- the loop reads the clock and calls a provider: what they give is a `Trial`, a parameter.
use subllm.Prelude.{
  ℕ, ◌-◌, String, Bool, false, List, [], ◌∷◌, ◌++◌, ◌==◌, ◌⧺◌, Option, none, some, Result, ok, err,
  if◌then◌else◌, leb, min, contains, length, is_empty,
}
use subllm.Client.Outcome.{
  CompletionAttempt, CompletionResponse, RetryableAttemptError, ClientError, completion, raised,
  Outcome, answered, failed, retryable, fatal, attempt_diagnostic_code, chain_exhausted,
}
use subllm.Dict.{Dict}
use subllm.Json.{Json}
use subllm.Health.File.{OverflowError}
use subllm.Health.Entry.{round_ms}
use subllm.Health.Store.{Host, Io, record_failure, record_success}
use subllm.PolicyConfig.{ExecutionPolicyConfig}
use subllm.Types.{ResolvedRoute}

-- The clock's readings in one turn, in microseconds since `started_at`; the wall clock and the
-- operating system as health.py meets them; and the provider's answer to a call with a timeout.
pub record Trial : Type 0 where
  pub elapsed : ℕ
  pub duration : ℕ
  pub now : ℕ
  pub io : Io
  pub invoke : ResolvedRoute → ℕ → Outcome

-- What `_complete_route` hands to `begin_attempt`, `finish_attempt` and `record_attempt`.
pub record Call : Type 0 where
  pub request_id : String
  pub route : ResolvedRoute
  pub timeout : ℕ
  pub status : String
  pub diagnostic_code : Option String
  pub usage : Dict Json
  -- `exc.provider_level` of the error, if it is retryable
  pub provider_level : Bool

-- The state that `complete` works on: the health stores, and the calls so far, the newest first.
pub record World : Type 0 where
  pub host : Host
  pub calls : List Call

pub record Setting : Type 0 where
  pub application : String
  pub function : String
  pub request_id : String
  -- `_state_path(timeout_environment)`
  pub path : String
  pub caller_limit : ℕ
  pub execution : ExecutionPolicyConfig

-- `exc.diagnostic_code or _attempt_diagnostic_code(exc.outcome)`
unfoldable pub diagnostic : RetryableAttemptError → String
diagnostic e = elim e.diagnostic_code [
  | none ↦ attempt_diagnostic_code e.outcome
  | some code ↦ if code == "" then attempt_diagnostic_code e.outcome else code
]

abbrev fatal_diagnostic : ClientError → String
fatal_diagnostic (completion message (some code)) =
    if code == "" then "SUBLLM-ATTEMPT-FAILED" else code
fatal_diagnostic _ = "SUBLLM-ATTEMPT-FAILED"

abbrev usage_of : Outcome → Dict Json
usage_of (answered r) = r.usage
usage_of (failed (some r) e) = r.usage
usage_of (failed none e) = []

abbrev status_of : Outcome → String
status_of (answered r) = "success"
status_of (failed r e) = "error"

abbrev diagnostic_of : Outcome → Option String
diagnostic_of (answered r) = none
diagnostic_of (failed r (retryable e)) = some (diagnostic e)
diagnostic_of (failed r (fatal e)) = some (fatal_diagnostic e)

abbrev pub is_provider_failure : Outcome → Bool
is_provider_failure (failed r (retryable e)) = e.provider_level
is_provider_failure _ = false

-- The record that the `finally` of `_complete_route` leaves.
unfoldable pub call_of : Setting → ResolvedRoute → ℕ → Outcome → Call
call_of st route timeout outcome = record {
  request_id = st.request_id;
  route = route;
  timeout = timeout;
  status = status_of outcome;
  diagnostic_code = diagnostic_of outcome;
  provider_level = is_provider_failure outcome;
  usage = usage_of outcome;
}

-- `attempts`, `failed_providers`; `last_error` only chains exceptions.
pub record Progress : Type 0 where
  pub attempts : List CompletionAttempt
  pub failed_providers : List String

abbrev pub start : Progress
start = record { attempts = []; failed_providers = [] }

-- `summary`
abbrev summary : List CompletionAttempt → String
summary [] = ""
summary (a ∷ []) = a.provider ⧺ "/" ⧺ a.model ⧺ ":" ⧺ a.outcome
summary (a ∷ more) = a.provider ⧺ "/" ⧺ a.model ⧺ ":" ⧺ a.outcome ⧺ ", " ⧺ summary more

-- The error after the loop.
unfoldable pub exhausted : Setting → Progress → ClientError
exhausted st p =
    completion
      ("all bounded candidates failed for "
        ⧺ st.application
        ⧺ "/"
        ⧺ st.function
        ⧺ ": "
        ⧺ (if is_empty p.attempts then "total_timeout" else summary p.attempts))
      (some chain_exhausted)

-- How a turn of the loop ends: `break`, the end of `complete`, or the next turn.
pub data Turn : Type 0 where
  leave : Turn
  finish : Result ClientError CompletionResponse → World → Turn
  next : Progress → World → Turn

-- `attempts.append(CompletionAttempt(...))`
abbrev pub noted : Progress → ResolvedRoute → String → ℕ → Option String → List CompletionAttempt
noted p route outcome duration code =
    p.attempts
    ++ record {
      provider = route.provider;
      model = route.wire_model;
      outcome = outcome;
      duration_ms = round_ms duration;
      diagnostic_code = code;
    }
      ∷ []

abbrev overflow : ClientError
overflow = raised "OverflowError"

-- After a retryable error: `raise`, or `continue`.
abbrev pub retry : Setting → RetryableAttemptError → Progress → World → Turn
retry st e p w =
    if st.execution.failover_enabled
    then next p w
    else finish (err (completion e.message (some (diagnostic e)))) w

abbrev pub with_failure :
    Setting → RetryableAttemptError → Progress → World → Result OverflowError Host → Turn
with_failure st e p w (ok h) = retry st e p (record w { host = h })
with_failure st e p w (err x) = finish (err overflow) w

abbrev pub with_success : CompletionResponse → World → Result OverflowError Host → Turn
with_success r w (ok h) = finish (ok r) (record w { host = h })
with_success r w (err x) = finish (err overflow) w

-- The `except` and what follows it.
unfoldable pub settle : Setting → Trial → ResolvedRoute → Progress → World → Outcome → Turn
settle st trial route p w (answered r) =
    with_success (record r { attempts = noted p route "success" trial.duration none }) w
      (record_success trial.io st.path route.provider trial.duration st.execution trial.now w.host)
settle st trial route p w (failed r (retryable e)) =
    let attempts : List CompletionAttempt =
      noted p route e.outcome trial.duration (some (diagnostic e)) in
    if e.provider_level
    then with_failure st e
        (record { attempts = attempts; failed_providers = route.provider ∷ p.failed_providers }) w
        (record_failure trial.io st.path route.provider e.outcome trial.duration st.execution
          trial.now w.host)
    else retry st e (record p { attempts = attempts }) w
settle st trial route p w (failed r (fatal e)) = finish (err e) w

-- `_complete_route` with its record, and then the turn's end.
unfoldable pub attempt : Setting → Trial → ResolvedRoute → ℕ → Progress → World → Turn
attempt st trial route timeout p w =
    let outcome : Outcome = trial.invoke route timeout in
    settle st trial route p (record w { calls = call_of st route timeout outcome ∷ w.calls })
      outcome

unfoldable pub turn : Setting → Trial → ResolvedRoute → ℕ → Progress → World → Turn
turn st trial route budget p w =
    if leb st.execution.max_attempts (length p.attempts)
    then leave
    else if contains p.failed_providers route.provider
    then next p w
    else if leb st.caller_limit trial.elapsed
    then leave
    else attempt st trial route (min (st.caller_limit - trial.elapsed) budget) p w

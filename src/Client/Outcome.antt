-- ===== src/Client/Outcome.antt =====
-- src/subllm/client_types.py: what one attempt and a completion give, and the errors they raise.
use subllm.Prelude.{String, Bool, ◌||◌, ◌==◌, List, Option, ℕ, if◌then◌else◌}
use subllm.Dict.{Dict}
use subllm.Json.{Json}

pub record CompletionAttempt : Type 0 where
  pub provider : String
  pub model : String
  pub outcome : String
  pub duration_ms : ℕ
  pub diagnostic_code : Option String

pub record CompletionResponse : Type 0 where
  pub content : String
  pub provider : String
  pub model : String
  pub usage : Dict Json
  pub finish_reason : String
  pub attempts : List CompletionAttempt
  pub raw : Dict Json

-- `_RetryableAttemptError`
pub record RetryableAttemptError : Type 0 where
  pub message : String
  pub outcome : String
  pub provider_level : Bool
  pub diagnostic_code : Option String

-- What leaves `complete` when it raises: a `CompletionError`, or any other exception by its class.
pub data ClientError : Type 0 where
  completion : String → Option String → ClientError
  raised : String → ClientError

pub data AttemptError : Type 0 where
  retryable : RetryableAttemptError → AttemptError
  fatal : ClientError → AttemptError

-- How `_invoke_route` and the acceptance of its response end: an error may come after the response.
pub data Outcome : Type 0 where
  answered : CompletionResponse → Outcome
  failed : Option CompletionResponse → AttemptError → Outcome

-- `_attempt_diagnostic_code`
unfoldable pub attempt_diagnostic_code : String → String
attempt_diagnostic_code outcome =
    if outcome == "quota_exhausted"
    then "SUBLLM-PROVIDER-QUOTA-EXHAUSTED"
    else if outcome == "invalid_response" || outcome == "quality_rejected"
    then "SUBLLM-RESPONSE-QUALITY-REJECTED"
    else if outcome == "http_429"
    then "SUBLLM-PROVIDER-RATE-LIMIT"
    else "SUBLLM-PROVIDER-UNAVAILABLE"

abbrev pub chain_exhausted : String
chain_exhausted = "SUBLLM-PROVIDER-CHAIN-EXHAUSTED"

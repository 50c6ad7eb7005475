-- ===== src/Client/Routes.antt =====
-- src/subllm/client_routes.py: `_requested_model_routes` and `complete`. The routes that have a
-- credential, the resolved timeouts and the acceptance rules are given, or what their code raises; an
-- adaptive route is run by other code, the parameter `adaptive`.
use subllm.Prelude.{
  ℕ, suc, String, Bool, List, [], ◌∷◌, ◌&&◌, not, ◌==◌, ◌⧺◌, Option, none, some, Result, ok, err,
  if◌then◌else◌, leb, ltb, is_space, keep, all, contains, length, is_empty, codes, require, ◌>>◌,
  ◌>>=◌,
}
use subllm.Client.Attempt.{
  Setting, Trial, World, Progress, start, Turn, leave, finish, next, turn, exhausted,
}
use subllm.Client.Outcome.{CompletionResponse, ClientError, completion, raised, chain_exhausted}
use subllm.Client.Vision.{Message, validate_vision_messages}
use subllm.Health.File.{OverflowError}
use subllm.Health.Routing.{order_with_last_resort}
use subllm.Health.Store.{Host, Io}
use subllm.Json.{Json}
use subllm.Types.{ResolvedRoute}

abbrev pub Finished : Type 0
Finished = Result ClientError CompletionResponse × World

-- After a turn: `stopped` on `break`, `continued` on `continue`.
abbrev pub go_on : Finished → (Progress → World → Finished) → Turn → Finished
go_on stopped continued leave = stopped
go_on stopped continued (finish r w) = (r, w)
go_on stopped continued (next p w) = continued p w

-- The loop. The `n`-th turn meets the `n`-th trial.
unfoldable pub failover :
    Setting → (ℕ → Trial) → ℕ → List (ResolvedRoute × ℕ) → Progress → World → Finished
failover st trials n [] p w = (err (exhausted st p), w)
failover st trials n ((route, budget) ∷ rest) p w =
    go_on (err (exhausted st p), w) (λ q v. failover st trials (suc n) rest q v)
      (turn st (trials n) route budget p w)

abbrev is_requested : String → ResolvedRoute → Bool
is_requested model r =
    contains
      (r.model
        ∷ r.wire_model
        ∷ r.litellm_model
        ∷ (r.provider ⧺ "/" ⧺ r.model)
        ∷ (r.provider ⧺ "/" ⧺ r.wire_model)
        ∷ [])
      model

unfoldable pub requested_model_routes :
    List ResolvedRoute → Option String → Result ClientError (List ResolvedRoute)
requested_model_routes routes none = ok routes
requested_model_routes routes (some model) =
    let selected = keep (is_requested model) routes in
    if is_empty selected
    then err (completion "requested model is not available in the configured route" none)
    else ok selected

-- The test on an explicit model.
unfoldable pub check_model : Option String → Result ClientError (Unit {0})
check_model none = ok tt
check_model (some model) =
    require (not (all is_space (codes model)) && leb (length (codes model)) 200)
      (completion "model must be a nonempty string of at most 200 characters" none)

-- The alias of the route stands for no model.
unfoldable pub explicit_model : Setting → Option String → Option String
explicit_model st none = none
explicit_model st (some model) =
    if model == st.application ⧺ "/" ⧺ st.function then none else some model

-- What `complete` takes from the code around it.
pub record Calls : Type 0 where
  -- `available_routes` and the names of the credentials of `configured_routes`
  pub available : Result ClientError (List ResolvedRoute)
  pub required : Result ClientError String
  -- whether `load_policy_config` raises: what it returns is in `Setting`
  pub loaded : Result ClientError (Unit {0})
  -- `resolve_attempt_timeout`
  pub budget : ResolvedRoute → Result ClientError ℕ
  -- `adaptive.policy`: the run of an adaptive policy, if it has a rule for the route
  pub adaptive : Result ClientError (Option (World → Finished))
  -- the two readings of the health store, and the wall clock at them
  pub io : Io
  pub again : Io
  pub now : ℕ
  pub str : Json → String
  pub trials : ℕ → Trial

-- `attempt_budgets`, all of them before the first call
abbrev pub with_budgets :
    (ResolvedRoute → Result ClientError ℕ)
    → List ResolvedRoute
    → Result ClientError (List (ResolvedRoute × ℕ))
with_budgets budget [] = ok []
with_budgets budget (r ∷ rs) =
    budget r >>= λ n. with_budgets budget rs >>= λ rest. ok ((r, n) ∷ rest)

-- `routes[:1]`
abbrev pub first_only : List ResolvedRoute → List ResolvedRoute
first_only [] = []
first_only (r ∷ rs) = r ∷ []

-- From `first_route = routes[0]` to the end.
unfoldable pub run_routes : Setting → Calls → List Message → List ResolvedRoute → World → Finished
run_routes st c messages [] w = (
  err (
      completion ("all providers cooling down for " ⧺ st.application ⧺ "/" ⧺ st.function)
        (some chain_exhausted)),
  w,
)
run_routes st c messages (first ∷ rest) w =
    elim (validate_vision_messages c.str messages first.modality
      >> require (not (first.modality == "vision" && not (first.transport == "openai-compatible")))
          (completion "vision routes require an OpenAI-compatible transport" none)
      >> with_budgets c.budget (first ∷ rest)) [
        | err e ↦ (err e, w)
        | ok plan ↦ failover st c.trials 0 plan start w
      ]

-- `order_with_last_resort`, if failover is enabled
unfoldable pub ordered :
    Setting → Calls → List ResolvedRoute → Host → Result OverflowError (List ResolvedRoute × Host)
ordered st c routes h =
    if st.execution.failover_enabled
    then order_with_last_resort c.io c.again st.path c.now routes h
    else ok (first_only routes, h)

-- No route has a credential.
unfoldable pub no_credential : Setting → Calls → ClientError
no_credential st c = elim c.required [
  | err e ↦ e
  | ok required ↦
      completion
        ("no valid credential for " ⧺ st.application ⧺ "/" ⧺ st.function ⧺ "; configure one of: "
          ⧺ required)
        none
]

-- From `available_routes` to the end.
unfoldable pub run_available : Setting → Calls → List Message → Option String → World → Finished
run_available st c messages model w = elim c.available [
  | err e ↦ (err e, w)
  | ok available ↦
      if is_empty available
      then (err (no_credential st c), w)
      else elim (requested_model_routes available model >>= λ routes. c.loaded >> ok routes) [
        | err e ↦ (err e, w)
        | ok routes ↦ elim (ordered st c routes w.host) [
          | err x ↦ (err (raised "OverflowError"), w)
          | ok (left, h) ↦ run_routes st c messages left (record w { host = h })
        ]
      ]
]

-- After the tests on the arguments.
abbrev pub with_rule :
    Setting
    → Calls
    → List Message
    → Option String
    → World
    → Result ClientError (Option (World → Finished))
    → Finished
with_rule st c messages model w (err e) = (err e, w)
with_rule st c messages model w (ok none) = run_available st c messages model w
with_rule st c messages none w (ok (some run)) = run w
with_rule st c messages (some m) w (ok (some run)) =
    (err (completion "explicit model selection is not supported by this adaptive route" none), w)

unfoldable pub complete : Setting → Calls → List Message → Option String → World → Finished
complete st c messages model w =
    elim (require (not (is_empty messages))
        (completion "chat completion requires at least one message" none)
      >> require (ltb 0 st.caller_limit)
          (completion "timeout_seconds must be greater than zero" none)
      >> check_model model) [
        | err e ↦ (err e, w)
        | ok u ↦ with_rule st c messages (explicit_model st model) w c.adaptive
      ]

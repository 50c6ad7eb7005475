-- ===== src/Adaptive/Execute.antt =====
-- src/subllm/adaptive.py: `execute`. The routes of a model are given by `build_routes`.
use subllm.Prelude.{
  ℕ, zero, suc, String, ◌⧺◌, ◌==◌, Bool, true, false, not, ◌&&◌, Option, none, some, is_some, List,
  [], ◌∷◌, ◌++◌, keep, leb, ltb, all, is_empty, Result, ok, err, require, or_raise, ◌>>=◌, ◌>>◌,
  if◌then◌else◌,
}
use subllm.Dict.{Dict, lookup}
use subllm.Json.{Json, keys}
use subllm.Adaptive.Classes.{requested_class, model_levels, compatible}
use subllm.Adaptive.Config.{Config, Tier, tier_of, level}
use subllm.Adaptive.Rank.{level_of}
use subllm.Adaptive.Turn.{Job, Round, World, Progress, begin, Turn, leave, finish, next, turn}
use subllm.Client.Outcome.{
  CompletionAttempt, CompletionResponse, ClientError, completion, raised, chain_exhausted,
}
use subllm.Client.Vision.{Message}
use subllm.Policy.Overlay.{Catalog}
use subllm.PolicyConfig.{ExecutionPolicyConfig}
use subllm.Types.{ResolvedRoute, ModelSpec}

abbrev pub Finished : Type 0
Finished = Result ClientError CompletionResponse × World

abbrev summary : List CompletionAttempt → String
summary [] = "cached cooldown or elapsed budget"
summary (a ∷ []) = a.provider ⧺ "/" ⧺ a.model ⧺ ":" ⧺ a.outcome
summary (a ∷ b ∷ more) = a.provider ⧺ "/" ⧺ a.model ⧺ ":" ⧺ a.outcome ⧺ ", " ⧺ summary (b ∷ more)

-- The error after the loop.
unfoldable pub exhausted : Progress → ClientError
exhausted p =
    completion
      ("no available class-compatible working API/model within the request budget: "
        ⧺ summary p.attempts)
      (some chain_exhausted)

abbrev pub go_on : Progress → (Progress → World → Finished) → Turn → Finished
go_on p continued (leave w) = (err (exhausted p), w)
go_on p continued (finish r w) = (r, w)
go_on p continued (next q w) = continued q w

-- The loop. A turn that goes on adds one attempt, so `left` is what the bound has left of them. The
-- `n`-th turn meets the `n`-th round.
unfoldable pub rounds : Job → (ℕ → Round) → ℕ → ℕ → Progress → World → Finished
rounds job given zero n p w = (err (exhausted p), w)
rounds job given (suc left) n p w = go_on p (rounds job given left (suc n)) (turn job (given n) p w)

-- `execution.max_attempts if execution.failover_enabled else 1`
abbrev pub most_attempts : ExecutionPolicyConfig → ℕ
most_attempts e = if e.failover_enabled then e.max_attempts else 1

-- `minimum_class`
unfoldable pub raise_tier : Tier → Option String → Result ClientError Tier
raise_tier tier none = ok tier
raise_tier tier (some name) =
    or_raise (tier_of name) (completion "unknown required model class" none) >>= λ least.
    ok (if ltb (level tier) (level least) then least else tier)

-- What `execute` is called with, and what it asks of the code around it.
pub record Request : Type 0 where
  pub config : Config
  pub requested : String
  pub messages : List Message
  pub minimum_class : Option String
  pub format : String
  pub timeout : ℕ
  pub execution : ExecutionPolicyConfig
  pub path : String
  pub models : Catalog ModelSpec
  pub build_routes : String → List ResolvedRoute
  pub budget : ResolvedRoute → ℕ
  pub loads : String → Option Json

abbrev keep_if : ResolvedRoute → List ResolvedRoute → Bool → List ResolvedRoute
keep_if r rest true = r ∷ rest
keep_if r rest false = rest

-- `[r for r in routes if _compatible(r, messages, fmt)]`
unfoldable pub compatible_routes :
    Request → List ResolvedRoute → Result ClientError (List ResolvedRoute)
compatible_routes q [] = ok []
compatible_routes q (r ∷ rs) = do
  fits ← compatible q.models r q.messages q.format
  rest ← compatible_routes q rs
  ok (keep_if r rest fits)

-- The loop over the catalog.
unfoldable pub collect : Request → List String → Result ClientError (List ResolvedRoute)
collect q [] = ok []
collect q (model ∷ models) = do
  routes ← compatible_routes q (q.build_routes model)
  rest ← collect q models
  ok (routes ++ rest)

-- `d[(r.provider, r.model)] = r`
unfoldable pub put_route : ResolvedRoute → List ResolvedRoute → List ResolvedRoute
put_route r [] = r ∷ []
put_route r (x ∷ xs) =
    let rest = put_route r xs in
    if x.provider == r.provider && x.model == r.model then r ∷ xs else x ∷ rest

-- `list({(r.provider, r.model): r for r in pool}.values())`
unfoldable pub one_each : List ResolvedRoute → List ResolvedRoute → List ResolvedRoute
one_each kept [] = kept
one_each kept (r ∷ rs) = one_each (put_route r kept) rs

-- `catalog[r.model] >= LEVELS[tier]`
abbrev pub is_strong_enough : Dict ℕ → Tier → ResolvedRoute → Bool
is_strong_enough levels tier r = leb (level tier) (level_of levels r)

abbrev pub is_listed : Dict ℕ → ResolvedRoute → Bool
is_listed levels r = is_some (lookup r.model levels)

unfoldable pub eligible_routes :
    Dict ℕ → Tier → List ResolvedRoute → Result ClientError (List ResolvedRoute)
eligible_routes levels tier pool =
    require (all (is_listed levels) pool) (raised "KeyError")
    >> ok (keep (is_strong_enough levels tier) pool)

-- The part of `execute` before the loop.
unfoldable pub prepare : Request → Result ClientError Job
prepare q = do
  asked ←
      or_raise (requested_class q.config q.requested)
        (completion "requested model has no declared replacement class" none)
  tier ← raise_tier asked q.minimum_class
  require (not (is_empty q.messages) && ltb 0 q.timeout)
      (completion "messages and a positive finite timeout are required" none)
  pool ← collect q (keys (model_levels q.config))
  eligible ← eligible_routes (model_levels q.config) tier (one_each [] pool)
  require (not (is_empty eligible)) (
      completion "no enabled provider meets the requested model class"
        (some "SUBLLM-NO-EQUIVALENT-MODEL"))
  ok (record {
    config = q.config;
    requested = q.requested;
    tier = tier;
    levels = model_levels q.config;
    format = q.format;
    eligible = eligible;
    timeout = q.timeout;
    execution = q.execution;
    path = q.path;
    budget = q.budget;
    loads = q.loads;
  })

abbrev pub run_job : (ℕ → Round) → World → Result ClientError Job → Finished
run_job given w (err e) = (err e, w)
run_job given w (ok job) = rounds job given (most_attempts job.execution) 0 begin w

unfoldable pub execute : Request → (ℕ → Round) → World → Finished
execute q given w = run_job given w (prepare q)

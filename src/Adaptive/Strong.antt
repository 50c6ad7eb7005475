-- ===== src/Adaptive/Strong.antt =====
-- src/subllm/adaptive.py: the classes of the models that `execute` calls.
use subllm.Prelude.{
  ℕ, ◌≤◌, String, ◌≡◌, refl, Bool-cases, inl, inr, not, ◌&&◌, Option, none, some, List, [], arith,
  keep, ltb, is_empty, length, Result, ok, err, >>=-eq-ok, require-eq-ok, or_raise-eq-ok, guarded,
  ok-injective, some-injective, All, All-map, All-keep, if◌then◌else◌, subst, sym, ◌∙◌,
}
use subllm.Dict.{Dict}
use subllm.Json.{keys}
use subllm.Adaptive.Careful.{loop-IsCareful, NoneRepeated}
use subllm.Adaptive.Classes.{requested_class, model_levels}
use subllm.Adaptive.Config.{Tier, level, tier_of}
use subllm.Adaptive.Execute.{
  Request, raise_tier, collect, one_each, eligible_routes, is_strong_enough, prepare, run_job,
  execute, most_attempts,
}
use subllm.Adaptive.Rank.{level_of}
use subllm.Adaptive.Turn.{Job, Round, World, Pick}
use subllm.Client.Outcome.{ClientError}
use subllm.Types.{ResolvedRoute}

-- The level is as high as the minimum class, if one is given.
abbrev pub MeetsMinimum : Option String → ℕ → Type 0
MeetsMinimum none n = Unit
MeetsMinimum (some name) n = (least : Tier) × (tier_of name ≡ some least) × (level least ≤ n)

-- The level of the route's model is as high as those of the request.
abbrev pub IsStrong : Request → Tier → ResolvedRoute → Type 0
IsStrong q tier r =
    (level tier ≤ level_of (model_levels q.config) r)
    × MeetsMinimum q.minimum_class (level_of (model_levels q.config) r)

more_meets : (o : Option String) (n m : ℕ) → MeetsMinimum o n → n ≤ m → MeetsMinimum o m
more_meets none n m h le = tt
more_meets (some name) n m (least, e, below) le = (least, e, omega (arith, below, le))

raised-level :
    (tier least : Tier)
    → (level tier ≤ level (if ltb (level tier) (level least) then least else tier))
      × (level least ≤ level (if ltb (level tier) (level least) then least else tier))
raised-level tier least = elim (Bool-cases (ltb (level tier) (level least))) [
  | inl e ↦ rw e (ground (arith, e), omega arith)
  | inr e ↦ rw e (omega arith, ground (arith, e))
]

raise_tier-MeetsMinimum :
    (tier higher : Tier) (minimum : Option String)
    → raise_tier tier minimum ≡ ok higher
    → (level tier ≤ level higher) × MeetsMinimum minimum (level higher)
unfolding raise_tier
raise_tier-MeetsMinimum tier higher none h =
    subst (λ t. (level tier ≤ level t) × MeetsMinimum none (level t)) (ok-injective h)
      (omega arith, tt)
raise_tier-MeetsMinimum tier higher (some name) h =
    let (least, e, same) = or_raise-eq-ok (tier_of name) _ _ h in
    let raised_one = raised-level tier least in
    subst (λ t. (level tier ≤ level t) × MeetsMinimum (some name) (level t)) (ok-injective same)
      (raised_one.0, (least, e, raised_one.1))

eligible-All :
    (levels : Dict ℕ) (tier : Tier) (pool rs : List ResolvedRoute)
    → eligible_routes levels tier pool ≡ ok rs
    → All (λ r. level tier ≤ level_of levels r) rs
unfolding eligible_routes
eligible-All levels tier pool rs h =
    subst (All (λ r. level tier ≤ level_of levels r))
      (guarded _ (keep (is_strong_enough levels tier) pool) h).1
      (All-map _ (λ r e. ground (arith, e)) (All-keep (is_strong_enough levels tier) pool))

-- The parts of a job that `prepare` returns.
record IsPrepared (q : Request) (asked : Tier) (job : Job) : Type 0 where
  strong : All (IsStrong q asked) job.eligible
  same_execution : job.execution ≡ q.execution

prepare-IsPrepared :
    (q : Request) (asked : Tier) (job : Job)
    → requested_class q.config q.requested ≡ some asked
    → prepare q ≡ ok job
    → IsPrepared q asked job
unfolding prepare
prepare-IsPrepared q asked job known h =
    let (found, e0, h0) = or_raise-eq-ok (requested_class q.config q.requested) _ _ h in
    let (tier, e1, h1) = >>=-eq-ok (raise_tier found q.minimum_class) _ h0 in
    let (e2, h2) = require-eq-ok (not (is_empty q.messages) && ltb 0 q.timeout) _ _ h1 in
    let (pool, e3, h3) = >>=-eq-ok (collect q (keys (model_levels q.config))) _ h2 in
    let (eligible, e4, h4) =
      >>=-eq-ok (eligible_routes (model_levels q.config) tier (one_each [] pool)) _ h3 in
    let (e5, h5) = require-eq-ok (not (is_empty eligible)) _ _ h4 in
    let same : found ≡ asked = some-injective (sym e0 ∙ known) in
    let meets = raise_tier-MeetsMinimum found tier q.minimum_class e1 in
    subst (IsPrepared q asked) (ok-injective h5) (record {
      strong =
          All-map eligible
            (λ r fits. (
              subst (λ t. level t ≤ level_of (model_levels q.config) r) same
                  (omega (arith, fits, meets.0)),
              more_meets q.minimum_class (level tier) (level_of (model_levels q.config) r) meets.1
                  fits,
            ))
            (eligible-All (model_levels q.config) tier (one_each [] pool) eligible e4);
      same_execution = refl;
    })

-- The calls of a run: at most `bound`, each strong, no two of the same provider and model.
pub record IsCompatible (q : Request) (asked : Tier) (picks : List Pick) : Type 0 where
  pub few : length picks ≤ most_attempts q.execution
  pub strong : All (λ c. IsStrong q asked c.route) picks
  pub fair : NoneRepeated picks

run-IsCompatible :
    (q : Request) (asked : Tier) (given : ℕ → Round) (w : World) (r : Result ClientError Job)
    → requested_class q.config q.requested ≡ some asked
    → w.picks ≡ []
    → prepare q ≡ r
    → IsCompatible q asked (run_job given w r).1.picks
run-IsCompatible q asked given w (err e) known none_yet h =
    subst (IsCompatible q asked) (sym none_yet)
      (record { few = omega arith; strong = tt; fair = tt })
run-IsCompatible q asked given w (ok job) known none_yet h =
    let made = prepare-IsPrepared q asked job known h in
    let careful = loop-IsCareful (IsStrong q asked) job given made.strong w none_yet in
    record {
      few =
          subst (λ e. length (run_job given w (ok job)).1.picks ≤ most_attempts e)
            made.same_execution careful.few;
      strong = All-map _ (λ c s. s.eligible) careful.sound;
      fair = careful.fair;
    }

-- A request for a model with a declared class: `execute` calls only models of that class or a higher one,
-- and of the minimum class or a higher one if it is given, at most as many as the bound on attempts, and
-- no provider and model twice.
pub execute-IsCompatible :
    (q : Request) (asked : Tier) (given : ℕ → Round) (w : World)
    → requested_class q.config q.requested ≡ some asked
    → w.picks ≡ []
    → IsCompatible q asked (execute q given w).1.picks
unfolding execute
execute-IsCompatible q asked given w known none_yet =
    run-IsCompatible q asked given w (prepare q) known none_yet refl

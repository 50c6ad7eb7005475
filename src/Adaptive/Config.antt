-- ===== src/Adaptive/Config.antt =====
-- src/subllm/adaptive.py: `LEVELS` and `policy`, from the document that `json.loads` gives on. A time
-- is in microseconds, to the nearest one.
use subllm.Prelude.{
  ℕ, zero, suc, ◌*◌, ◌^◌, ◌-◌, pos, negsuc, String, ◌==◌, Option, none, some, List, [], ◌∷◌, ◌++◌,
  contains, leb, if◌then◌else◌, Result, ok, err, or_raise, ◌>>=◌,
}
use subllm.Client.Outcome.{ClientError, completion, raised}
use subllm.Dict.{Dict, lookup}
use subllm.Json.{
  Json, int, float, text, array, object, Items, nil, cons, Fields, end, field, members,
}

-- The names of `LEVELS`.
pub data Tier : Type 0 where
  any_class fast balanced strong : Tier

unfoldable pub level : Tier → ℕ
level any_class = 0
level fast = 1
level balanced = 2
level strong = 3

unfoldable pub tier_of : String → Option Tier
tier_of name =
    if name == "any"
    then some any_class
    else if name == "fast"
    then some fast
    else if name == "balanced"
    then some balanced
    else if name == "strong"
    then some strong
    else none

pub record Config : Type 0 where
  pub classes : List (Tier × List String)
  pub aliases : Dict Tier
  pub routes : Dict Tier
  pub probe_timeout : ℕ
  pub sweep_budget : ℕ
  pub ttl : ℕ
  pub sweep_interval : ℕ

infixl 5 ◌>>?◌
abbrev pub ◌>>?◌ {ℓ κ} : {A : Type ℓ} {B : Type κ} → Option A → (A → Option B) → Option B
none >>? k = none
some x >>? k = k x

-- The names of one class, none of them empty or in `seen`.
unfoldable pub read_models : List String → Items → Option (List String)
read_models seen nil = some []
read_models seen (cons (text name) rest) =
    let more = read_models (name ∷ seen) rest in
    if name == ""
    then none
    else if contains seen name
    then none
    else more >>? λ names. some (name ∷ names)
read_models seen (cons other rest) = none

-- The loop over `classes.items()`.
unfoldable pub read_classes : List String → Fields → Option (List (Tier × List String))
read_classes seen end = some []
read_classes seen (field name (array items) rest) = tier_of name >>? λ tier.
    read_models seen items >>? λ names.
    read_classes (seen ++ names) rest >>? λ more. some ((tier, names) ∷ more)
read_classes seen (field name other rest) = none

abbrev read_tier : Json → Option Tier
read_tier (text name) = tier_of name
read_tier other = none

abbrev read_tiers : Fields → Option (Dict Tier)
read_tiers end = some []
read_tiers (field k v rest) =
    read_tier v >>? λ tier. read_tiers rest >>? λ more. some ((k, tier) ∷ more)

-- `data.get(name, {})`
unfoldable pub read_table : Option Json → Option (Dict Tier)
read_table none = some []
read_table (some (object fs)) = read_tiers fs
read_table (some other) = none

-- The `CompletionError` of `policy`.
abbrev pub invalid : ClientError
invalid = completion "invalid adaptive routing policy" (some "SUBLLM-ADAPTIVE-POLICY")

abbrev positive : ℕ → Result ClientError ℕ
positive zero = err invalid
positive (suc n) = ok (suc n)

-- From here on `math.isfinite` does not turn an integer into a float.
unfoldable pub finite_limit : ℕ
finite_limit = 2 ^ 1024 - 2 ^ 970

-- `data.setdefault(key, default)` and its test. `except` does not catch an `OverflowError`.
unfoldable pub read_time : Option Json → ℕ → Result ClientError ℕ
read_time none default = ok default
read_time (some (int (pos n))) default =
    if leb finite_limit n then err (raised "OverflowError") else positive (n * 1_000_000)
read_time (some (int (negsuc n))) default =
    if leb finite_limit (suc n) then err (raised "OverflowError") else err invalid
read_time (some (float (pos n))) default = positive n
read_time (some other) default = err invalid

abbrev nonempty : Json → Option Fields
nonempty (object end) = none
nonempty (object fs) = some fs
nonempty other = none

abbrev document : Json → Option (Dict Json)
document (object fs) = some (members fs)
document other = none

-- The classes, the aliases and the routes: `none` is the `CompletionError` of `policy`.
unfoldable pub read_tables : Dict Json → Option (List (Tier × List String) × Dict Tier × Dict Tier)
read_tables d = lookup "classes" d >>? λ raw. nonempty raw >>? λ fs.
    read_classes [] fs >>? λ classes. read_table (lookup "aliases" d) >>? λ aliases.
    read_table (lookup "routes" d) >>? λ routes. some (classes, aliases, routes)

unfoldable pub read_policy : Json → Result ClientError Config
read_policy doc = do
  d ← or_raise (document doc) invalid
  (classes, aliases, routes) ← or_raise (read_tables d) invalid
  probe_timeout ← read_time (lookup "probe_timeout" d) 60_000_000
  sweep_budget ← read_time (lookup "sweep_budget" d) 180_000_000
  ttl ← read_time (lookup "ttl" d) 900_000_000
  sweep_interval ← read_time (lookup "sweep_interval" d) 300_000_000
  ok (record {
    classes = classes;
    aliases = aliases;
    routes = routes;
    probe_timeout = probe_timeout;
    sweep_budget = sweep_budget;
    ttl = ttl;
    sweep_interval = sweep_interval;
  })

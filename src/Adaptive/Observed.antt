-- ===== src/Adaptive/Observed.antt =====
-- src/subllm/adaptive.py: the database of observations. The flag of a call says whether the operating
-- system and the database serve it; a time is in microseconds.
use subllm.Prelude.{
  ℕ, ◌+◌, max, String, ◌==◌, Bool, true, false, not, ◌&&◌, Option, none, some, List, [], ◌∷◌, ◌++◌,
  keep, ltb, if◌then◌else◌,
}
use subllm.Dict.{Dict, lookup, insert}
use subllm.Adaptive.Config.{Config}
use subllm.Types.{ResolvedRoute}

-- A row of `availability`
pub record Row : Type 0 where
  pub provider : String
  pub model : String
  pub format : String
  pub status : String
  pub observed : ℕ
  pub latency : ℕ

pub record Database : Type 0 where
  pub availability : List Row
  pub sweeps : Dict ℕ

abbrev pub has_key : String → String → String → Row → Bool
has_key provider model fmt r = r.provider == provider && r.model == model && r.format == fmt

-- `INSERT OR REPLACE INTO availability`
unfoldable pub replace_row : Row → List Row → List Row
replace_row row rows =
    keep (λ r. not (has_key row.provider row.model row.format r)) rows ++ (row ∷ [])

-- `_save`
unfoldable pub save : Bool → ℕ → ResolvedRoute → String → String → ℕ → Database → Database
save works now route fmt status duration db =
    if works
    then record db {
      availability =
          replace_row
            (record {
              provider = route.provider;
              model = route.model;
              format = fmt;
              status = status;
              observed = now;
              latency = duration;
            })
            db.availability;
    }
    else db

-- `format=? AND observed>?`
abbrev pub is_recent : Config → String → ℕ → Row → Bool
is_recent config fmt now r = r.format == fmt && ltb now (r.observed + config.ttl)

-- `_observations`
unfoldable pub observations : Bool → ℕ → Config → String → Database → List Row
observations works now config fmt db =
    if works then keep (is_recent config fmt now) db.availability else []

abbrev pub later : Option Row → Option Row → Option Row
later (some x) o = some x
later none o = o

abbrev pub same_model : String → String → Row → Bool
same_model provider model r = r.provider == provider && r.model == model

-- `observed.get((provider, model))`: of two rows with the key, a `dict` has the last.
unfoldable pub status_of : String → String → List Row → Option Row
status_of provider model [] = none
status_of provider model (r ∷ rows) =
    later (status_of provider model rows) (if same_model provider model r then some r else none)

abbrev pub too_early : Config → ℕ → Option ℕ → Bool
too_early config now none = false
too_early config now (some started) =
    ltb now (started + max config.sweep_interval config.sweep_budget)

-- `_claim_sweep`
unfoldable pub claim_sweep : Bool → ℕ → Config → String → Database → Bool × Database
claim_sweep works now config fmt db =
    if works && not (too_early config now (lookup fmt db.sweeps))
    then (true, record db { sweeps = insert fmt now db.sweeps })
    else (false, db)

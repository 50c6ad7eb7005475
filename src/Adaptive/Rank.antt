-- ===== src/Adaptive/Rank.antt =====
-- src/subllm/adaptive.py: `rank` and the sort by it.
use subllm.Prelude.{
  ℕ, ◌-◌, String, ◌==◌, Bool, true, false, ◌&&◌, ◌||◌, Option, none, some, or_else, List, [], ◌∷◌,
  ltb, leb, eqb, if◌then◌else◌,
}
use subllm.Dict.{Dict, lookup}
use subllm.Adaptive.Config.{Tier, any_class, level}
use subllm.Adaptive.Observed.{Row, status_of}
use subllm.Types.{ResolvedRoute}

-- The tuple; `latency` is none where it is infinite.
pub record Rank : Type 0 where
  pub gap : ℕ
  pub priority : ℕ
  pub other : ℕ
  pub latency : Option ℕ

abbrev pub latency_leb : Option ℕ → Option ℕ → Bool
latency_leb x none = true
latency_leb none (some m) = false
latency_leb (some n) (some m) = leb n m

abbrev pub then_by : ℕ → ℕ → Bool → Bool
then_by n m rest = ltb n m || (eqb n m && rest)

-- `r <= s` of two tuples
unfoldable pub rank_leb : Rank → Rank → Bool
rank_leb r s =
    then_by r.gap s.gap
      (then_by r.priority s.priority (then_by r.other s.other (latency_leb r.latency s.latency)))

abbrev pub gap_of : Tier → ℕ → ℕ
gap_of any_class n = 0
gap_of tier n = n - level tier

abbrev pub latency_of : Option Row → Option ℕ
latency_of none = none
latency_of (some r) = some r.latency

-- `catalog[r.model]`, of a model that is in the catalog
abbrev pub level_of : Dict ℕ → ResolvedRoute → ℕ
level_of levels r = or_else (lookup r.model levels) 0

unfoldable pub rank : Dict ℕ → Tier → String → List Row → ResolvedRoute → Rank
rank levels tier requested observed r = record {
  gap = gap_of tier (level_of levels r);
  priority = r.priority;
  other = if r.model == requested then 0 else 1;
  latency = latency_of (status_of r.provider r.model observed);
}

-- `candidates.sort(key=rank)`
unfoldable pub place_by :
    (ResolvedRoute → Rank) → ResolvedRoute → List ResolvedRoute → List ResolvedRoute
place_by key r [] = r ∷ []
place_by key r (x ∷ xs) = if rank_leb (key r) (key x) then r ∷ x ∷ xs else x ∷ place_by key r xs

unfoldable pub sort_by : (ResolvedRoute → Rank) → List ResolvedRoute → List ResolvedRoute
sort_by key [] = []
sort_by key (r ∷ rs) = place_by key r (sort_by key rs)

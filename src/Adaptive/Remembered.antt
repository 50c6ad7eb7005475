-- ===== src/Adaptive/Remembered.antt =====
-- src/subllm/adaptive.py: what is saved is observed, and a sweep is claimed once in its interval.
use subllm.Prelude.{
  ℕ, ◌+◌, ◌<◌, max, String, ◌≡◌, refl, Bool, true, false, Bool-cases, not, ◌&&◌, and_parts, inl,
  inr, Option, none, some, List, [], ◌∷◌, ◌++◌, arith, keep, if◌then◌else◌, if-true, if-false, ◌==◌,
  eq_iff, eq_refl, ap, sym, ◌∙◌, subst, absurd_bool,
}
use subllm.Dict.{lookup, insert, lookup-insert}
use subllm.Adaptive.Config.{Config}
use subllm.Adaptive.Observed.{
  Row, Database, has_key, replace_row, save, is_recent, observations, later, same_model, status_of,
  too_early, claim_sweep,
}
use subllm.Types.{ResolvedRoute}

later-none : (o : Option Row) → later o none ≡ o
later-none none = refl
later-none (some r) = refl

module _ (row : Row) (provider model : String) where
  matching_last :
      (rows : List Row)
      → same_model provider model row ≡ true
      → status_of provider model (rows ++ (row ∷ [])) ≡ some row
  unfolding status_of
  matching_last [] e = rw e refl
  matching_last (r ∷ rows) e = rw (matching_last rows e) refl

  other_last :
      (rows : List Row)
      → same_model provider model row ≡ false
      → status_of provider model (rows ++ (row ∷ [])) ≡ status_of provider model rows
  unfolding status_of
  other_last [] e = rw e refl
  other_last (r ∷ rows) e =
      ap (λ o. later o (if same_model provider model r then some r else none)) (other_last rows e)

  -- A row with the new row's key is not seen under another one.
  other_key :
      (r : Row)
      → same_model provider model row ≡ false
      → has_key row.provider row.model row.format r ≡ true
      → same_model provider model r ≡ false
  other_key r e k =
      let parts = and_parts (r.provider == row.provider && r.model == row.model) _ k in
      let names = and_parts (r.provider == row.provider) (r.model == row.model) parts.0 in
      subst (λ q. (q == provider && r.model == model) ≡ false)
        (sym ((eq_iff r.provider row.provider).0 names.0))
        (subst (λ q. (row.provider == provider && q == model) ≡ false)
          (sym ((eq_iff r.model row.model).0 names.1)) e)

  module _ (recent : Row → Bool) where
    keep-last :
        recent row ≡ true
        → (rows : List Row) → keep recent (rows ++ (row ∷ [])) ≡ keep recent rows ++ (row ∷ [])
    keep-last e [] = rw e refl
    keep-last e (r ∷ rows) = elim (Bool-cases (recent r)) [
      | inl f ↦ rw (f, keep-last e rows) refl
      | inr f ↦ rw (f, keep-last e rows) refl
    ]

    -- Where its model is not asked for, dropping a row changes nothing.
    kept_first :
        (r : Row) (rows : List Row)
        → same_model provider model r ≡ false
        → status_of provider model (keep recent (r ∷ rows))
          ≡ status_of provider model (keep recent rows)
    unfolding status_of
    kept_first r rows e = elim (Bool-cases (recent r)) [
      | inl f ↦ rw (f, e) (later-none (status_of provider model (keep recent rows)))
      | inr f ↦ rw f refl
    ]

    same_first :
        (r : Row) (xs ys : List Row)
        → status_of provider model (keep recent xs) ≡ status_of provider model (keep recent ys)
        → status_of provider model (keep recent (r ∷ xs))
          ≡ status_of provider model (keep recent (r ∷ ys))
    unfolding status_of
    same_first r xs ys e = elim (Bool-cases (recent r)) [
      | inl f ↦ rw (f, e) refl
      | inr f ↦ rw (f, e) refl
    ]

    others_seen :
        (rows : List Row)
        → same_model provider model row ≡ false
        → status_of provider model
            (keep recent (keep (λ r. not (has_key row.provider row.model row.format r)) rows))
          ≡ status_of provider model (keep recent rows)
    others_seen [] e = refl
    others_seen (r ∷ rows) e = elim (Bool-cases (has_key row.provider row.model row.format r)) [
      | inl k ↦ rw (k, others_seen rows e) (sym (kept_first r rows (other_key r e k)))
      | inr k ↦ rw k (same_first r _ rows (others_seen rows e))
    ]

    seen_after :
        (rows : List Row)
        → recent row ≡ true
        → status_of provider model (keep recent (replace_row row rows)) ≡ (
            if same_model provider model row
            then some row
            else status_of provider model (keep recent rows))
    unfolding replace_row
    seen_after rows e = elim (Bool-cases (same_model provider model row)) [
      | inl f ↦ rw (keep-last e _, matching_last _ f, f) refl
      | inr f ↦ rw (keep-last e _, other_last _ f, f) (others_seen rows f)
    ]

abbrev pub row_of : ResolvedRoute → String → String → ℕ → ℕ → Row
row_of route fmt status saved_at duration = record {
  provider = route.provider;
  model = route.model;
  format = fmt;
  status = status;
  observed = saved_at;
  latency = duration;
}

-- Within the time to live after `_save`, `_observations` of the same format has the saved status and
-- duration under the provider and model of the route, and under any other it has what it would have
-- without the save.
pub save-observations :
    (config : Config) (route : ResolvedRoute) (fmt status provider model : String)
    (saved_at now duration : ℕ) (db : Database)
    → now < saved_at + config.ttl
    → status_of provider model
        (observations true now config fmt (save true saved_at route fmt status duration db))
      ≡ (if route.provider == provider && route.model == model
          then some (row_of route fmt status saved_at duration)
          else status_of provider model (observations true now config fmt db))
unfolding save observations
save-observations config route fmt status provider model saved_at now duration db fresh =
    seen_after (row_of route fmt status saved_at duration) provider model (is_recent config fmt now)
      db.availability (rw (eq_refl fmt) (ground (arith, fresh)))

claimed_at :
    (works : Bool) (at : ℕ) (config : Config) (fmt : String) (db after : Database)
    → claim_sweep works at config fmt db ≡ (true, after)
    → after ≡ record db { sweeps = insert fmt at db.sweeps }
unfolding claim_sweep
claimed_at works at config fmt db after h =
    elim (Bool-cases (works && not (too_early config at (lookup fmt db.sweeps)))) [
      | inl e ↦ sym (ap (λ o. o.1) (rw e at h))
      | inr e ↦ absurd_bool {b = false} (ap (λ o. o.0) (rw e at h)) refl
    ]

-- After a sweep of a format was claimed, no other is until the longer of the interval and the budget of a
-- sweep has passed: the claim is refused, and the database stays as it is.
pub claim_sweep-apart :
    (works again : Bool) (at now : ℕ) (config : Config) (fmt : String) (db after : Database)
    → claim_sweep works at config fmt db ≡ (true, after)
    → now < at + max config.sweep_interval config.sweep_budget
    → claim_sweep again now config fmt after ≡ (false, after)
unfolding claim_sweep
claim_sweep-apart works again at now config fmt db after h early =
    let made = claimed_at works at config fmt db after h in
    let found : lookup fmt after.sweeps ≡ some at =
      ap (λ d. lookup fmt d.sweeps) made
      ∙ (lookup-insert fmt fmt at db.sweeps ∙ if-true _ _ _ (eq_refl fmt)) in
    if-false _ _ (again && not (too_early config now (lookup fmt after.sweeps)))
      (rw found (ground (arith, early)))

-- ===== src/Dict.antt =====
-- Python's `dict` with text keys, as an association list in insertion order.
use subllm.Prelude.{
  some-injective, Bool, true, ◌&&◌, Bool-cases, inl, inr, subst, suc, ◌≤◌, String, ◌≡◌, refl,
  Option, none, some, List, [], ◌∷◌, arith, ◌==◌, eq_iff, if◌then◌else◌, length,
}

abbrev pub Dict {ℓ} : Type ℓ → Type ℓ
Dict V = List (String × V)

module _ {ℓ} {V : Type ℓ} where
  -- d.get(k)
  unfoldable pub lookup : String → Dict V → Option V
  lookup k [] = none
  lookup k ((j, v) ∷ d) = if j == k then some v else lookup k d

  -- d[k] = v: a key that is there keeps its place
  unfoldable pub insert : String → V → Dict V → Dict V
  insert k v [] = (k, v) ∷ []
  insert k v ((j, w) ∷ d) = if j == k then (j, v) ∷ d else (j, w) ∷ insert k v d

  -- d.pop(k, None)
  unfoldable pub remove : String → Dict V → Dict V
  remove k [] = []
  remove k ((j, w) ∷ d) = let rest = remove k d in if j == k then rest else (j, w) ∷ rest

  pub lookup-insert :
      (k j : String) (v : V) (d : Dict V)
      → lookup j (insert k v d) ≡ (if k == j then some v else lookup j d)
  unfolding lookup insert
  lookup-insert k j v [] = refl
  lookup-insert k j v ((i, w) ∷ d) =
      ground (arith, eq_iff k j, eq_iff i k, eq_iff i j, lookup-insert k j v d)

  pub lookup-remove :
      (k j : String) (d : Dict V) → lookup j (remove k d) ≡ (if k == j then none else lookup j d)
  unfolding lookup remove
  lookup-remove k j [] = ground arith
  lookup-remove k j ((i, v) ∷ d) =
      ground (arith, lookup-remove k j d, eq_iff i k, eq_iff i j, eq_iff k j)

  pub length-insert : (k : String) (v : V) (d : Dict V) → length (insert k v d) ≤ suc (length d)
  unfolding insert
  length-insert k v [] = omega arith
  length-insert k v ((j, w) ∷ d) = ground (arith, length-insert k v d)

  pub length-remove : (k : String) (d : Dict V) → length (remove k d) ≤ length d
  unfolding remove
  length-remove k [] = omega arith
  length-remove k ((j, w) ∷ d) = ground (arith, length-remove k d)

-- A test that every entry of a table passes holds of what a lookup finds.
abbrev pub all_entries {ℓ} : {V : Type ℓ} → (String → V → Bool) → Dict V → Bool
all_entries p [] = true
all_entries p ((k, v) ∷ d) = p k v && all_entries p d

pub lookup-all_entries {ℓ} :
    {V : Type ℓ} (p : String → V → Bool) (k : String) (d : Dict V) {v : V}
    → all_entries p d ≡ true
    → lookup k d ≡ some v
    → p k v ≡ true
unfolding lookup
lookup-all_entries p k [] a h = cc
lookup-all_entries p k ((j, w) ∷ d) {v} a h = elim (Bool-cases (j == k)) [
  | inl same ↦
      subst (λ q. p q v ≡ true) ((eq_iff j k).0 same)
        (subst (λ q. p j q ≡ true) (some-injective (rw same at h)) (ground arith))
  | inr other ↦ lookup-all_entries p k d (ground arith) (rw other at h)
]

pub ruleset dict_laws = (lookup-insert, lookup-remove)

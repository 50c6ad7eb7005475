-- ===== src/Adaptive/Least.antt =====
-- src/subllm/adaptive.py: the first of the sorted candidates has the least rank.
use subllm.Prelude.{
  ℕ, ◌≡◌, refl, Bool, true, false, Bool-cases, Option, none, some, List, [], ◌∷◌, arith, inl, inr,
  All, All-map, subst, sym,
}
use subllm.Adaptive.Rank.{Rank, latency_leb, then_by, rank_leb, place_by, sort_by}
use subllm.Types.{ResolvedRoute}

latency_leb_trans :
    (a b c : Option ℕ) → latency_leb a b ≡ true → latency_leb b c ≡ true → latency_leb a c ≡ true
latency_leb_trans a b none h g = refl
latency_leb_trans none (some m) (some n) h g = cc
latency_leb_trans none none (some n) h g = cc
latency_leb_trans (some k) none (some n) h g = cc
latency_leb_trans (some k) (some m) (some n) h g = ground (arith, h, g)

latency_leb_total : (a b : Option ℕ) → latency_leb a b ≡ false → latency_leb b a ≡ true
latency_leb_total none b h = refl
latency_leb_total (some k) none h = cc
latency_leb_total (some k) (some m) h = ground (arith, h)

then_by_trans :
    (a b c : ℕ) (p q r : Bool)
    → (p ≡ true → q ≡ true → r ≡ true)
    → then_by a b p ≡ true
    → then_by b c q ≡ true
    → then_by a c r ≡ true
then_by_trans a b c p q r f h g = ground (arith, f, h, g)

then_by_total :
    (a b : ℕ) (p q : Bool) → (p ≡ false → q ≡ true) → then_by a b p ≡ false → then_by b a q ≡ true
then_by_total a b p q f h = ground (arith, f, h)

pub rank_leb_trans :
    (r s t : Rank) → rank_leb r s ≡ true → rank_leb s t ≡ true → rank_leb r t ≡ true
unfolding rank_leb
rank_leb_trans r s t = then_by_trans r.gap s.gap t.gap _ _ _ (
    then_by_trans r.priority s.priority t.priority _ _ _ (
      then_by_trans r.other s.other t.other _ _ _
        (latency_leb_trans r.latency s.latency t.latency)))

pub rank_leb_total : (r s : Rank) → rank_leb r s ≡ false → rank_leb s r ≡ true
unfolding rank_leb
rank_leb_total r s = then_by_total r.gap s.gap _ _ (
    then_by_total r.priority s.priority _ _
      (then_by_total r.other s.other _ _ (latency_leb_total r.latency s.latency)))

module _ (key : ResolvedRoute → Rank) where
  abbrev pub IsLeast : ResolvedRoute → ResolvedRoute → Type 0
  IsLeast r x = rank_leb (key r) (key x) ≡ true

  -- The first of the list is least in it.
  abbrev LeastFirst : List ResolvedRoute → Type 0
  LeastFirst [] = Unit
  LeastFirst (r ∷ rs) = All (IsLeast r) (r ∷ rs)

  same_rank : (r : ResolvedRoute) → IsLeast r r
  same_rank r = elim (Bool-cases (rank_leb (key r) (key r))) [
    | inl e ↦ e
    | inr e ↦ rank_leb_total (key r) (key r) e
  ]

  pub All-place_by :
      (P : ResolvedRoute → Type 0) (r : ResolvedRoute) (rs : List ResolvedRoute)
      → P r
      → All P rs
      → All P (place_by key r rs)
  unfolding place_by
  All-place_by P r [] p h = (p, tt)
  All-place_by P r (x ∷ xs) p h = elim (Bool-cases (rank_leb (key r) (key x))) [
    | inl e ↦ rw e (p, h)
    | inr e ↦ rw e (h.0, All-place_by P r xs p h.1)
  ]

  pub All-sort_by :
      (P : ResolvedRoute → Type 0) (rs : List ResolvedRoute) → All P rs → All P (sort_by key rs)
  unfolding sort_by
  All-sort_by P [] h = tt
  All-sort_by P (r ∷ rs) h = All-place_by P r (sort_by key rs) h.0 (All-sort_by P rs h.1)

  placed-All :
      (P : ResolvedRoute → Type 0) (r : ResolvedRoute) (rs : List ResolvedRoute)
      → All P (place_by key r rs)
      → P r × All P rs
  unfolding place_by
  placed-All P r [] h = h
  placed-All P r (x ∷ xs) h = elim (Bool-cases (rank_leb (key r) (key x))) [
    | inl e ↦ let g = rw (e, place_by) at h in (g.0, g.1)
    | inr e ↦
        let g = rw (e, place_by) at h in let more = placed-All P r xs g.1 in (more.0, (g.0, more.1))
  ]

  sorted-All :
      (P : ResolvedRoute → Type 0) (rs : List ResolvedRoute) → All P (sort_by key rs) → All P rs
  unfolding sort_by
  sorted-All P [] h = tt
  sorted-All P (r ∷ rs) h =
      let parts = placed-All P r (sort_by key rs) h in (parts.0, sorted-All P rs parts.1)

  place-LeastFirst :
      (r : ResolvedRoute) (rs : List ResolvedRoute) → LeastFirst rs → LeastFirst (place_by key r rs)
  unfolding place_by
  place-LeastFirst r [] h = (same_rank r, tt)
  place-LeastFirst r (x ∷ xs) h = elim (Bool-cases (rank_leb (key r) (key x))) [
    | inl e ↦
        rw e (same_rank r, All-map (x ∷ xs) (λ y g. rank_leb_trans (key r) (key x) (key y) e g) h)
    | inr e ↦ rw e (h.0, All-place_by (IsLeast x) r xs (rank_leb_total (key r) (key x) e) h.1)
  ]

  sort-LeastFirst : (rs : List ResolvedRoute) → LeastFirst (sort_by key rs)
  unfolding sort_by
  sort-LeastFirst [] = tt
  sort-LeastFirst (r ∷ rs) = place-LeastFirst r (sort_by key rs) (sort-LeastFirst rs)

  -- The route that stands first after the sort has the least rank of all the candidates.
  pub first-IsLeast :
      (rs rest : List ResolvedRoute) (r : ResolvedRoute)
      → sort_by key rs ≡ r ∷ rest
      → All (IsLeast r) rs
  first-IsLeast rs rest r e =
      sorted-All (IsLeast r) rs
        (subst (All (IsLeast r)) (sym e) (subst LeastFirst e (sort-LeastFirst rs)))

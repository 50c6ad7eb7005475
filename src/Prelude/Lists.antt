-- ===== src/Prelude/Lists.antt =====
-- Lists measured by native numbers, filtered and searched by Boolean tests.
use Prim.Native.Nat.{ℕ, zero, suc, ◌+◌, ◌≤◌}
use Prim.Native.String.{String}
use mathlib.Core.Path.{◌≡◌, refl}
use mathlib.Core.Logic.{◌⊎◌, inl, inr}
use mathlib.Core.Bool.{Bool, true, false, ◌&&◌, ◌||◌}
use mathlib.Core.List.{List, [], ◌∷◌, ◌++◌, map}
use native.Mathlib.Omega.{arith}
use text.Mathlib.Text.{◌==◌}
use subllm.Prelude.Tests.{if◌then◌else◌, Bool-cases}

module _ {ℓ} {A : Type ℓ} where
  abbrev pub length : List A → ℕ
  length [] = 0
  length (x ∷ xs) = suc (length xs)

  pub length-append : (xs ys : List A) → length (xs ++ ys) ≡ length xs + length ys
  length-append [] ys = omega arith
  length-append (x ∷ xs) ys = omega (arith, length-append xs ys)

  -- `[x for x in xs if p(x)]`
  abbrev pub keep : (A → Bool) → List A → List A
  keep p [] = []
  keep p (x ∷ xs) = if p x then x ∷ keep p xs else keep p xs

  abbrev pub any : (A → Bool) → List A → Bool
  any p [] = false
  any p (x ∷ xs) = p x || any p xs

  abbrev pub all : (A → Bool) → List A → Bool
  all p [] = true
  all p (x ∷ xs) = p x && all p xs

  abbrev pub is_empty : List A → Bool
  is_empty [] = true
  is_empty (x ∷ xs) = false

  -- `xs[n:]`
  abbrev pub drop : ℕ → List A → List A
  drop zero xs = xs
  drop (suc n) [] = []
  drop (suc n) (x ∷ xs) = drop n xs

  -- Every element has the property.
  abbrev pub All {κ} : (A → Type κ) → List A → Type κ
  All P [] = Unit
  All P (x ∷ xs) = P x × All P xs

  -- Some element has the property, and which one it is.
  abbrev pub Any : (A → Type 0) → List A → Type 0
  Any P [] = ⊥
  Any P (x ∷ xs) = P x ⊎ Any P xs

  -- The elements of `xs` in the order in which they stand in `ys`, some left out.
  pub data Sub : List A → List A → Type ℓ where
    done : {ys : List A} → Sub [] ys
    skip : {xs ys : List A} {y : A} → Sub xs ys → Sub xs (y ∷ ys)
    take : {xs ys : List A} {y : A} → Sub xs ys → Sub (y ∷ xs) (y ∷ ys)

  pub Sub-keep : (p : A → Bool) (xs : List A) → Sub (keep p xs) xs
  Sub-keep p [] = done
  Sub-keep p (x ∷ xs) = elim (Bool-cases (p x)) [
    | inl e ↦ rw e (take (Sub-keep p xs))
    | inr e ↦ rw e (skip (Sub-keep p xs))
  ]

  pub All-keep : (p : A → Bool) (xs : List A) → All (λ x. p x ≡ true) (keep p xs)
  All-keep p [] = tt
  All-keep p (x ∷ xs) = elim (Bool-cases (p x)) [
    | inl e ↦ rw (e, keep) (e, All-keep p xs)
    | inr e ↦ rw (e, keep) (All-keep p xs)
  ]

  pub All-map {κ μ} :
      {P : A → Type κ} {Q : A → Type μ} (xs : List A) → ((x : A) → P x → Q x) → All P xs → All Q xs
  All-map [] f h = tt
  All-map (x ∷ xs) f h = (f x h.0, All-map xs f h.1)

  pub All-both {κ μ} :
      (P : A → Type κ) (Q : A → Type μ) (xs : List A)
      → All P xs
      → All Q xs
      → All (λ x. P x × Q x) xs
  All-both P Q [] g h = tt
  All-both P Q (x ∷ xs) g h = ((g.0, h.0), All-both P Q xs g.1 h.1)

  -- Each element stands in the relation to all that follow it.
  abbrev pub Pairwise {κ} : (A → A → Type κ) → List A → Type κ
  Pairwise R [] = Unit
  Pairwise R (x ∷ xs) = All (R x) xs × Pairwise R xs

  pub All-Sub {κ} : (P : A → Type κ) {xs ys : List A} → Sub xs ys → All P ys → All P xs
  All-Sub P done h = tt
  All-Sub P (skip s) h = All-Sub P s h.1
  All-Sub P (take s) h = (h.0, All-Sub P s h.1)

  pub Pairwise-Sub {κ} :
      (R : A → A → Type κ) {xs ys : List A} → Sub xs ys → Pairwise R ys → Pairwise R xs
  Pairwise-Sub R done h = tt
  Pairwise-Sub R (skip s) h = Pairwise-Sub R s h.1
  Pairwise-Sub R (take {y} s) h = (All-Sub (R y) s h.0, Pairwise-Sub R s h.1)

  pub Any-map : {P Q : A → Type 0} (xs : List A) → ((x : A) → P x → Q x) → Any P xs → Any Q xs
  Any-map [] f h = elim h [ ]
  Any-map (x ∷ xs) f (inl h) = inl (f x h)
  Any-map (x ∷ xs) f (inr h) = inr (Any-map xs f h)

  pub keep-empty : (p : A → Bool) (xs : List A) → keep p xs ≡ [] → All (λ x. p x ≡ false) xs
  keep-empty p [] e = tt
  keep-empty p (x ∷ xs) e = elim (Bool-cases (p x)) [
    | inl yes_x ↦ absurd (ground (arith, yes_x))
    | inr no_x ↦ (no_x, keep-empty p xs (rw (no_x, keep) at e))
  ]

  pub length-keep-le : (p : A → Bool) (xs : List A) → length (keep p xs) ≤ length xs
  length-keep-le p [] = omega arith
  length-keep-le p (x ∷ xs) = ground (arith, length-keep-le p xs)

module _ {ℓ} {A : Type ℓ} (p q : A → Bool) (p→q : (x : A) → p x ≡ true → q x ≡ true) where
  -- A filter that lets through all that a second one does leaves that one's result alone.
  pub keep-keep_weaker : (xs : List A) → keep p (keep q xs) ≡ keep p xs
  keep-keep_weaker [] = refl
  keep-keep_weaker (x ∷ xs) = ground (arith, p→q x, keep-keep_weaker xs)

pub All-mapped {ℓ κ μ} :
    {A : Type ℓ} {B : Type κ} (P : B → Type μ) (f : A → B) (xs : List A)
    → All (λ x. P (f x)) xs
    → All P (map f xs)
All-mapped P f [] h = tt
All-mapped P f (x ∷ xs) h = (h.0, All-mapped P f xs h.1)

pub Pairwise-mapped {ℓ κ μ} :
    {A : Type ℓ} {B : Type κ} (R : B → B → Type μ) (f : A → B) (xs : List A)
    → Pairwise (λ x y. R (f x) (f y)) xs
    → Pairwise R (map f xs)
Pairwise-mapped R f [] h = tt
Pairwise-mapped R f (x ∷ xs) h = (All-mapped (R (f x)) f xs h.0, Pairwise-mapped R f xs h.1)

-- `k in keys`
abbrev pub contains : List String → String → Bool
contains [] k = false
contains (x ∷ xs) k = x == k || contains xs k

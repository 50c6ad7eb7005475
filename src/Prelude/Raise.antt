-- ===== src/Prelude/Raise.antt =====
-- Code that may raise: `err e` is the exception `e`.
use mathlib.Core.Path.{◌≡◌, refl}
use mathlib.Core.Logic.{◌⊎◌, inl, inr}
use mathlib.Core.Bool.{Bool, true, false}
use mathlib.Core.Option.{Option, none, some}

pub data Result {ℓ} (E : Type 0) (A : Type ℓ) : Type ℓ where
  ok : A → Result E A
  err : E → Result E A

-- `if not b: raise e`
abbrev pub require : {E : Type 0} → Bool → E → Result E (Unit {0})
require b e = elim b [ true ↦ ok tt | false ↦ err e ]

abbrev pub or_raise {ℓ} : {E : Type 0} {A : Type ℓ} → Option A → E → Result E A
or_raise none e = err e
or_raise (some a) e = ok a

infixl 5 ◌>>=◌ ◌>>◌
abbrev pub ◌>>=◌ {ℓ κ} :
    {E : Type 0} {A : Type ℓ} {B : Type κ} → Result E A → (A → Result E B) → Result E B
err raised >>= k = err raised
ok x >>= k = k x

abbrev pub ◌>>◌ {ℓ} : {E : Type 0} {B : Type ℓ} → Result E (Unit {0}) → Result E B → Result E B
r >> next = r >>= λ u. next

-- What ran, if a chain returned.
pub >>=-eq-ok {ℓ κ} :
    {E : Type 0} {A : Type ℓ} {B : Type κ} (r : Result E A) (k : A → Result E B) {b : B}
    → (r >>= k) ≡ ok b
    → (x : A) × (r ≡ ok x) × (k x ≡ ok b)
>>=-eq-ok (err raised) k h = cc
>>=-eq-ok (ok x) k h = (x, refl, h)

pub require-eq-ok {ℓ} :
    {E : Type 0} {A : Type ℓ} (b : Bool) (e : E) (k : Result E A) {a : A}
    → (require b e >> k) ≡ ok a
    → (b ≡ true) × (k ≡ ok a)
require-eq-ok true e k h = (refl, h)
require-eq-ok false e k h = cc

pub >>=_assoc {ℓ κ μ} :
    {E : Type 0} {A : Type ℓ} {B : Type κ} {C : Type μ} (m : Result E A) (f : A → Result E B)
    (g : B → Result E C)
    → (m >>= f >>= g) ≡ (m >>= λ a. f a >>= g)
>>=_assoc (ok a) f g = refl
>>=_assoc (err e) f g = refl

pub ok-injective {ℓ} :
    {E : Type 0} {A : Type ℓ} {a b : A} → ◌≡◌ {A = Result E A} (ok a) (ok b) → a ≡ b
ok-injective e = cc

pub guarded {ℓ} :
    {E : Type 0} {A : Type ℓ} (m : Result E (Unit {0})) (a : A) {b : A}
    → (m >> ok a) ≡ ok b
    → (m ≡ ok tt) × (a ≡ b)
guarded (ok u) a h = (refl, ok-injective h)
guarded (err e) a h = cc

pub Result-cases {ℓ} :
    {E : Type 0} {A : Type ℓ} (r : Result E A) → ((a : A) × (r ≡ ok a)) ⊎ ((e : E) × (r ≡ err e))
Result-cases (ok a) = inl (a, refl)
Result-cases (err e) = inr (e, refl)

pub absurd_err {ℓ κ} : {E : Type 0} {A : Type ℓ} {B : Type κ} {e : E} {a : A} → err e ≡ ok a → B
absurd_err h = cc

pub require-true : {E : Type 0} (b : Bool) (e : E) → require b e ≡ ok tt → b ≡ true
require-true true e h = refl
require-true false e h = cc

pub or_raise-eq-ok {ℓ κ} :
    {E : Type 0} {A : Type ℓ} {B : Type κ} (o : Option A) (e : E) (k : A → Result E B) {b : B}
    → (or_raise o e >>= k) ≡ ok b
    → (x : A) × (o ≡ some x) × (k x ≡ ok b)
or_raise-eq-ok none e k h = cc
or_raise-eq-ok (some x) e k h = (x, refl, h)

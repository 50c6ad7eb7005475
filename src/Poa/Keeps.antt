-- ===== src/Poa/Keeps.antt =====
-- What a bus method keeps of the event store, whether it returns or raises.
use subllm.Prelude.{Result, ok, err, Bool, true, false, if◌then◌else◌, ◌≡◌, refl, ap}
use subllm.Poa.Exec.{Exec, lift, give, gets, modify, proceed, ◌>>=◌}
use subllm.Poa.Refs.{PoaError}
use subllm.Poa.Store.{EventStore}

pub record Keeps {ℓ} {A : Type ℓ} (P : EventStore → Type 0) (m : Exec A) : Type ℓ where
  pub at : (s : EventStore) → P s → P (m s).1

module _ {ℓ} {A : Type ℓ} {P : EventStore → Type 0} where
  pub Keeps-lift : (r : Result PoaError A) → Keeps P (lift r)
  Keeps-lift r = record { at = λ s h. h }

  pub Keeps-give : (a : A) → Keeps P (give a)
  Keeps-give a = record { at = λ s h. h }

  pub Keeps-gets : (f : EventStore → A) → Keeps P (gets f)
  Keeps-gets f = record { at = λ s h. h }

  pub Keeps-if : (b : Bool) (m n : Exec A) → Keeps P m → Keeps P n → Keeps P (if b then m else n)
  Keeps-if true m n k l = k
  Keeps-if false m n k l = l

pub Keeps-modify :
    {P : EventStore → Type 0} (f : EventStore → EventStore)
    → ((s : EventStore) → P s → P (f s))
    → Keeps P (modify f)
Keeps-modify f k = record { at = k }

module _ {ℓ} {A B : Type ℓ} {P : EventStore → Type 0} where
  proceed_keeps :
      (r : Result PoaError A × EventStore) (f : A → Exec B)
      → P r.1
      → ((a : A) → Keeps P (f a))
      → P (proceed r f).1
  proceed_keeps (ok a, s) f h k = (k a).at s h
  proceed_keeps (err e, s) f h k = h

  pub Keeps-bind :
      (m : Exec A) (f : A → Exec B) → Keeps P m → ((a : A) → Keeps P (f a)) → Keeps P (m >>= f)
  Keeps-bind m f k l = record { at = λ s h. proceed_keeps (m s) f (k.at s h) l }

-- A method that returned got through each of its parts.
module _ {ℓ} {A B : Type ℓ} where
  proceed-eq-ok :
      (r : Result PoaError A × EventStore) (f : A → Exec B) {b : B} {t : EventStore}
      → proceed r f ≡ (ok b, t)
      → (a : A) × (s : EventStore) × (r ≡ (ok a, s)) × (f a s ≡ (ok b, t))
  proceed-eq-ok (ok a, s) f h = (a, s, refl, h)
  proceed-eq-ok (err e, s) f h = cc (ap (λ q. q.0) h)

  pub bind-eq-ok :
      (m : Exec A) (f : A → Exec B) (s : EventStore) {b : B} {t : EventStore}
      → (m >>= f) s ≡ (ok b, t)
      → (a : A) × (u : EventStore) × (m s ≡ (ok a, u)) × (f a u ≡ (ok b, t))
  bind-eq-ok m f s h = proceed-eq-ok (m s) f h

pub ruleset keeps_rules = (Keeps-lift, Keeps-give, Keeps-gets, Keeps-if, Keeps-modify, Keeps-bind)

-- What holds of the result and the store whenever a method returns.
pub record Ensures {ℓ} {A : Type ℓ} (Q : A → EventStore → Type 0) (m : Exec A) : Type ℓ where
  pub at : (s : EventStore) (a : A) (t : EventStore) → m s ≡ (ok a, t) → Q a t

pub Ensures-bind {ℓ} :
    {A B : Type ℓ} {Q : B → EventStore → Type 0} (m : Exec A) (f : A → Exec B)
    → ((a : A) → Ensures Q (f a))
    → Ensures Q (m >>= f)
Ensures-bind m f k = record {
  at = λ s b t h. let (a, u, _, ran) = bind-eq-ok m f s h in (k a).at u b t ran;
}

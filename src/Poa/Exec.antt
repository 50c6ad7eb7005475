-- ===== src/Poa/Exec.antt =====
-- A bus method reads and writes the event store and may raise; what it wrote before it raised
-- stays written.
use subllm.Prelude.{Result, ok, err}
use subllm.Poa.Refs.{PoaError}
use subllm.Poa.Store.{EventStore}

abbrev pub Exec {ℓ} : Type ℓ → Type ℓ
Exec A = EventStore → Result PoaError A × EventStore

abbrev pub proceed {ℓ} :
    {A B : Type ℓ} → Result PoaError A × EventStore → (A → Exec B) → Result PoaError B × EventStore
proceed (ok a, s) f = f a s
proceed (err e, s) f = (err e, s)

infixl 5 ◌>>=◌ ◌>>◌
abbrev pub ◌>>=◌ {ℓ} : {A B : Type ℓ} → Exec A → (A → Exec B) → Exec B
◌>>=◌ m f s = proceed (m s) f

abbrev pub ◌>>◌ {ℓ} : {A B : Type ℓ} → Exec A → Exec B → Exec B
m >> k = m >>= λ _. k

abbrev pub lift {ℓ} : {A : Type ℓ} → Result PoaError A → Exec A
lift r s = (r, s)

abbrev pub give {ℓ} : {A : Type ℓ} → A → Exec A
give a s = (ok a, s)

-- An assignment to the store.
abbrev pub modify : (EventStore → EventStore) → Exec (Unit {0})
modify f s = (ok tt, f s)

abbrev pub gets {ℓ} : {A : Type ℓ} → (EventStore → A) → Exec A
gets f s = (ok (f s), s)

-- ===== src/Health/RoundTrip.antt =====
-- src/subllm/health.py: what `_write_state` writes, `_read_state` reads back.
use subllm.Prelude.{
  subst, pos, ◌||◌, ◌≤◌, ℕ, String, ◌≡◌, refl, true, Option, none, some, [], ◌∷◌, arith, ◌==◌,
  eq_iff, eq_refl, if◌then◌else◌, Bool-cases, inl, inr, keep, ok, ◌∙◌, text_leb, text_leb_refl, ap,
}
use subllm.Dict.{Dict, lookup, lookup-insert}
use subllm.Json.{Json, int, float, text, members, fields}
use subllm.Health.Entry.{ProviderHealth, is_provider, is_reason}
use subllm.Health.File.{
  max_failures, max_cooldown, read_failures, read_cooldown, read_reason, State, row_json, rows_json,
  read_row, read_provider, read_rows, add_row, bounded_state, state_payload, insert_by_name,
  sort_items, latency_json, read_latency,
}
use subllm.Health.Store.{Host, read_state, write_state}
use subllm.Health.Bounds.{IsBounded, AllBounded, LatencyBound}

abbrev pub persisted : State → State
persisted = keep (λ (r : String × ProviderHealth). is_provider r.0)

members-fields : (d : Dict Json) → members (fields d) ≡ d
members-fields [] = refl
members-fields ((k, v) ∷ d) = ap (λ r. (k, v) ∷ r) (members-fields d)

read_latency-latency_json : (l : Option ℕ) → LatencyBound l → read_latency (latency_json l) ≡ some l
unfolding read_latency
read_latency-latency_json none h = refl
read_latency-latency_json (some n) h = ground arith

read_reason-text : (s : String) → (s == "" || is_reason s) ≡ true → read_reason (text s) ≡ some s
unfolding read_reason
read_reason-text s h = rw h

read_failures-int : (n : ℕ) → n ≤ max_failures → read_failures (int (pos n)) ≡ some n
unfolding read_failures
read_failures-int n h = ground arith

read_cooldown-float : (n : ℕ) → n ≤ max_cooldown → read_cooldown (float (pos n)) ≡ ok (some n)
unfolding read_cooldown
read_cooldown-float n h = ground arith

read_row-values :
    (f c l r : Json) {n t : ℕ} {m : Option ℕ} {s : String}
    → read_failures f ≡ some n
    → read_cooldown c ≡ ok (some t)
    → read_latency l ≡ some m
    → read_reason r ≡ some s
    → read_row f c l r
      ≡ ok (
          some (record {
            consecutive_failures = n;
            cooldown_until = t;
            last_latency_ms = m;
            reason = s;
          }))
unfolding read_row
read_row-values f c l r a b d e = rw (a, b, d, e, read_row)

read_provider-row_json :
    (provider : String) (e : ProviderHealth)
    → IsBounded e
    → read_provider provider (row_json e) ≡ ok (if is_provider provider then some e else none)
unfolding read_provider
read_provider-row_json provider e b = elim (Bool-cases (is_provider provider)) [
  | inl valid ↦ rw valid (
      read_row-values (int (pos e.consecutive_failures)) (float (pos e.cooldown_until))
        (latency_json e.last_latency_ms) (text e.reason)
        (read_failures-int e.consecutive_failures b.failures)
        (read_cooldown-float e.cooldown_until b.cooldown)
        (read_latency-latency_json e.last_latency_ms b.latency)
        (read_reason-text e.reason b.reason))
  | inr other ↦ rw other
]

read_rows-cons :
    (provider : String) (row : Json) (rest : Dict Json) {found : Option ProviderHealth}
    {state : State}
    → read_provider provider row ≡ ok found
    → read_rows rest ≡ ok state
    → read_rows ((provider, row) ∷ rest) ≡ ok (add_row provider found state)
unfolding read_rows
read_rows-cons provider row rest a b = rw (a, b, read_rows)

read_rows-rows_json :
    (state : State) → AllBounded state → read_rows (rows_json state) ≡ ok (persisted state)
unfolding rows_json
read_rows-rows_json [] b = unfold read_rows in refl
read_rows-rows_json ((provider, e) ∷ state) b = elim (Bool-cases (is_provider provider)) [
  | inl valid ↦
      rw (valid, rows_json, keep)
        (read_rows-cons provider (row_json e) (rows_json state) {found = some e}
          {state = persisted state} (read_provider-row_json provider e b.0 ∙ rw valid)
          (read_rows-rows_json state b.1))
  | inr other ↦ rw (other, rows_json, keep) (read_rows-rows_json state b.1)
]

-- What a host reads back from a state that it wrote, whatever the file held before: the providers
-- with a name that `_PROVIDER` matches, by name, each with every field as it was written.
bounded_state-state_payload :
    (state : State)
    → AllBounded (sort_items state)
    → bounded_state (state_payload state) ≡ ok (persisted (sort_items state))
unfolding bounded_state state_payload
bounded_state-state_payload state b = rw members-fields (read_rows-rows_json (sort_items state) b)

insert_by_name-AllBounded :
    (k : String) (v : ProviderHealth) (d : State)
    → IsBounded v
    → AllBounded d
    → AllBounded (insert_by_name k v d)
unfolding insert_by_name
insert_by_name-AllBounded k v [] h b = (h, tt)
insert_by_name-AllBounded k v ((j, w) ∷ d) h b = elim (Bool-cases (text_leb k j)) [
  | inl e ↦ rw e (h, b)
  | inr e ↦ rw e (b.0, insert_by_name-AllBounded k v d h b.1)
]

sort_items-AllBounded : (d : State) → AllBounded d → AllBounded (sort_items d)
unfolding sort_items
sort_items-AllBounded [] b = tt
sort_items-AllBounded ((k, v) ∷ d) b =
    insert_by_name-AllBounded k v (sort_items d) b.0 (sort_items-AllBounded d b.1)

lookup-insert_by_name {ℓ} :
    {V : Type ℓ} (k j : String) (v : V) (d : Dict V)
    → lookup j (insert_by_name k v d) ≡ (if k == j then some v else lookup j d)
unfolding lookup insert_by_name
lookup-insert_by_name k j v [] = refl
lookup-insert_by_name k j v ((i, w) ∷ d) = ground (
  arith,
  lookup-insert_by_name k j v d,
  eq_iff k j,
  eq_iff i j,
  eq_iff k i,
  (λ (e : k ≡ i). subst (λ t. text_leb k t ≡ true) e (text_leb_refl k)),
)

pub lookup-sort_items {ℓ} :
    {V : Type ℓ} (j : String) (d : Dict V) → lookup j (sort_items d) ≡ lookup j d
unfolding lookup sort_items
lookup-sort_items j [] = refl
lookup-sort_items j ((k, v) ∷ d) =
    ground (arith, lookup-insert_by_name k j v (sort_items d), lookup-sort_items j d)

lookup-persisted :
    (j : String) (d : State) → lookup j (persisted d) ≡ (if is_provider j then lookup j d else none)
unfolding lookup
lookup-persisted j [] = ground arith
lookup-persisted j ((k, v) ∷ d) = elim (Bool-cases (is_provider k)) [
  | inl e ↦
      rw (e, keep)
        (ground (arith, lookup-persisted j d, e, eq_iff k j, (λ (q : k ≡ j). ap is_provider q)))
  | inr e ↦
      rw (e, keep)
        (ground (arith, lookup-persisted j d, e, eq_iff k j, (λ (q : k ≡ j). ap is_provider q)))
]

pub read_state-some :
    (path : String) (h : Host) {doc : Json}
    → lookup path h.files ≡ some doc
    → read_state path h ≡ bounded_state doc
unfolding read_state
read_state-some path h e = rw (e, read_state)

pub lookup-write_state :
    (path other : String) (state : State) (h : Host)
    → lookup other (write_state path state h).files
      ≡ (if path == other then some (state_payload state) else lookup other h.files)
unfolding write_state
lookup-write_state path other state h = lookup-insert path other (state_payload state) h.files

-- A state whose rows are within bounds, written and read back through any host, has the same
-- health of every provider with a name that `_PROVIDER` matches, and no other provider.
pub read-write :
    (path : String) (state : State) (h : Host)
    → AllBounded state
    → (found : State) × (read_state path (write_state path state h) ≡ ok found)
      × ((provider : String)
          → lookup provider found ≡ (if is_provider provider then lookup provider state else none))
read-write path state h b = (
  persisted (sort_items state),
  read_state-some path (write_state path state h)
        (lookup-write_state path path state h ∙ rw eq_refl)
      ∙ bounded_state-state_payload state (sort_items-AllBounded state b),
  λ provider. lookup-persisted provider (sort_items state) ∙ rw lookup-sort_items,
)

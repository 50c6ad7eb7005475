-- ===== src/Poa/Journal.antt =====
-- src/subllm/poa/store.py and src/subllm/gateway_bus.py: the journal numbers its events in order and
-- admits no secret; the gateway's keeps the newest of them.
use subllm.Prelude.{
  min, ℕ, zero, suc, ◌+◌, ◌-◌, ◌≤◌, ◌≡◌, refl, Option, some, List, [], ◌∷◌, ◌++◌, arith, ok, length,
  length-append, pos, ◌∙◌, ap, sym, ok-injective, >>=-eq-ok, guarded, subst,
}
use subllm.Dict.{lookup, insert, lookup-insert}
use subllm.Json.{Json, int, text}
use subllm.Poa.Store.{
  Event, EventStore, append, gateway_append, stored, admissible, event_id, drop, window,
}

-- The numbers of the events run upwards to `n`: the newest event has `n`, the one before `n - 1`.
abbrev number_of : Event → Option Json
number_of e = lookup "sequence" e

-- `es` are numbered `k + 1`, `k + 2`, ...
abbrev Numbered : ℕ → List Event → Type 0
Numbered k [] = Unit
Numbered k (e ∷ es) = (number_of e ≡ some (int (pos (suc k)))) × Numbered (suc k) es

pub record IsJournal (s : EventStore) : Type 0 where
  pub fits : length s.events ≤ s.sequence
  pub numbered : Numbered (s.sequence - length s.events) s.events

number-stored : (n : ℕ) (e : Event) → number_of (stored n e) ≡ some (int (pos n))
unfolding lookup
number-stored n e =
    lookup-insert "event_id" "sequence" (text (event_id n)) (insert "sequence" (int (pos n)) e)
    ∙ lookup-insert "sequence" "sequence" (int (pos n)) e

Numbered-append :
    (k n : ℕ) (es : List Event) (e : Event)
    → k + length es ≡ n
    → Numbered k es
    → number_of e ≡ some (int (pos (suc n)))
    → Numbered k (es ++ e ∷ [])
Numbered-append k n [] e h d new =
    (new ∙ ap (λ q. some (int (pos (suc q)))) (let same : n ≡ k = omega arith in same), tt)
Numbered-append k n (x ∷ es) e h d new = (d.0, Numbered-append (suc k) n es e (omega arith) d.1 new)

-- What an append does, if it does not raise.
pub append-eq-ok :
    (event e : Event) (s t : EventStore)
    → append event s ≡ ok (e, t)
    → (admissible event ≡ ok tt)
      × (e ≡ stored (suc s.sequence) event)
      × (t ≡ record s {
        events = s.events ++ stored (suc s.sequence) event ∷ [];
        sequence = suc s.sequence;
      })
unfolding append
append-eq-ok event e s t h =
    let (fine, same) = guarded (admissible event) _ h in
    (
      fine,
      sym (ap (λ (r : Event × EventStore). r.0) same),
      sym (ap (λ (r : Event × EventStore). r.1) same),
    )

extended-IsJournal :
    (event : Event) (s : EventStore)
    → IsJournal s
    → IsJournal (record s {
      events = s.events ++ stored (suc s.sequence) event ∷ [];
      sequence = suc s.sequence;
    })
extended-IsJournal event s v = record {
  fits = omega (arith, v.fits, length-append s.events (stored (suc s.sequence) event ∷ []));
  numbered =
      subst (λ k. Numbered k (s.events ++ stored (suc s.sequence) event ∷ []))
        (omega (arith, v.fits, length-append s.events (stored (suc s.sequence) event ∷ [])))
        (Numbered-append (s.sequence - length s.events) s.sequence s.events _
          (omega (arith, v.fits)) v.numbered (number-stored (suc s.sequence) event));
}

-- An event that is admitted is numbered one above the newest, stands last, and leaves a journal
-- that numbers its events without a gap up to `sequence`.
pub append-IsJournal :
    (event e : Event) (s t : EventStore)
    → IsJournal s
    → append event s ≡ ok (e, t)
    → IsJournal t
      × (t.events ≡ s.events ++ e ∷ [])
      × (number_of e ≡ some (int (pos (suc s.sequence))))
append-IsJournal event e s t v h =
    let (fine, same, store) = append-eq-ok event e s t h in
    (
      rw store (extended-IsJournal event s v),
      rw (store, same) refl,
      rw same (number-stored (suc s.sequence) event),
    )

drop-Numbered :
    (n k : ℕ) (es : List Event) → n ≤ length es → Numbered k es → Numbered (k + n) (drop n es)
drop-Numbered zero k es h d = subst (λ j. Numbered j es) (let e : k ≡ k + 0 = omega arith in e) d
drop-Numbered (suc n) k [] h d = absurd (omega arith)
drop-Numbered (suc n) k (x ∷ es) h d =
    subst (λ j. Numbered j (drop n es)) (let e : suc k + n ≡ k + suc n = omega arith in e)
      (drop-Numbered n (suc k) es (omega arith) d.1)

length-drop : (n : ℕ) (es : List Event) → length (drop n es) ≡ length es - n
length-drop zero es = omega arith
length-drop (suc n) [] = omega arith
length-drop (suc n) (e ∷ es) = omega (arith, length-drop n es)

windowed-IsJournal :
    (t : EventStore)
    → IsJournal t
    → IsJournal (record t { events = drop (length t.events - window) t.events })
windowed-IsJournal t v = record {
  fits = omega (arith, v.fits, length-drop (length t.events - window) t.events);
  numbered =
      subst (λ k. Numbered k (drop (length t.events - window) t.events))
        (omega (arith, v.fits, length-drop (length t.events - window) t.events))
        (drop-Numbered (length t.events - window) (t.sequence - length t.events) t.events
          (omega arith) v.numbered);
}

-- The gateway's journal goes on numbering without a gap, and keeps the newest 1024 events, or all
-- while there are no more.
pub gateway_append-IsJournal :
    (event e : Event) (s t : EventStore)
    → IsJournal s
    → length s.events ≤ window
    → gateway_append event s ≡ ok (e, t)
    → IsJournal t
      × (t.sequence ≡ suc s.sequence)
      × (length t.events ≡ min window (suc (length s.events)))
unfolding gateway_append
gateway_append-IsJournal event e s t v w h =
    let ((e', t'), ran, same) = >>=-eq-ok (append event s) _ h in
    let (fine, _, store) = append-eq-ok event e' s t' ran in
    let now : t ≡ record t' { events = drop (length t'.events - window) t'.events } =
      sym (ap (λ (r : Event × EventStore). r.1) (ok-injective same)) in
    let grown : length t'.events ≡ suc (length s.events) =
      rw store (omega (arith, length-append s.events (stored (suc s.sequence) event ∷ []))) in
    (
      rw now (windowed-IsJournal t' (append-IsJournal event e' s t' v ran).0),
      rw (now, store) refl,
      rw now (omega (arith, length-drop (length t'.events - window) t'.events, grown)),
    )

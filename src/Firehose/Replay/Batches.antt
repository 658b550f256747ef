-- ===== src/Firehose/Replay/Batches.antt =====
-- Events in the order of their sequence numbers, cut at a cursor and into batches.
use at_protocol_infrastructu.Prelude.{
  ℕ, zero, suc, ◌≡◌, refl, true, false, List, [], ◌∷◌, arith, take, drop, select, if◌then◌else◌,
}
use at_protocol_infrastructu.Prelude.Int.{ℤ, ltb_ℤ, ltb_ℤ_iff, ◌<ℤ◌, ◌≤ℤ◌}
use at_protocol_infrastructu.Storage.Stores.{StoredEvent}

-- The sequence numbers grow along the list, from above `low`.
abbrev pub Ascending : ℤ → List StoredEvent → Type 0
Ascending low [] = Unit
Ascending low (e ∷ rest) = (low <ℤ e.seq) × Ascending e.seq rest

-- The events after a cursor.
abbrev pub after : ℤ → List StoredEvent → List StoredEvent
after cursor = select (λ e. ltb_ℤ cursor e.seq)

abbrev pub last_seq : ℤ → List StoredEvent → ℤ
last_seq low [] = low
last_seq low (e ∷ rest) = last_seq e.seq rest

pub Ascending-lower :
    (low low' : ℤ) (es : List StoredEvent) → low' ≤ℤ low → Ascending low es → Ascending low' es
Ascending-lower low low' [] h a = tt
Ascending-lower low low' (e ∷ es) h a = (omega arith, a.1)

pub after_all : (c : ℤ) (es : List StoredEvent) → Ascending c es → after c es ≡ es
after_all c [] a = refl
after_all c (e ∷ es) a =
    ground (arith, after_all c es (Ascending-lower e.seq c es (omega arith) a.1))

pub after-after : (c d : ℤ) (es : List StoredEvent) → c ≤ℤ d → after d (after c es) ≡ after d es
after-after c d [] h = refl
after-after c d (e ∷ es) h = ground (arith, after-after c d es h)

-- The events after any cursor are in order, and all of them above it.
pub after-Ascending :
    (low c : ℤ) (es : List StoredEvent) → Ascending low es → Ascending c (after c es)
after-Ascending low c [] a = tt
after-Ascending low c (e ∷ es) a =
    (elim (ltb_ℤ c e.seq)
        as (λ b. ltb_ℤ c e.seq ≡ b → Ascending c (if b then e ∷ after c es else after c es)) [
          | true ↦ λ h.
              let above : c <ℤ e.seq = (ltb_ℤ_iff c e.seq).0 h in
              rw (after_all c es (Ascending-lower e.seq c es (omega arith) a.1)) (above, a.1)
          | false ↦ λ h. after-Ascending e.seq c es a.1
        ])
      refl

pub le-last_seq :
    (low : ℤ) (n : ℕ) (es : List StoredEvent) → Ascending low es → low ≤ℤ last_seq low (take n es)
le-last_seq low zero es a = omega arith
le-last_seq low (suc n) [] a = omega arith
le-last_seq low (suc n) (e ∷ es) a = omega (arith, le-last_seq e.seq n es a.1)

-- Asking again from the last number of a batch gives what the batch left.
pub after-last_seq :
    (low : ℤ) (n : ℕ) (es : List StoredEvent)
    → Ascending low es
    → after (last_seq low (take n es)) es ≡ drop n es
after-last_seq low zero es a = after_all low es a
after-last_seq low (suc n) [] a = refl
after-last_seq low (suc n) (e ∷ es) a =
    ground (arith, le-last_seq e.seq n es a.1, after-last_seq e.seq n es a.1)

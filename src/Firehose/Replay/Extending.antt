-- ===== src/Firehose/Replay/Extending.antt =====
-- A table that grows at its end, and what a query sees of it.
use at_protocol_infrastructu.Prelude.{
  ℕ, zero, suc, ◌≤◌, ◌≡◌, refl, ap, ◌∙◌, sym, Bool, List, [], ◌∷◌, ◌++◌, arith, take, drop, select,
  length,
}
use at_protocol_infrastructu.Prelude.Int.{ℤ}
use at_protocol_infrastructu.Storage.Stores.{StoredEvent}
use at_protocol_infrastructu.Firehose.Replay.Batches.{
  Ascending, after, last_seq, after-after, after-Ascending, le-last_seq, after-last_seq,
}

abbrev pub Extends {ℓ} : {A : Type ℓ} → List A → List A → Type ℓ
Extends {A} xs ys = (more : List A) × (ys ≡ xs ++ more)

module _ {ℓ} {A : Type ℓ} where
  pub take-append_short : (n : ℕ) (xs ys : List A) → n ≤ length xs → take n (xs ++ ys) ≡ take n xs
  take-append_short zero xs ys h = refl
  take-append_short (suc n) [] ys h = absurd (omega arith)
  take-append_short (suc n) (x ∷ xs) ys h = ap (◌∷◌ x) (take-append_short n xs ys (omega arith))

  pub select-append :
      (f : A → Bool) (xs ys : List A) → select f (xs ++ ys) ≡ select f xs ++ select f ys
  select-append f [] ys = refl
  select-append f (x ∷ xs) ys = ground (arith, select-append f xs ys)

pub Ascending-part :
    (low : ℤ) (xs ys : List StoredEvent) → Ascending low (xs ++ ys) → Ascending low xs
Ascending-part low [] ys a = tt
Ascending-part low (x ∷ xs) ys a = (a.0, Ascending-part x.seq xs ys a.1)

-- Asking again from the last number of a batch gives what the batch left.
pub rest_after :
    (low cursor : ℤ) (es : List StoredEvent)
    → Ascending low es
    → after (last_seq cursor (take 100 (after cursor es))) es ≡ drop 100 (after cursor es)
rest_after low cursor es a =
    let todo = after-Ascending low cursor es a in
    sym (after-after cursor _ es (le-last_seq cursor 100 (after cursor es) todo))
    ∙ after-last_seq cursor 100 (after cursor es) todo

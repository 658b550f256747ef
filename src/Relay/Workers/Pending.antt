-- ===== src/Relay/Workers/Pending.antt =====
-- The events that workers are busy with: in hand and not yet stored, or stored and not yet
-- published.
use mathlib.Core.List.{Perm, append_assoc, append-nil, perm_append_comm}
use mathlib.Core.List.Perm
use at_protocol_infrastructu.Prelude.{
  ℕ, ◌≡◌, refl, ◌+◌, length-append, ap, none, some, List, [], ◌∷◌, ◌++◌, nat_eq, arith, length,
  ◌==◌, Bool-cases, inl, inr, subst, true, false, sym, ◌∙◌, ◌⊎◌,
}
use at_protocol_infrastructu.Prelude.Assoc.{lookup, insert, delete, delete_missing, Unique}
use at_protocol_infrastructu.Prelude.Int.{ℤ}
use at_protocol_infrastructu.Ingest.Event.{Event}
use at_protocol_infrastructu.Relay.Workers.{Phase, in_hand, holding, handed_on}

-- An event and the number that the store gave it.
abbrev pub Item : Type 0
Item = Event × ℤ

abbrev pub item_of : Phase → List Item
item_of (holding event seq) = (event, seq) ∷ []
item_of (in_hand event) = []
item_of (handed_on event) = []

abbrev pub event_of : Phase → List Event
event_of (in_hand event) = event ∷ []
event_of (holding event seq) = []
event_of (handed_on event) = []

-- What the workers have, by what one in each phase has.
abbrev pub gather {ℓ} : {A : Type ℓ} → (Phase → List A) → List (ℕ × Phase) → List A
gather has [] = []
gather has ((k, phase) ∷ rest) = has phase ++ gather has rest

abbrev pub pending : List (ℕ × Phase) → List Item
pending = gather item_of

abbrev pub waiting : List (ℕ × Phase) → List Event
waiting = gather event_of

lookup-nil : (k : ℕ) {v : Phase} → lookup k [] ≡ some v → ⊥
unfolding lookup
lookup-nil k h = cc

-- A phase that is found is the first entry, or is found among the others.
found_cases :
    (k j : ℕ) (v w : Phase) (m : List (ℕ × Phase))
    → lookup k ((j, w) ∷ m) ≡ some v
    → (((j == k) ≡ true) × (w ≡ v)) ⊎ (((j == k) ≡ false) × (lookup k m ≡ some v))
unfolding lookup
found_cases k j v w m h = elim (Bool-cases (j == k)) [
  | inl here ↦ inl (here, ground arith)
  | inr other ↦ inr (other, ground arith)
]

perm_exchange {ℓ} : {A : Type ℓ} (xs ys zs : List A) → Perm (xs ++ (ys ++ zs)) (ys ++ (xs ++ zs))
perm_exchange xs ys zs =
    subst (λ l. Perm (xs ++ (ys ++ zs)) l) (append_assoc ys xs zs)
      (subst (λ l. Perm l ((ys ++ xs) ++ zs)) (append_assoc xs ys zs)
        (Perm.append_right zs (perm_append_comm xs ys)))

module _ {ℓ} {A : Type ℓ} (has : Phase → List A) where
  pub gather-insert_new :
      (k : ℕ) (v : Phase) (m : List (ℕ × Phase))
      → lookup k m ≡ none
      → gather has (insert k v m) ≡ gather has m ++ has v
  unfolding lookup insert
  gather-insert_new k v [] h = append-nil (has v)
  gather-insert_new k v ((j, w) ∷ m) h = elim (Bool-cases (j == k)) [
    | inl here ↦ absurd (ground arith)
    | inr other ↦
        let ih : gather has (insert k v m) ≡ gather has m ++ has v =
          gather-insert_new k v m (ground arith) in
        rw other (ap (λ l. has w ++ l) ih ∙ sym (append_assoc (has w) (gather has m) (has v)))
  ]

  -- A worker that goes on exchanges what it has.
  pub gather-insert :
      (k : ℕ) (v w : Phase) (m : List (ℕ × Phase))
      → lookup k m ≡ some w
      → Perm (has w ++ gather has (insert k v m)) (has v ++ gather has m)
  unfolding insert
  gather-insert k v w [] h = absurd (lookup-nil k h)
  gather-insert k v w ((j, u) ∷ m) h = elim (found_cases k j w u m h) [
    | inl (here, e) ↦ rw here (
        subst (λ z. Perm (has w ++ (has v ++ gather has m)) (has v ++ (has z ++ gather has m)))
          (sym e) (perm_exchange (has w) (has v) (gather has m)))
    | inr (other, q) ↦ rw other (
        Perm.trans (perm_exchange (has w) (has u) (gather has (insert k v m))) (
          Perm.trans (Perm.append_left (has u) (gather-insert k v w m q))
            (perm_exchange (has u) (has v) (gather has m))))
  ]

  pub length-gather :
      (k : ℕ) (v w : Phase) (m : List (ℕ × Phase))
      → lookup k m ≡ some w
      → length (has w) + length (gather has (insert k v m)) ≡ length (has v) + length (gather has m)
  unfolding insert
  length-gather k v w [] h = absurd (lookup-nil k h)
  length-gather k v w ((j, u) ∷ m) h = elim (found_cases k j w u m h) [
    | inl (here, e) ↦ rw here (
        omega (
          arith,
          length-append (has v) (gather has m),
          length-append (has u) (gather has m),
          ap (λ z. length (has z)) e,
        ))
    | inr (other, q) ↦ rw other (
        omega (
          arith,
          length-gather k v w m q,
          length-append (has u) (gather has (insert k v m)),
          length-append (has u) (gather has m),
        ))
  ]

  pub gather-delete :
      (k : ℕ) (w : Phase) (m : List (ℕ × Phase))
      → Unique m
      → lookup k m ≡ some w
      → has w ≡ []
      → gather has (delete k m) ≡ gather has m
  unfolding delete
  gather-delete k w [] u h n = refl
  gather-delete k w ((j, v) ∷ m) u h n = elim (found_cases k j w v m h) [
    | inl (here, e) ↦
        let same : j ≡ k = ground arith in
        rw here (
          ap (gather has) (delete_missing k m (subst (λ x. lookup x m ≡ none) same u.0))
          ∙ sym (ap (λ l. l ++ gather has m) (ap has e ∙ n)))
    | inr (other, q) ↦ rw other (ap (λ l. has v ++ l) (gather-delete k w m u.1 q n))
  ]

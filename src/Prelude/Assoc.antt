-- ===== src/Prelude/Assoc.antt =====
-- A Go map as an association list: assignment overwrites in place or adds an entry at the end.
use at_protocol_infrastructu.Prelude.{
  suc, ◌≡◌, refl, Option, none, some, ap, List, [], ◌∷◌, map, arith, Eq, ◌==◌, if◌then◌else◌,
  length, All, Bool, false, ◌||◌,
}

module _ {ℓ κ} {K : Type ℓ} {V : Type κ} ⦃e : Eq K⦄ where
  unfoldable pub lookup : K → List (K × V) → Option V
  lookup key [] = none
  lookup key ((k, v) ∷ rest) = if k == key then some v else lookup key rest

  unfoldable pub insert : K → V → List (K × V) → List (K × V)
  insert key v [] = (key, v) ∷ []
  insert key v ((k, old) ∷ rest) =
      if k == key then (key, v) ∷ rest else (k, old) ∷ insert key v rest

  unfoldable pub delete : K → List (K × V) → List (K × V)
  delete k [] = []
  delete k ((j, w) ∷ m) = let rest = delete k m in if j == k then rest else (j, w) ∷ rest

  pub lookup-insert :
      (k j : K) (v : V) (m : List (K × V))
      → lookup j (insert k v m) ≡ (if k == j then some v else lookup j m)
  unfolding lookup insert
  lookup-insert k j new [] = refl
  lookup-insert k j new ((i, old) ∷ rest) =
      ground (arith, e.beq_iff i j, e.beq_iff i k, e.beq_iff k j, lookup-insert k j new rest)

  pub lookup-delete :
      (k j : K) (m : List (K × V)) → lookup j (delete k m) ≡ (if k == j then none else lookup j m)
  unfolding lookup delete
  lookup-delete k j [] = ground arith
  lookup-delete k j ((i, w) ∷ m) =
      ground (arith, e.beq_iff k j, e.beq_iff i k, e.beq_iff i j, lookup-delete k j m)

  -- A new key adds one entry, an old one none.
  pub length-insert :
      (k : K) (v : V) (m : List (K × V))
      → length (insert k v m) ≡ elim (lookup k m) [ none ↦ suc (length m) | some _ ↦ length m ]
  unfolding lookup insert
  length-insert k v [] = refl
  length-insert k v ((i, w) ∷ m) = ground (arith, length-insert k v m)

abbrev pub keys {ℓ κ} : {K : Type ℓ} {V : Type κ} → List (K × V) → List K
keys = map (λ p. p.0)

-- No key has two entries, as in every Go map.
abbrev pub Unique {ℓ κ} : {K : Type ℓ} {V : Type κ} ⦃e : Eq K⦄ → List (K × V) → Type κ
Unique [] = Unit
Unique ((k, v) ∷ m) = (lookup k m ≡ none) × Unique m

module _ {ℓ κ} {K : Type ℓ} {V : Type κ} ⦃e : Eq K⦄ where
  pub insert-Unique : (k : K) (v : V) (m : List (K × V)) → Unique m → Unique (insert k v m)
  unfolding lookup insert
  insert-Unique k v [] u = (refl, tt)
  insert-Unique k v ((i, w) ∷ m) u =
      ground (arith, e.beq_iff i k, e.beq_iff k i, insert-Unique k v m u.1, lookup-insert k i v m)

  pub delete-Unique : (k : K) (m : List (K × V)) → Unique m → Unique (delete k m)
  unfolding lookup delete
  delete-Unique k [] u = tt
  delete-Unique k ((i, w) ∷ m) u = ground (arith, delete-Unique k m u.1, lookup-delete k i m)

  pub delete_missing : (k : K) (m : List (K × V)) → lookup k m ≡ none → delete k m ≡ m
  unfolding lookup delete
  delete_missing k [] h = refl
  delete_missing k ((i, w) ∷ m) h = ground (arith, delete_missing k m)

  -- Deleting a key that is there takes exactly one entry away.
  pub length-delete :
      (k : K) (v : V) (m : List (K × V))
      → Unique m
      → lookup k m ≡ some v
      → suc (length (delete k m)) ≡ length m
  unfolding lookup delete
  length-delete k v [] u h = cc
  length-delete k v ((i, w) ∷ m) u h =
      ground (arith, e.beq_iff i k, delete_missing k m, length-delete k v m u.1)

  -- What holds of every key that is found holds of every entry.
  pub All-of_lookup {μ} :
      (P : K → Type μ) (m : List (K × V))
      → Unique m
      → ((k : K) (v : V) → lookup k m ≡ some v → P k)
      → All (λ p. P p.0) m
  unfolding lookup
  All-of_lookup P [] u h = tt
  All-of_lookup P ((i, w) ∷ m) u h =
      (h i w (rw ((e.beq_iff i i).1 refl)), All-of_lookup P m u.1 λ k v q. h k v (later k v q))
    where
      later :
          (k : K) (v : V) → lookup k m ≡ some v → (if i == k then some w else lookup k m) ≡ some v
      later k v q = ground (arith, e.beq_iff i k, u.0, q, ap (λ j. lookup j m))

-- Whether a key is listed.
unfoldable pub contains {ℓ} : {K : Type ℓ} ⦃e : Eq K⦄ → List K → K → Bool
contains [] key = false
contains (k ∷ rest) key = k == key || contains rest key

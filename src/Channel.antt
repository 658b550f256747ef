-- ===== src/Channel.antt =====
-- A buffered Go channel, as far as senders, receivers and `close` meet in it.
use at_protocol_infrastructu.Prelude.{
  ℕ, ◌≤◌, ◌≡◌, refl, Bool, true, false, List, [], ◌∷◌, ◌++◌, arith, ltb, length, length-append,
  Bool-cases, inl, inr, ◌⊎◌, if◌then◌else◌,
}
use at_protocol_infrastructu.Prelude.Int.{ℤ, pos, negsuc}

-- What a goroutine has come to: it goes on, or it has panicked. Nothing in the relay recovers, so
-- a panic ends the process.
pub data Outcome {ℓ} (A : Type ℓ) : Type ℓ where
  running : A → Outcome A
  panicked : Outcome A

infixl 5 ◌>>=◌
abbrev pub ◌>>=◌ {ℓ κ} : {A : Type ℓ} {B : Type κ} → Outcome A → (A → Outcome B) → Outcome B
running a >>= f = f a
panicked >>= f = panicked

-- Inversion of a bind that runs.
pub >>=-eq-running {ℓ κ} :
    {A : Type ℓ} {B : Type κ} (m : Outcome A) (f : A → Outcome B) {b : B}
    → (m >>= f) ≡ running b
    → (a : A) × (m ≡ running a) × (f a ≡ running b)
>>=-eq-running (running a) f e = (a, refl, e)
>>=-eq-running panicked f e = absurd (cc)

pub record Chan {ℓ} (A : Type ℓ) : Type ℓ where
  pub cap : ℕ
  pub buffer : List A
  pub closed : Bool

-- What a receiver finds: a value, the end of a closed channel, or nothing yet.
pub data Received {ℓ} (A : Type ℓ) : Type ℓ where
  value : A → Chan A → Received A
  ended : Received A
  blocked : Received A

module _ {ℓ} {A : Type ℓ} where
  abbrev pub make : ℕ → Chan A
  make cap = record { cap = cap; buffer = []; closed = false }

  -- `make(chan A, n)`, which panics where `n` is negative.
  unfoldable pub make_sized : ℤ → Outcome (Chan A)
  make_sized (pos n) = running (make n)
  make_sized (negsuc n) = panicked

  -- `select { case ch <- a: … default: … }`: the flag says which case was taken. A send on a
  -- closed channel panics, in a `select` with a default too.
  unfoldable pub try_send : Chan A → A → Outcome (Chan A × Bool)
  try_send ch a =
      if ch.closed
      then panicked
      else if ltb (length ch.buffer) ch.cap
      then running (record ch { buffer = ch.buffer ++ a ∷ [] }, true)
      else running (ch, false)

  unfoldable pub close : Chan A → Outcome (Chan A)
  close ch = if ch.closed then panicked else running (record ch { closed = true })

  take_buffer : List A → Chan A → Received A
  take_buffer [] ch = if ch.closed then ended else blocked
  take_buffer (a ∷ rest) ch = value a (record ch { buffer = rest })

  unfoldable pub receive : Chan A → Received A
  unfolding take_buffer
  receive ch = take_buffer ch.buffer ch

abbrev pub IsBounded {ℓ} : {A : Type ℓ} → Chan A → Type 0
IsBounded ch = length ch.buffer ≤ ch.cap

-- A property of the state that a goroutine comes to, if it does not panic; a panic has none.
abbrev pub Ensures {ℓ} : {A : Type ℓ} → (A → Type 0) → Outcome A → Type 0
Ensures P (running a) = P a
Ensures P panicked = ⊥

module _ {ℓ} {A : Type ℓ} where
  -- What a send leaves of an open channel: open, of the same capacity, within it if it was.
  pub record Sent (ch : Chan A) (r : Chan A × Bool) : Type 0 where
    pub still_open : r.0.closed ≡ false
    pub same_cap : r.0.cap ≡ ch.cap
    pub bounded : length ch.buffer ≤ ch.cap → length r.0.buffer ≤ r.0.cap

  pub try_send-Sent :
      (ch : Chan A) (a : A)
      → ch.closed ≡ false
      → (r : Chan A × Bool) × (try_send ch a ≡ running r) × Sent ch r
  unfolding try_send
  try_send-Sent ch a h = elim (Bool-cases (ltb (length ch.buffer) ch.cap)) [
    | inl room ↦ (
      (record ch { buffer = ch.buffer ++ a ∷ [] }, true),
      ground arith,
      record {
        still_open = h;
        same_cap = refl;
        bounded = λ b. ground (arith, length-append ch.buffer (a ∷ []));
      },
    )
    | inr full ↦
        ((ch, false), ground arith, record { still_open = h; same_cap = refl; bounded = λ b. b })
  ]

  pub try_send_room :
      (ch : Chan A) (a : A)
      → ch.closed ≡ false
      → ltb (length ch.buffer) ch.cap ≡ true
      → try_send ch a ≡ running (record ch { buffer = ch.buffer ++ a ∷ [] }, true)
  unfolding try_send
  try_send_room ch a o room = ground arith

  pub try_send_full :
      (ch : Chan A) (a : A)
      → ch.closed ≡ false
      → ltb (length ch.buffer) ch.cap ≡ false
      → try_send ch a ≡ running (ch, false)
  unfolding try_send
  try_send_full ch a o full = ground arith

  -- What a receiver finds.
  pub receive_cases :
      (ch : Chan A)
      → (receive ch ≡ ended)
        ⊎ (receive ch ≡ blocked)
        ⊎ ((a : A) × (rest : List A) × (ch.buffer ≡ a ∷ rest)
            × (receive ch ≡ value a (record ch { buffer = rest })))
  unfolding receive take_buffer
  receive_cases ch = found ch.buffer
    where
      found :
          (b : List A)
          → (take_buffer b ch ≡ ended)
            ⊎ (take_buffer b ch ≡ blocked)
            ⊎ ((a : A) × (rest : List A) × (b ≡ a ∷ rest)
                × (take_buffer b ch ≡ value a (record ch { buffer = rest })))
      found (a ∷ rest) = inr (inr (a, rest, refl, refl))
      found [] = elim (Bool-cases ch.closed) [
        | inl done ↦ inl (rw done)
        | inr more ↦ inr (inl (rw more))
      ]

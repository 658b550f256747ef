-- ===== src/Firehose/Stream.antt =====
-- The order in which a subscriber gets events. For a client that no replay writes to, what has gone
-- out on its connection, what waits in its buffer and what waits in the broadcast channel are, in
-- this order, a subsequence of the events that were submitted, in theirs.
use mathlib.Core.List.{Sublist, append_assoc, append-nil, nil-sublist}
use mathlib.Core.List.Sublist
use at_protocol_infrastructu.Prelude.{
  ℕ, ◌≡◌, refl, Bool, true, false, List, [], ◌∷◌, ◌++◌, ap, sym, subst, ◌&&◌, arith, ◌==◌, nat_eq,
  if◌then◌else◌,
}
use at_protocol_infrastructu.Channel.{Chan, value, receive}
use at_protocol_infrastructu.Firehose.Message.{Object}
use at_protocol_infrastructu.Firehose.Server.{Conn, Server, Action, submit, replay, update}
use at_protocol_infrastructu.Firehose.Server.{Frame, text, close_frame, ping_frame, send_frame}

-- The messages among the frames of a connection.
abbrev pub texts : List Frame → List Object
texts [] = []
texts (text m ∷ rest) = m ∷ texts rest
texts (close_frame ∷ rest) = texts rest
texts (ping_frame ∷ rest) = texts rest

abbrev pub received : Server → ℕ → List Object
received s k = texts (s.conns k).written ++ (s.sends k).buffer

abbrev pub stream : Server → ℕ → List Object
stream s k = received s k ++ s.broadcast.buffer

abbrev pub submitted : Action → List Object
submitted (submit m) = m ∷ []
submitted _ = []

abbrev pub IsReplayTo : ℕ → Action → Type 0
IsReplayTo k (replay id m) = id ≡ k
IsReplayTo k _ = ⊥

texts-append : (xs ys : List Frame) → texts (xs ++ ys) ≡ texts xs ++ texts ys
texts-append [] ys = refl
texts-append (text m ∷ xs) ys = ap (◌∷◌ m) (texts-append xs ys)
texts-append (close_frame ∷ xs) ys = texts-append xs ys
texts-append (ping_frame ∷ xs) ys = texts-append xs ys

-- The stream as a function of its parts.
abbrev pub joined : List Frame → List Object → List Object → List Object
joined w b q = texts w ++ b ++ q

module _ (w : List Frame) (m : Object) (b q : List Object) where
  joined_written : joined (w ++ text m ∷ []) b q ≡ joined w (m ∷ b) q
  joined_written = rw texts-append (rw (append_assoc (texts w) (m ∷ []) b))

  joined_lost : Sublist (joined w b q) (joined w (m ∷ b) q)
  joined_lost =
      Sublist.append (Sublist.append (Sublist.refl (texts w)) (Sublist.cons m (Sublist.refl b)))
        (Sublist.refl q)

  joined_closed : joined (w ++ close_frame ∷ []) b q ≡ joined w b q
  joined_closed = rw texts-append (rw append-nil)

  pub joined_moved : joined w (b ++ m ∷ []) q ≡ joined w b (m ∷ q)
  joined_moved = rw (← append_assoc (texts w) b (m ∷ [])) (append_assoc (texts w ++ b) (m ∷ []) q)

  pub joined_skipped : Sublist (joined w b q) (joined w b (m ∷ q))
  joined_skipped = Sublist.append (Sublist.refl (texts w ++ b)) (Sublist.cons m (Sublist.refl q))

  pub joined_queued : joined w b (q ++ m ∷ []) ≡ joined w b q ++ m ∷ []
  joined_queued = sym (append_assoc (texts w ++ b) q (m ∷ []))

pub joined_fresh : (w : List Frame) (b q : List Object) → Sublist (joined [] [] q) (joined w b q)
joined_fresh w b q = Sublist.append (nil-sublist (texts w ++ b)) (Sublist.refl q)

-- The bound of a step that submits nothing.
pub nothing_more : {xs ys : List Object} → Sublist xs ys → Sublist xs (ys ++ [])
nothing_more h = rw append-nil h

pub Same : {xs ys : List Object} → xs ≡ ys → Sublist xs ys
Same {xs} e = subst (Sublist xs) e (Sublist.refl xs)

pub update_self {ℓ} : {A : Type ℓ} (f : ℕ → A) (k : ℕ) (a : A) → update f k a k ≡ a
update_self f k a = ground arith

pub update_other {ℓ} :
    {A : Type ℓ} (f : ℕ → A) (id k : ℕ) (a : A) → (id == k) ≡ false → update f id a k ≡ f k
update_other f id k a e = ground arith

-- The frame that a write leaves, if any.
pub sent_joined :
    (up : Bool) (m : Object) (c : Conn) (b q : List Object)
    → Sublist (joined (send_frame up (text m) c).written b q) (joined c.written (m ∷ b) q)
unfolding send_frame
sent_joined up m c b q =
    elim (up && c.is_open)
      as (λ x.
        Sublist
          (joined
            (if x
              then record c { written = c.written ++ text m ∷ [] }
              else record c { is_open = false; pumping = false }).written
            b q)
          (joined c.written (m ∷ b) q)) [
            | true ↦ Same (joined_written c.written m b q)
            | false ↦ joined_lost c.written m b q
          ]

pub closed_joined :
    (up : Bool) (c : Conn) (b q : List Object)
    → joined (send_frame up close_frame c).written b q ≡ joined c.written b q
unfolding send_frame
closed_joined up c b q =
    elim (up && c.is_open)
      as (λ x.
        joined
          (if x
            then record c { written = c.written ++ close_frame ∷ [] }
            else record c { is_open = false; pumping = false }).written
          b q
        ≡ joined c.written b q) [ true ↦ rw texts-append (rw append-nil) | false ↦ refl ]

pub pinged_joined :
    (up : Bool) (c : Conn) (b q : List Object)
    → joined (send_frame up ping_frame c).written b q ≡ joined c.written b q
unfolding send_frame
pinged_joined up c b q =
    elim (up && c.is_open)
      as (λ x.
        joined
          (if x
            then record c { written = c.written ++ ping_frame ∷ [] }
            else record c { is_open = false; pumping = false }).written
          b q
        ≡ joined c.written b q) [ true ↦ rw texts-append (rw append-nil) | false ↦ refl ]

pub receive_value :
    (ch ch' : Chan Object) (m : Object) → receive ch ≡ value m ch' → ch.buffer ≡ m ∷ ch'.buffer
unfolding receive
receive_value ch ch' m e = ground arith

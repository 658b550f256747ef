-- ===== src/Firehose/Writing.antt =====
-- What closing, stopping, accepting and writing do to the stream of a client.
use mathlib.Core.List.{Sublist}
use mathlib.Core.List.Sublist
use at_protocol_infrastructu.Prelude.{
  ℕ, ◌+◌, ◌≡◌, refl, Bool, true, false, List, [], ◌∷◌, ap, sym, subst, ◌∙◌, inl, inr, arith, ◌==◌,
  nat_eq, if◌then◌else◌, Bool-cases,
}
use at_protocol_infrastructu.Channel.{make, Received, value, ended, blocked, receive}
use at_protocol_infrastructu.Prelude.{String}
use at_protocol_infrastructu.Prelude.Int.{ℤ}
use at_protocol_infrastructu.Ingest.Event.{Time}
use at_protocol_infrastructu.Firehose.Message.{Object}
use at_protocol_infrastructu.Firehose.Server.{
  Client, Server, write_received, u64, accept, write_pump, close_conn, close_conns,
}
use at_protocol_infrastructu.Firehose.Stream.{
  stream, joined, joined_fresh, Same, update_self, update_other, sent_joined, closed_joined,
  receive_value,
}

pub close-stream : (s : Server) (id k : ℕ) → stream (close_conn s id) k ≡ stream s k
unfolding close_conn
close-stream s id k =
    let e : ((close_conn s id).conns k).written ≡ (s.conns k).written =
      ground (arith, ap s.conns) in
    ap (λ w. joined w (s.sends k).buffer s.broadcast.buffer) e

pub stop-stream :
    (cs : List (ℕ × Client)) (s : Server) (k : ℕ) → stream (close_conns cs s) k ≡ stream s k
unfolding close_conns
stop-stream [] s k = refl
stop-stream ((id, c) ∷ rest) s k = stop-stream rest (close_conn s id) k ∙ close-stream s id k

pub accept-stream :
    (s : Server) (cursor : ℤ) (remote : String) (now : Time) (k : ℕ)
    → Sublist (stream (accept s cursor remote now) k) (stream s k)
unfolding accept
accept-stream s cursor remote now k =
    elim (u64 (s.next_id + 1) == k)
      as (λ b.
        Sublist
          (joined
            (if b
              then record { written = []; is_open = true; pumping = true }
              else s.conns k).written
            (if b then make 256 else s.sends k).buffer s.broadcast.buffer)
          (stream s k)) [
            | true ↦ joined_fresh (s.conns k).written (s.sends k).buffer s.broadcast.buffer
            | false ↦ Sublist.refl _
          ]

write_other :
    (s : Server) (id k : ℕ) (up : Bool)
    → (id == k) ≡ false
    → stream (write_pump s id up) k ≡ stream s k
unfolding write_pump
write_other s id k up o =
    elim (s.conns id).pumping
      as (λ b.
        stream (if b then write_received s id up (receive (s.sends id)) else s) k ≡ stream s k) [
          | true ↦ after (receive (s.sends id))
          | false ↦ refl
        ]
  where
    after : (r : Received Object) → stream (write_received s id up r) k ≡ stream s k
    after (value m ch) = rw (update_other s.conns id k _ o, update_other s.sends id k _ o)
    after ended = rw (update_other s.conns id k _ o)
    after blocked = refl

write_self : (s : Server) (k : ℕ) (up : Bool) → Sublist (stream (write_pump s k up) k) (stream s k)
unfolding write_pump
write_self s k up =
    elim (s.conns k).pumping
      as (λ b.
        Sublist (stream (if b then write_received s k up (receive (s.sends k)) else s) k)
          (stream s k)) [ true ↦ after (receive (s.sends k)) refl | false ↦ Sublist.refl _ ]
  where
    after :
        (r : Received Object)
        → receive (s.sends k) ≡ r
        → Sublist (stream (write_received s k up r) k) (stream s k)
    after (value m ch) e =
        rw (update_self s.conns k, update_self s.sends k, receive_value (s.sends k) ch m e)
          (sent_joined up m (s.conns k) ch.buffer s.broadcast.buffer)
    after ended e = rw (update_self s.conns k) (Same (closed_joined up (s.conns k) _ _))
    after blocked e = Sublist.refl _

pub write-stream :
    (s : Server) (id k : ℕ) (up : Bool) → Sublist (stream (write_pump s id up) k) (stream s k)
write-stream s id k up = elim (Bool-cases (id == k)) [
  | inl e ↦
      subst (λ j. Sublist (stream (write_pump s j up) k) (stream s k))
        (sym ((nat_eq.beq_iff id k).0 e)) (write_self s k up)
  | inr e ↦ Same (write_other s id k up e)
]

-- A ping changes no text.

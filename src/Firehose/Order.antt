-- ===== src/Firehose/Order.antt =====
-- No step of the server lets a client's stream hold anything but the submitted events, in order.
use mathlib.Core.List.{Sublist, append-nil, sublist-append_left}
use mathlib.Core.List.Sublist
use at_protocol_infrastructu.Prelude.{
  ℕ, ◌≡◌, refl, Bool, true, false, none, some, List, [], ◌∷◌, ◌++◌, ap, ltb, inl, inr, arith, ◌==◌,
  nat_eq, if◌then◌else◌, length, Bool-cases, Option-cases,
}
use at_protocol_infrastructu.Prelude.Assoc.{lookup, All-of_lookup}
use at_protocol_infrastructu.Channel.{
  running, Chan, close, Received, value, ended, blocked, receive, Ensures, try_send-Sent,
  try_send_room, try_send_full,
}
use at_protocol_infrastructu.Firehose.Message.{Object}
use at_protocol_infrastructu.Firehose.Server.{
  Client, Server, Action, connect, run_register, run_unregister, run_broadcast, submit, hang_up,
  write, ping, ping_frame, send_frame, write_ping, shut, replay, shut_down, update, on_register,
  on_unregister, on_broadcast, offer, serve_register, serve_unregister, serve_broadcast,
  replay_send, stop, step,
}
use at_protocol_infrastructu.Firehose.Invariant.{Inv}
use at_protocol_infrastructu.Firehose.Steps.{outside-Inv}
use at_protocol_infrastructu.Firehose.Delivery.{pick, delivered, deliver-delivered}
use at_protocol_infrastructu.Firehose.Safety.{MaySend}
use at_protocol_infrastructu.Firehose.Server.{Frame, send_frame}
use at_protocol_infrastructu.Firehose.Stream.{
  stream, submitted, IsReplayTo, joined, joined_moved, joined_skipped, joined_queued, nothing_more,
  Same, update_other, pinged_joined, receive_value,
}
use at_protocol_infrastructu.Firehose.Writing.{
  close-stream, stop-stream, accept-stream, write-stream,
}

ping-stream : (s : Server) (id k : ℕ) (up : Bool) → stream (write_ping s id up) k ≡ stream s k
unfolding write_ping
ping-stream s id k up =
    elim (s.conns id).pumping
      as (λ b.
        stream
          (if b
            then record s { conns = update s.conns id (send_frame up ping_frame (s.conns id)) }
            else s)
          k
        ≡ stream s k) [
          | false ↦ refl
          | true ↦ elim (Bool-cases (id == k)) [
            | inl e ↦ rw e (
                rw ((nat_eq.beq_iff id k).0 e)
                  (pinged_joined up (s.conns k) (s.sends k).buffer s.broadcast.buffer))
            | inr e ↦ rw e refl
          ]
        ]

offer-stream :
    (s : Server) (m : Object) (k : ℕ)
    → s.broadcast.closed ≡ false
    → Ensures (λ t. Sublist (stream t k) (stream s k ++ m ∷ [])) (offer s m)
unfolding offer
offer-stream s m k o = elim (Bool-cases (ltb (length s.broadcast.buffer) s.broadcast.cap)) [
  | inl room ↦
      rw (try_send_room s.broadcast m o room, offer)
        (Same (joined_queued (s.conns k).written m (s.sends k).buffer s.broadcast.buffer))
  | inr full ↦
      rw (try_send_full s.broadcast m o full, offer) (sublist-append_left (stream s k) (m ∷ []))
]

-- One message leaves the broadcast channel for the buffer of `k`, or is skipped.
delivered-joined :
    (m : Object) (cs : List (ℕ × Client)) (f : ℕ → Chan Object) (k : ℕ) (w : List Frame)
    (q : List Object)
    → Sublist (joined w (delivered m cs f k).buffer q) (joined w (f k).buffer (m ∷ q))
delivered-joined m cs f k w q =
    elim (lookup k cs)
      as (λ o. Sublist (joined w (pick o m (f k)).buffer q) (joined w (f k).buffer (m ∷ q))) [
        | none ↦ joined_skipped w m (f k).buffer q
        | some _ ↦
            elim (ltb (length (f k).buffer) (f k).cap)
              as (λ b.
                Sublist
                  (joined w
                    (if b then record (f k) { buffer = (f k).buffer ++ m ∷ [] } else f k).buffer q)
                  (joined w (f k).buffer (m ∷ q))) [
                    | true ↦ Same (joined_moved w m (f k).buffer q)
                    | false ↦ joined_skipped w m (f k).buffer q
                  ]
      ]

broadcast-stream :
    (s : Server) (m : Object) (ch : Chan Object) (k : ℕ)
    → Inv s
    → receive s.broadcast ≡ value m ch
    → Ensures
        (λ t. Sublist (stream t k) (stream s k))
        (on_broadcast (record s { broadcast = ch }) m)
unfolding on_broadcast
broadcast-stream s m ch k v e =
    let live =
      All-of_lookup (λ j. (s.sends j).closed ≡ false) s.clients v.unique
        (λ j c h. (v.registered j c h).1) in
    let (g, e', d) = deliver-delivered m s.clients s.sends v.unique live in
    rw (e', on_broadcast)
      (rw (d k, receive_value s.broadcast ch m e)
        (delivered-joined m s.clients s.sends k (s.conns k).written ch.buffer))

unregister-stream :
    (s : Server) (c : Client) (k : ℕ)
    → Inv s
    → Ensures (λ t. Sublist (stream t k) (stream s k)) (on_unregister s c)
unfolding on_unregister close
unregister-stream s c k v = elim (Option-cases (lookup c.id s.clients)) [
  | inl e ↦ rw (e, on_unregister) (Sublist.refl _)
  | inr (d, e) ↦
      let ch : Chan Object = record (s.sends c.id) { closed = true } in
      let same : (update s.sends c.id ch k).buffer ≡ (s.sends k).buffer =
        ground (arith, ap s.sends) in
      rw (e, on_unregister, (v.registered c.id d e).1)
        (Same (ap (λ b. joined (s.conns k).written b s.broadcast.buffer) same))
]

replay-stream :
    (s : Server) (id k : ℕ) (m : Object)
    → (id == k) ≡ false
    → (s.sends id).closed ≡ false
    → Ensures (λ t. Sublist (stream t k) (stream s k)) (step s (replay id m))
unfolding step replay_send
replay-stream s id k m e o =
    let (r, q, sent) = try_send-Sent (s.sends id) m o in
    rw (q, replay_send) (rw (update_other s.sends id k r.0 e) (Sublist.refl _))

-- Every step of a server with the invariant, but a replay to `k` itself, leaves of the stream of
-- `k` a subsequence, to which a submitted event may be added at the end.
pub step-stream :
    (s : Server) (a : Action) (k : ℕ)
    → MaySend s a
    → ¬ IsReplayTo k a
    → Inv s
    → Ensures (λ t. Sublist (stream t k) (stream s k ++ submitted a)) (step s a)
unfolding step
step-stream s (connect cursor remote now) k may other v =
    nothing_more (accept-stream s cursor remote now k)
step-stream s run_register k may other v =
    nothing_more
      (elim s.stopped
        as (λ b. Sublist (stream (if b then s else serve_register s s.register) k) (stream s k)) [
          | true ↦ Sublist.refl _
          | false ↦ after s.register
        ])
  where
    after : (q : List Client) → Sublist (stream (serve_register s q) k) (stream s k)
    after [] = Sublist.refl _
    after (c ∷ rest) = unfold on_register in Sublist.refl _
step-stream s run_unregister k may other v =
    rw append-nil
      (elim s.stopped
        as (λ b.
          Ensures (λ t. Sublist (stream t k) (stream s k))
            (if b then running s else serve_unregister s s.unregister)) [
              | true ↦ Sublist.refl _
              | false ↦ after s.unregister
            ])
  where
    after :
        (q : List Client) → Ensures (λ t. Sublist (stream t k) (stream s k)) (serve_unregister s q)
    after [] = Sublist.refl _
    after (c ∷ rest) = unregister-stream _ c k (outside-Inv s rest s.conns s.stopped v)
step-stream s run_broadcast k may other v =
    rw append-nil
      (elim s.stopped
        as (λ b.
          Ensures (λ t. Sublist (stream t k) (stream s k))
            (if b then running s else serve_broadcast s (receive s.broadcast))) [
              | true ↦ Sublist.refl _
              | false ↦ after (receive s.broadcast) refl
            ])
  where
    after :
        (r : Received Object)
        → receive s.broadcast ≡ r
        → Ensures (λ t. Sublist (stream t k) (stream s k)) (serve_broadcast s r)
    after (value message ch) e = broadcast-stream s message ch k v e
    after ended e = Sublist.refl _
    after blocked e = Sublist.refl _
step-stream s (submit message) k may other v = offer-stream s message k v.broadcast_open
step-stream s (hang_up client) k may other v = nothing_more (Sublist.refl _)
step-stream s (write id up) k may other v = nothing_more (write-stream s id k up)
step-stream s (ping id up) k may other v = nothing_more (Same (ping-stream s id k up))
step-stream s (shut id) k may other v = nothing_more (Same (close-stream s id k))
step-stream s (replay id message) k may other v =
    rw append-nil (unfold step in replay-stream s id k message (ground (arith, other)) may)
step-stream s shut_down k may other v =
    unfold stop in nothing_more (Same (stop-stream s.clients _ k))

-- ===== src/Firehose/Safety.antt =====
-- Over any schedule the firehose server keeps its invariant, and panics only where a replay sends
-- to a client whose channel `run` has closed.
use at_protocol_infrastructu.Prelude.{
  ℕ, suc, ◌^◌, ◌<◌, ◌≡◌, refl, true, false, List, [], ◌∷◌, arith, nat_eq, if◌then◌else◌,
}
use at_protocol_infrastructu.Channel.{
  running, Received, value, ended, blocked, receive, Ensures, try_send-Sent,
}
use at_protocol_infrastructu.Firehose.Message.{Object}
use at_protocol_infrastructu.Firehose.Server.{
  Client, Server, Action, connect, run_register, run_unregister, run_broadcast, submit, hang_up,
  write, ping, ping_frame, send_frame, write_ping, shut, replay, shut_down, update, close_conn,
  close_conns, serve_register, serve_unregister, serve_broadcast, replay_send, stop, step,
}
use at_protocol_infrastructu.Firehose.Invariant.{Inv}
use at_protocol_infrastructu.Firehose.Channels.{update-SameChans}
use at_protocol_infrastructu.Firehose.Steps.{
  outside-Inv, accept-Inv, write-Inv, offer-Inv, broadcast-Inv, register-Inv, unregister-Inv,
  channel-Inv, sends-Inv,
}

stop-Inv : (cs : List (ℕ × Client)) (s : Server) → Inv s → Inv (close_conns cs s)
unfolding close_conns
stop-Inv [] s v = v
stop-Inv ((id, c) ∷ rest) s v =
    stop-Inv rest (close_conn s id) (unfold close_conn in outside-Inv s s.unregister _ s.stopped v)

-- A replay step may go to an open channel only.
abbrev pub MaySend : Server → Action → Type 0
MaySend s (replay id message) = (s.sends id).closed ≡ false
MaySend s _ = Unit

-- The id counter stays below the wrap of its 64 bits.
abbrev pub HasRoom : Server → Action → Type 0
HasRoom s (connect _ _ _) = suc s.next_id < 2 ^ 64
HasRoom s _ = Unit

-- A step that is no replay to a closed channel keeps the invariant, and does not panic.
pub step-Inv :
    (s : Server) (a : Action) → HasRoom s a → MaySend s a → Inv s → Ensures Inv (step s a)
unfolding step
step-Inv s (connect cursor remote now) room may v = accept-Inv s cursor remote now room v
step-Inv s run_register room may v =
    elim s.stopped as (λ b. Inv (if b then s else serve_register s s.register)) [
      | true ↦ v
      | false ↦ after s.register refl
    ]
  where
    after : (q : List Client) → s.register ≡ q → Inv (serve_register s q)
    after [] e = v
    after (c ∷ rest) e = register-Inv s c rest e v
step-Inv s run_unregister room may v =
    elim s.stopped
      as (λ b. Ensures Inv (if b then running s else serve_unregister s s.unregister)) [
        | true ↦ v
        | false ↦ after s.unregister
      ]
  where
    after : (q : List Client) → Ensures Inv (serve_unregister s q)
    after [] = v
    after (c ∷ rest) = unregister-Inv _ c (outside-Inv s rest s.conns s.stopped v)
step-Inv s run_broadcast room may v =
    elim s.stopped
      as (λ b. Ensures Inv (if b then running s else serve_broadcast s (receive s.broadcast))) [
        | true ↦ v
        | false ↦ after (receive s.broadcast) refl
      ]
  where
    after : (r : Received Object) → receive s.broadcast ≡ r → Ensures Inv (serve_broadcast s r)
    after (value message ch) e = broadcast-Inv _ message (
        unfold receive in
        channel-Inv s ch s.metrics (ground (arith, v.broadcast_open)) (ground arith)
          (ground (arith, v.broadcast_bounded)) v)
    after ended e = v
    after blocked e = v
step-Inv s (submit message) room may v = offer-Inv s message v
step-Inv s (hang_up client) room may v = outside-Inv s _ s.conns s.stopped v
step-Inv s (write id up) room may v = write-Inv s id up v
step-Inv s (ping id up) room may v =
    unfold write_ping in
    elim (s.conns id).pumping
      as (λ b. Inv (
        if b
        then record s { conns = update s.conns id (send_frame up ping_frame (s.conns id)) }
        else s)) [ true ↦ outside-Inv s s.unregister _ s.stopped v | false ↦ v ]
step-Inv s (shut id) room may v = unfold close_conn in outside-Inv s s.unregister _ s.stopped v
step-Inv s (replay id message) room may v =
    let (r, e, sent) = try_send-Sent (s.sends id) message may in
    unfold replay_send in
    rw (e, replay_send) (sends-Inv s _ (update-SameChans s.sends id r may sent) v)
step-Inv s shut_down room may v =
    unfold stop in stop-Inv s.clients _ (outside-Inv s s.unregister s.conns true v)

-- ===== src/Firehose/Waiting.antt =====
-- A firehose server that waits for messages, and one message on its way through it.
use at_protocol_infrastructu.Prelude.{
  ℕ, ◌≡◌, refl, ap, ◌∙◌, sym, subst, false, true, List, [], ◌∷◌, ◌++◌, length, ltb, arith, nat_eq,
}
use at_protocol_infrastructu.Channel.{
  Ensures, >>=-eq-running, running, Chan, value, receive, try_send_room,
}
use at_protocol_infrastructu.Firehose.Message.{Object}
use at_protocol_infrastructu.Firehose.Server
use at_protocol_infrastructu.Firehose.Server.{
  Server, run_broadcast, offer, inc_broadcast, serve_broadcast, on_broadcast, deliver,
}
use at_protocol_infrastructu.Firehose.Invariant.{Inv}
use at_protocol_infrastructu.Firehose.Steps.{channel-Inv, broadcast-Inv}
use at_protocol_infrastructu.Firehose.Delivery.{delivered, broadcast_reaches_all}

-- The server once a message is in its channel.
abbrev pub submitted : Server → Object → Server
submitted s m = record s {
  broadcast = record s.broadcast { buffer = s.broadcast.buffer ++ m ∷ [] };
  metrics = inc_broadcast s.metrics;
}

offer_submits :
    (s : Server) (m : Object)
    → s.broadcast.closed ≡ false
    → ltb (length s.broadcast.buffer) s.broadcast.cap ≡ true
    → offer s m ≡ running (submitted s m)
unfolding offer
offer_submits s m o room = rw (try_send_room s.broadcast m o room) refl

pub submitted_by :
    (s t : Server) (m : Object)
    → Inv s
    → s.broadcast.buffer ≡ []
    → offer s m ≡ running t
    → t ≡ submitted s m
submitted_by s t m v e h =
    let room : ltb (length s.broadcast.buffer) s.broadcast.cap ≡ true =
      rw (e, v.broadcast_cap) refl in
    let both : running t ≡ running (submitted s m) =
      sym h ∙ offer_submits s m v.broadcast_open room in
    cc

pub first_received {ℓ} :
    {A : Type ℓ} (before : List A) (m : A) (ch : Chan A)
    → before ≡ []
    → ch.buffer ≡ before ++ m ∷ []
    → receive ch ≡ value m (record ch { buffer = [] })
unfolding receive
first_received before m ch e q = rw (q ∙ ap (λ b. b ++ m ∷ []) e) refl

broadcast_step :
    (s : Server) (m : Object) (ch : Chan Object)
    → s.stopped ≡ false
    → receive s.broadcast ≡ value m ch
    → Server.step s run_broadcast ≡ on_broadcast (record s { broadcast = ch }) m
unfolding Server.step serve_broadcast
broadcast_step s m ch up e = rw (up, e) refl

-- A server that runs, with the invariant and nothing queued.
pub record Waiting (s : Server) : Type 0 where
  pub inv : Inv s
  pub nothing_queued : s.broadcast.buffer ≡ []
  pub up : s.stopped ≡ false

on_broadcast-Waiting :
    (s t : Server) (m : Object) → Waiting s → on_broadcast s m ≡ running t → Waiting t
unfolding on_broadcast
on_broadcast-Waiting s t m w e =
    let (g, sent, q) = >>=-eq-running (deliver m s.clients s.sends) _ e in
    let same : record s { sends = g } ≡ t = cc in
    record {
      inv = subst (Ensures Inv) e (broadcast-Inv s m w.inv);
      nothing_queued = ap (λ u. u.broadcast.buffer) (sym same) ∙ w.nothing_queued;
      up = ap (λ u. u.stopped) (sym same) ∙ w.up;
    }

-- `run` takes the only message and hands it to every registered client.
pub broadcast_one :
    (s : Server) (m : Object)
    → Inv s
    → s.broadcast.buffer ≡ []
    → s.stopped ≡ false
    → (t : Server) × (Server.step (submitted s m) run_broadcast ≡ running t)
      × (t.clients ≡ s.clients)
      × Waiting t
      × ((j : ℕ) → t.sends j ≡ delivered m s.clients s.sends j)
broadcast_one s m v e up =
    let ch : Chan Object = record s.broadcast { buffer = [] } in
    let base : Server = record s { broadcast = ch; metrics = inc_broadcast s.metrics } in
    let v' : Inv base =
      channel-Inv s ch (inc_broadcast s.metrics) v.broadcast_open refl (omega arith) v in
    let (t, ran, same, reached) = broadcast_reaches_all base m v' in
    (
      t,
      broadcast_step (submitted s m) m ch up
            (first_received s.broadcast.buffer m (submitted s m).broadcast e refl)
          ∙ ran,
      same,
      on_broadcast-Waiting base t m (record { inv = v'; nothing_queued = refl; up = up }) ran,
      reached,
    )

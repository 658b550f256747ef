-- ===== src/Firehose/Steps.antt =====
-- Every step of the firehose server keeps the invariant, and only a replay can panic.
use at_protocol_infrastructu.Prelude.{
  ℕ, suc, ◌+◌, ◌^◌, ◌≤◌, ◌<◌, ◌≡◌, refl, Bool, true, false, Option, none, List, ◌∷◌, ap, subst, ◌∙◌,
  inl, inr, arith, nat_eq, if◌then◌else◌, length, length-append, Option-cases,
}
use at_protocol_infrastructu.Prelude.Assoc.{
  lookup, lookup-insert, lookup-delete, length-insert, length-delete, insert-Unique, delete-Unique,
  All-of_lookup,
}
use at_protocol_infrastructu.Channel.{
  Chan, make, close, Received, value, ended, blocked, receive, Ensures, Sent, try_send-Sent,
}
use at_protocol_infrastructu.Prelude.{String}
use at_protocol_infrastructu.Prelude.Int.{ℤ}
use at_protocol_infrastructu.Ingest.Event.{Time}
use at_protocol_infrastructu.Firehose.Message.{Object}
use at_protocol_infrastructu.Firehose.Server.{
  Client, Conn, Server, inc_broadcast, write_received, u64, update, on_register, on_unregister,
  on_broadcast, offer, accept, write_pump, Metrics,
}
use at_protocol_infrastructu.Firehose.Invariant.{
  Waiting, Inv, Waiting-le, Waiting-insert, Waiting-delete, Waiting-flags, Waiting-accept,
  Waiting-lower,
}
use at_protocol_infrastructu.Firehose.Channels.{SameChans, deliver-SameChans}

-- Two states of the channels: the same ones are closed, and the capacities and their bounds stay.
pub sends-Inv :
    (s : Server) (g : ℕ → Chan Object) → SameChans s.sends g → Inv s → Inv (record s { sends = g })
sends-Inv s g same v = record {
  counted = v.counted;
  issued = v.issued;
  wraps = v.wraps;
  unique = v.unique;
  waiting = Waiting-flags s.clients s.sends g s.next_id 0 s.register same.flags v.waiting;
  registered = λ k c h. let (i, o) = v.registered k c h in (i, same.flags k ∙ o);
  buffers = λ k. same.bounds k (v.buffers k);
  capacities = λ k. omega (arith, same.caps k, v.capacities k);
  broadcast_open = v.broadcast_open;
  broadcast_cap = v.broadcast_cap;
  broadcast_bounded = v.broadcast_bounded;
}

pub register-Inv :
    (s : Server) (c : Client) (rest : List Client)
    → s.register ≡ c ∷ rest
    → Inv s
    → Inv (on_register (record s { register = rest }) c)
unfolding on_register
register-Inv s c rest e v =
    let w : Waiting s.clients s.sends s.next_id 0 (c ∷ rest) =
      subst (Waiting s.clients s.sends s.next_id 0) e v.waiting in
    let size : length s.register ≡ suc (length rest) = ap length e in
    let grown = rw w.1 at (length-insert c.id c s.clients) in
    record {
      counted = ground (arith, v.counted, v.issued, v.wraps, grown, size);
      issued = omega (arith, v.issued, grown, size);
      wraps = v.wraps;
      unique = insert-Unique c.id c s.clients v.unique;
      waiting =
          Waiting-lower _ s.sends s.next_id c.id 0 rest (omega arith)
            (Waiting-insert c.id c s.clients s.sends s.next_id c.id rest (omega arith) w.3);
      registered = λ k d h. ground (
        arith,
        lookup-insert c.id k c s.clients,
        v.registered k d,
        w.2,
        Waiting-le s.clients s.sends s.next_id c.id rest w.3,
      );
      buffers = v.buffers;
      capacities = v.capacities;
      broadcast_open = v.broadcast_open;
      broadcast_cap = v.broadcast_cap;
      broadcast_bounded = v.broadcast_bounded;
    }

pub unregister-Inv : (s : Server) (c : Client) → Inv s → Ensures Inv (on_unregister s c)
unfolding on_unregister close
unregister-Inv s c v = elim (Option-cases (lookup c.id s.clients)) [
  | inl e ↦ rw (e, on_unregister) v
  | inr (d, e) ↦
      let (i, o) = v.registered c.id d e in
      let shrunk = length-delete c.id d s.clients v.unique e in
      rw (e, on_unregister, o)
        (record {
          counted = omega (arith, v.counted, v.issued, v.wraps, shrunk);
          issued = omega (arith, v.issued, shrunk);
          wraps = v.wraps;
          unique = delete-Unique c.id s.clients v.unique;
          waiting = Waiting-delete c.id d _ s.clients s.sends s.next_id 0 s.register e v.waiting;
          registered = λ k x h. ground (arith, lookup-delete c.id k s.clients, v.registered k x);
          buffers = λ k. ground (arith, v.buffers k, v.buffers c.id);
          capacities = λ k. ground (arith, v.capacities k, v.capacities c.id);
          broadcast_open = v.broadcast_open;
          broadcast_cap = v.broadcast_cap;
          broadcast_bounded = v.broadcast_bounded;
        })
]

pub broadcast-Inv : (s : Server) (message : Object) → Inv s → Ensures Inv (on_broadcast s message)
unfolding on_broadcast
broadcast-Inv s message v =
    let live =
      All-of_lookup (λ k. (s.sends k).closed ≡ false) s.clients v.unique
        (λ k c h. (v.registered k c h).1) in
    let (g, e, same) = deliver-SameChans message s.clients s.sends live in
    rw (e, on_broadcast) (sends-Inv s g same v)

-- The `broadcast` channel may change while it stays open and within its capacity.
pub channel-Inv :
    (s : Server) (ch : Chan Object) (m : Option Metrics)
    → ch.closed ≡ false
    → ch.cap ≡ s.broadcast.cap
    → length ch.buffer ≤ ch.cap
    → Inv s
    → Inv (record s { broadcast = ch; metrics = m })
channel-Inv s ch m o c b v = record {
  counted = v.counted;
  issued = v.issued;
  wraps = v.wraps;
  unique = v.unique;
  waiting = v.waiting;
  registered = v.registered;
  buffers = v.buffers;
  capacities = v.capacities;
  broadcast_open = o;
  broadcast_cap = c ∙ v.broadcast_cap;
  broadcast_bounded = b;
}

pub offer-Inv : (s : Server) (msg : Object) → Inv s → Ensures Inv (offer s msg)
unfolding offer
offer-Inv s msg v =
    let (r, e, sent) = try_send-Sent s.broadcast msg v.broadcast_open in
    rw (e, offer) (after r sent)
  where
    after :
        (r : Chan Object × Bool)
        → Sent s.broadcast r
        → Inv (if r.1 then record s { broadcast = r.0; metrics = inc_broadcast s.metrics } else s)
    after (ch, true) sent =
        channel-Inv s ch _ sent.still_open sent.same_cap (sent.bounded v.broadcast_bounded) v
    after (ch, false) sent = v

-- Connections and the pumps blocked in `unregister` are outside the invariant.
pub outside-Inv :
    (s : Server) (q : List Client) (cs : ℕ → Conn) (b : Bool)
    → Inv s
    → Inv (record s { unregister = q; conns = cs; stopped = b })
outside-Inv s q cs b v = record {
  counted = v.counted;
  issued = v.issued;
  wraps = v.wraps;
  unique = v.unique;
  waiting = v.waiting;
  registered = v.registered;
  buffers = v.buffers;
  capacities = v.capacities;
  broadcast_open = v.broadcast_open;
  broadcast_cap = v.broadcast_cap;
  broadcast_bounded = v.broadcast_bounded;
}

pub accept-Inv :
    (s : Server) (cursor : ℤ) (remote : String) (now : Time)
    → suc s.next_id < 2 ^ 64
    → Inv s
    → Inv (accept s cursor remote now)
unfolding accept
accept-Inv s cursor remote now room v =
    let e : u64 (s.next_id + 1) ≡ suc s.next_id = omega arith in
    let fresh : lookup (suc s.next_id) s.clients ≡ none =
      elim (Option-cases (lookup (suc s.next_id) s.clients)) [
        | inl none_there ↦ none_there
        | inr (c, h) ↦ absurd (omega (arith, (v.registered (suc s.next_id) c h).0))
      ] in
    rw e (record {
      counted = v.counted;
      issued = omega (arith, v.issued, length-append {0} s.register);
      wraps = room;
      unique = v.unique;
      waiting =
          Waiting-accept _ (make 256) s.clients s.sends s.next_id 0 s.register refl fresh refl
            v.waiting;
      registered = λ k c h. ground (arith, v.registered k c h);
      buffers = λ k. ground (arith, v.buffers k);
      capacities = λ k. ground (arith, v.capacities k);
      broadcast_open = v.broadcast_open;
      broadcast_cap = v.broadcast_cap;
      broadcast_bounded = v.broadcast_bounded;
    })

-- A receive takes the oldest message of the channel and leaves its flag and capacity.
receive-SameChans :
    (f : ℕ → Chan Object) (k : ℕ) (message : Object) (ch : Chan Object)
    → receive (f k) ≡ value message ch
    → SameChans f (update f k ch)
unfolding receive
receive-SameChans f k message ch e = record {
  flags = λ j. ground (arith, ap f);
  caps = λ j. ground (arith, ap f);
  bounds = λ j b. ground (arith, ap f);
}

pub write-Inv : (s : Server) (id : ℕ) (up : Bool) → Inv s → Inv (write_pump s id up)
unfolding write_pump
write-Inv s id up v =
    elim (s.conns id).pumping
      as (λ b. Inv (if b then write_received s id up (receive (s.sends id)) else s)) [
        | true ↦ after (receive (s.sends id)) refl
        | false ↦ v
      ]
  where
    after : (r : Received Object) → receive (s.sends id) ≡ r → Inv (write_received s id up r)
    after (value message ch) e =
        outside-Inv _ s.unregister _ s.stopped
          (sends-Inv s _ (receive-SameChans s.sends id message ch e) v)
    after ended e = outside-Inv s s.unregister _ s.stopped v
    after blocked e = v

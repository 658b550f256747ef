-- ===== src/Ingest/Manager/Refreshing.antt =====
-- `updateMetrics`: what one tick sets the gauges to.
use text.Mathlib.TextEquality.{eq_iff}
use at_protocol_infrastructu.Prelude.{
  ℕ, ◌-◌, ◌≡◌, refl, ap, Bool, true, false, Option, none, some, List, [], ◌∷◌, String, ◌==◌,
  string_eq, nat_eq, arith, if◌then◌else◌, length,
}
use at_protocol_infrastructu.Prelude.Assoc.{lookup, Unique}
use at_protocol_infrastructu.Ingest.Event.{Time}
use at_protocol_infrastructu.Ingest.Client.{PdsClient, get_stats}
use at_protocol_infrastructu.Ingest.Manager.{Counters, Manager, on_metrics, buffer_stats}

abbrev set_to {ℓ} : {A : Type ℓ} → String → A → (String → A) → String → A
set_to k a f j = if k == j then a else f j

abbrev flag : Bool → ℕ
flag true = 1
flag false = 0

abbrev opposite : Bool → ℕ
opposite true = 0
opposite false = 1

-- One client; a time of 0 is the zero time, before any event.
unfoldable pub refresh_host : Time → String → PdsClient → Counters → Counters
unfolding get_stats
refresh_host now host client c =
    let (connected, _, last_event) = get_stats client in
    record c {
      connected = set_to host (flag connected) c.connected;
      connecting = set_to host (opposite connected) c.connecting;
      lag = if last_event == 0 then c.lag else set_to host (some (now - last_event)) c.lag;
    }

unfoldable pub refresh_hosts : Time → List (String × PdsClient) → Counters → Counters
refresh_hosts now [] c = c
refresh_hosts now ((host, client) ∷ rest) c =
    refresh_hosts now rest (refresh_host now host client c)

-- One tick; without metrics it sets nothing.
unfoldable pub refresh : Manager → Time → Manager
unfolding refresh_hosts buffer_stats
refresh m now =
    let (size, capacity) = buffer_stats m in
    record m {
      metrics =
          on_metrics
            (λ c. record (refresh_hosts now m.clients c) {
              buffer_size = size;
              buffer_capacity = capacity;
            })
            m.metrics;
    }

abbrev pub lag_after : Time → PdsClient → Option Time → Option Time
lag_after now client old =
    if client.last_event_time == 0 then old else some (now - client.last_event_time)

-- The gauges of a host after a tick.
pub record Shown (now : Time) (o : Option PdsClient) (host : String) (before after : Counters)
    : Type 0 where
  pub connected :
      after.connected host
      ≡ elim o [ none ↦ before.connected host | some client ↦ flag client.connected ]
  pub connecting :
      after.connecting host
      ≡ elim o [ none ↦ before.connecting host | some client ↦ opposite client.connected ]
  pub lag :
      after.lag host
      ≡ elim o [ none ↦ before.lag host | some client ↦ lag_after now client (before.lag host) ]

refresh_hosts-Shown :
    (now : Time) (clients : List (String × PdsClient)) (c : Counters) (host : String)
    → Unique clients
    → Shown now (lookup host clients) host c (refresh_hosts now clients c)
unfolding refresh_hosts refresh_host lookup
refresh_hosts-Shown now [] c host u = record { connected = refl; connecting = refl; lag = refl }
refresh_hosts-Shown now ((h, client) ∷ rest) c host u =
    let ih = refresh_hosts-Shown now rest (refresh_host now h client c) host u.1 in
    record {
      connected = ground (arith, ih.connected, eq_iff h host, u.0, ap (λ j. lookup j rest));
      connecting = ground (arith, ih.connecting, eq_iff h host, u.0, ap (λ j. lookup j rest));
      lag = ground (arith, ih.lag, eq_iff h host, u.0, ap (λ j. lookup j rest));
    }

-- With metrics and no host with two clients, after a tick each host that has a client shows 1 in
-- the one of the gauges "connected" and "connecting" that fits and 0 in the other, and its lag if
-- it has had an event; the gauges of other hosts are as before; and the buffer gauges show the
-- length and the capacity of the channel.
pub refresh-Shown :
    (m : Manager) (c : Counters) (now : Time) (host : String)
    → Unique m.clients
    → m.metrics ≡ some c
    → (after : Counters) × ((refresh m now).metrics ≡ some after)
      × Shown now (lookup host m.clients) host c after
      × (after.buffer_size ≡ length m.event_chan.buffer)
      × (after.buffer_capacity ≡ m.event_chan.cap)
unfolding refresh
refresh-Shown m c now host u e =
    let s = refresh_hosts-Shown now m.clients c host u in
    (
      record (refresh_hosts now m.clients c) {
        buffer_size = length m.event_chan.buffer;
        buffer_capacity = m.event_chan.cap;
      },
      ap (on_metrics _) e,
      record { connected = s.connected; connecting = s.connecting; lag = s.lag },
      refl,
      refl,
    )

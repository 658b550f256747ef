-- ===== src/Ingest/Manager.antt =====
-- The ingest manager (relay/internal/ingest/manager.go): the clients by host, and the workers that
-- take events from the shared channel. `W` is the state behind the cursor store and the handler.
pub mod Checkpoints
pub mod Hosts
pub mod Stopping
pub mod Starting
pub mod Refreshing
mod Examples
use at_protocol_infrastructu.Prelude.{
  ℕ, suc, ◌+◌, ◌%◌, ◌≡◌, Bool, true, false, Option, none, some, List, [], ◌∷◌, map, String, ◌==◌,
  string_eq, nat_eq, if◌then◌else◌, length,
}
use at_protocol_infrastructu.Prelude.Assoc.{lookup, insert, keys}
use at_protocol_infrastructu.Prelude.Result.{Result, ok, err}
use at_protocol_infrastructu.Prelude.Int.{ℤ, pos, negsuc}
use at_protocol_infrastructu.Channel.{Outcome, running, panicked, ◌>>=◌, Chan, make, close}
use at_protocol_infrastructu.Ingest.Event.{Event, Time}
use at_protocol_infrastructu.Ingest.Client.{
  PdsClient, Duration, new_pds_client, get_cursor, get_stats,
}

-- The interface `CursorStore`. A read that fails returns 0 with its error.
pub record CursorStore {ℓ} (E : Type ℓ) (W : Type 0) : Type ℓ where
  pub read_cursor : String → W → Result E ℤ
  pub save_cursor : String → ℤ → W → Result E (Unit {0}) × W

-- `EventHandler`
abbrev pub EventHandler {ℓ} : Type ℓ → Type 0 → Type ℓ
EventHandler E W = Event → W → Result E (Unit {0}) × W

-- The gauges and counters of the ingest side; a lag that was never set is `none`.
pub record Counters : Type 0 where
  pub connected : String → ℕ
  pub connecting : String → ℕ
  pub lag : String → Option Time
  pub received : String → String → ℕ
  pub processed : String → String → ℕ
  pub dropped : String → String → ℕ
  pub buffer_size : ℕ
  pub buffer_capacity : ℕ

pub record Manager : Type 0 where
  pub reconnect_delay : Duration
  pub max_reconnect_delay : Duration
  pub clients : List (String × PdsClient)
  pub event_chan : Chan Event
  pub metrics : Option Counters

abbrev pub on_metrics : (Counters → Counters) → Option Counters → Option Counters
on_metrics f none = none
on_metrics f (some m) = some (f m)

abbrev pub set_one : String → (String → ℕ) → String → ℕ
set_one k f j = if k == j then 1 else f j

abbrev pub inc : String → String → (String → String → ℕ) → String → String → ℕ
inc k l f i j = if k == i then (if l == j then f i j + 1 else f i j) else f i j

-- `event.Seq%100 == 0`, where `%` is Go's, which keeps the sign.
unfoldable pub is_checkpoint : ℤ → Bool
is_checkpoint (pos n) = n % 100 == 0
is_checkpoint (negsuc n) = suc n % 100 == 0

unfoldable pub get_hosts : Manager → List String
get_hosts m = keys m.clients

status_of : Option PdsClient → Bool × ℤ × ℕ × Time
unfolding get_stats get_cursor
status_of none = (false, pos 0, 0, 0)
status_of (some client) =
    let (connected, events_count, last_event) = get_stats client in
    (connected, get_cursor client, events_count, last_event)

-- `GetHostStatus`: connected, cursor, number of events, time of the last event.
unfoldable pub get_host_status : Manager → String → Bool × ℤ × ℕ × Time
unfolding status_of
get_host_status m hostname = status_of (lookup hostname m.clients)

-- `Stop`: the clients' contexts are cancelled and their connections closed, which changes no field of
-- theirs, and the channel that they send to is closed.
unfoldable pub stop : Manager → Outcome Manager
stop m = do ch ← close m.event_chan; running (record m { event_chan = ch })

unfoldable pub buffer_stats : Manager → ℕ × ℕ
buffer_stats m = (length m.event_chan.buffer, m.event_chan.cap)

cursor_or_zero {ℓ} : {E : Type ℓ} → Result E ℤ → ℤ
cursor_or_zero (ok cursor) = cursor
cursor_or_zero (err _) = pos 0

module _ {ℓ} {E : Type ℓ} {W : Type 0} where
  -- The cursor that a new client starts from.
  unfoldable pub starting_cursor : Option (CursorStore E W) → String → W → ℤ
  unfolding cursor_or_zero
  starting_cursor none hostname w = pos 0
  starting_cursor (some store) hostname w = cursor_or_zero (store.read_cursor hostname w)

  -- `AddHost`; the goroutine that it starts is `connection_loop`.
  unfoldable pub add_host : Manager → Option (CursorStore E W) → String → W → Manager
  unfolding starting_cursor new_pds_client
  add_host m store hostname w = elim (lookup hostname m.clients) [
    | some _ ↦ m
    | none ↦ record m {
      clients =
          insert hostname
            (new_pds_client hostname (starting_cursor store hostname w) m.reconnect_delay
              m.max_reconnect_delay)
            m.clients;
      metrics = on_metrics (λ c. record c { connecting = set_one hostname c.connecting }) m.metrics;
    }
  ]

  handled : Option (EventHandler E W) → Event → W → Result E (Unit {0}) × W
  handled none event w = (ok tt, w)
  handled (some handler) event w = handler event w

  -- The save that ends a round; its error is logged and dropped.
  unfoldable pub save_checkpoint : Option (CursorStore E W) → Event → W → W
  save_checkpoint none event w = w
  save_checkpoint (some store) event w =
      let saved = store.save_cursor event.host event.seq w in
      if is_checkpoint event.seq then saved.1 else w

  unfoldable pub after_handler :
      Manager → Option (CursorStore E W) → Event → Result E (Unit {0}) × W → Manager × W
  unfolding save_checkpoint
  after_handler m store event (err _, w) = (
    record m {
      metrics =
          on_metrics (λ c. record c { dropped = inc event.host "handler_error" c.dropped })
            m.metrics;
    },
    w,
  )
  after_handler m store event (ok _, w) = (
    record m {
      metrics =
          on_metrics (λ c. record c { processed = inc event.host event.type c.processed })
            m.metrics;
    },
    save_checkpoint store event w,
  )

  -- One round of the loop of `processEvents`.
  unfoldable pub process_event :
      Manager → Option (EventHandler E W) → Option (CursorStore E W) → Event → W → Manager × W
  unfolding handled after_handler
  process_event m handler store event w =
      after_handler
        (record m {
          metrics =
              on_metrics (λ c. record c { received = inc event.host event.type c.received })
                m.metrics;
        })
        store event (handled handler event w)

-- ===== src/Ingest/Client.antt =====
-- The connection to one PDS (relay/internal/ingest/pds_client.go): its state, its reconnection loop
-- and the address that it dials. Dialling and the network are the environment.
pub mod Backoff
use at_protocol_infrastructu.Prelude.{
  ℕ, zero, suc, ◌+◌, ◌-◌, ◌*◌, ◌^◌, ◌≡◌, Bool, true, false, Option, none, some, List, [], ◌∷◌, ◌++◌,
  String, ltb, leb, if◌then◌else◌,
}
use at_protocol_infrastructu.Prelude.Int.{ℤ, pos, negsuc, ltb_ℤ}
use at_protocol_infrastructu.Ingest.Event.{Time, Bytes}
use at_protocol_infrastructu.Decimal.{codes, format_int}

-- `time.Duration`: an `int64` of nanoseconds.
abbrev pub Duration : Type 0
Duration = ℤ

pub record PdsClient : Type 0 where
  pub hostname : String
  pub cursor : ℤ
  pub has_conn : Bool  -- `c.conn != nil`
  pub connected : Bool
  pub last_event_time : Time
  pub events_count : ℕ
  pub reconnect_delay : Duration
  pub max_reconnect_delay : Duration
  pub current_delay : Duration

unfoldable pub new_pds_client : String → ℤ → Duration → Duration → PdsClient
new_pds_client hostname cursor reconnect_delay max_reconnect_delay = record {
  hostname = hostname;
  cursor = cursor;
  has_conn = false;
  connected = false;
  last_event_time = 0;
  events_count = 0;
  reconnect_delay = reconnect_delay;
  max_reconnect_delay = max_reconnect_delay;
  current_delay = reconnect_delay;
}

unfoldable pub get_cursor : PdsClient → ℤ
get_cursor c = c.cursor

unfoldable pub get_stats : PdsClient → Bool × ℕ × Time
get_stats c = (c.connected, c.events_count, c.last_event_time)

unfoldable pub min_duration : Duration → Duration → Duration
min_duration a b = if ltb_ℤ a b then a else b

-- `d * 2` in an `int64`.
unfoldable pub double : Duration → Duration
double (pos n) = if ltb (n * 2) (2 ^ 63) then pos (n * 2) else negsuc (2 ^ 64 - n * 2 - 1)
double (negsuc n) =
    if leb (n * 2 + 2) (2 ^ 63) then negsuc (n * 2 + 1) else pos (2 ^ 64 - (n * 2 + 2))

-- The query of the URL: a cursor is added if there is one.
unfoldable pub subscribe_query : PdsClient → Bytes
subscribe_query c = if ltb_ℤ (pos 0) c.cursor then codes "cursor=" ++ format_int c.cursor else []

unfoldable pub dial_succeeded : PdsClient → PdsClient
dial_succeeded c = record c { has_conn = true; connected = true; current_delay = c.reconnect_delay }

-- The end of a session: the connection is closed and forgotten.
unfoldable pub session_ended : PdsClient → PdsClient
session_ended c = record c { connected = false; has_conn = false }

unfoldable pub back_off : PdsClient → PdsClient
unfolding min_duration
back_off c = record c {
  current_delay = min_duration (double c.current_delay) c.max_reconnect_delay;
}

-- What happens in one round of `connectionLoop`: the client was stopped, the dial failed and the
-- wait ran out or was cut short by a stop, or a session ran, which changed the client by `handle`.
pub data Round : Type 0 where
  stopped : Round
  dial_failed : Round
  stopped_waiting : Round
  session : (PdsClient → PdsClient) → Round

-- The client and the waits between its dials, newest last, until the rounds or the loop end.
unfoldable pub connection_loop : PdsClient → List Round → PdsClient × List Duration
unfolding back_off dial_succeeded session_ended
connection_loop c [] = (c, [])
connection_loop c (stopped ∷ rest) = (c, [])
connection_loop c (dial_failed ∷ rest) =
    let (c', waits) = connection_loop (back_off c) rest in (c', c.current_delay ∷ waits)
connection_loop c (stopped_waiting ∷ rest) = (c, [])
connection_loop c (session handle ∷ rest) =
    connection_loop (session_ended (handle (dial_succeeded c))) rest

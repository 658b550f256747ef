-- ===== src/Firehose/Server.antt =====
-- The subscriber hub of relay/internal/firehose/server.go. The `run` goroutine, the handlers, the
-- pumps of each client and the replays meet only in channels and under the mutex, so each method
-- here is one step between two such meetings, and a schedule is a list of steps.
use at_protocol_infrastructu.Prelude.{
  ℕ, ◌+◌, ◌-◌, ◌%◌, ◌^◌, Bool, true, false, ◌&&◌, Option, none, some, List, [], ◌∷◌, ◌++◌, map,
  String, ◌==◌, nat_eq, if◌then◌else◌,
}
use at_protocol_infrastructu.Prelude.Assoc.{lookup, insert, delete}
use at_protocol_infrastructu.Prelude.Int.{ℤ}
use at_protocol_infrastructu.Channel.{
  Outcome, running, ◌>>=◌, Chan, make, try_send, close, Received, value, ended, blocked, receive,
}
use at_protocol_infrastructu.Ingest.Event.{Time}
use at_protocol_infrastructu.Firehose.Message.{Object}

-- The `send` channel of a client is shared by `run`, `writePump` and `replayFromCursor`, and
-- outlives the client's entry in the map: it stands in `Server.sends` under the client's id.
pub record Client : Type 0 where
  pub id : ℕ
  pub cursor : ℤ
  pub remote_addr : String
  pub connected_at : Time

pub data Frame : Type 0 where
  text : Object → Frame
  close_frame ping_frame : Frame

-- A WebSocket connection: what has gone out on it, whether it is open, and whether its `writePump`
-- still runs.
pub record Conn : Type 0 where
  pub written : List Frame
  pub is_open : Bool
  pub pumping : Bool

pub record Metrics : Type 0 where
  pub firehose_clients : ℕ
  pub firehose_events_broadcast : ℕ

pub record Server : Type 0 where
  pub clients : List (ℕ × Client)
  pub client_count : ℕ  -- uint64
  pub next_id : ℕ  -- uint64
  pub broadcast : Chan Object
  pub register : List Client  -- handlers blocked in `s.register <- client`
  pub unregister : List Client  -- pumps blocked in `c.server.unregister <- c`
  pub sends : ℕ → Chan Object
  pub conns : ℕ → Conn
  pub metrics : Option Metrics
  pub stopped : Bool  -- `ctx.Done()`

abbrev pub u64 : ℕ → ℕ
u64 n = n % 2 ^ 64

abbrev pub update {ℓ} : {A : Type ℓ} → (ℕ → A) → ℕ → A → ℕ → A
update f k a j = if k == j then a else f j

unfoldable pub new_server : Option Metrics → Server
new_server m = record {
  clients = [];
  client_count = 0;
  next_id = 0;
  broadcast = make 1000;
  register = [];
  unregister = [];
  sends = λ _. make 0;
  conns = λ _. record { written = []; is_open = false; pumping = false };
  metrics = m;
  stopped = false;
}

-- `s.metrics.FirehoseClients.Set(float64(count))`, if there are metrics.
set_clients : ℕ → Option Metrics → Option Metrics
set_clients count none = none
set_clients count (some m) = some (record m { firehose_clients = count })

unfoldable pub inc_broadcast : Option Metrics → Option Metrics
inc_broadcast none = none
inc_broadcast (some m) =
    some (record m { firehose_events_broadcast = m.firehose_events_broadcast + 1 })

-- `case client := <-s.register`
unfoldable pub on_register : Server → Client → Server
unfolding set_clients
on_register s client =
    let count = u64 (s.client_count + 1) in
    record s {
      clients = insert client.id client s.clients;
      client_count = count;
      metrics = set_clients count s.metrics;
    }

-- The locked part of the case below, once the client was found: the entry goes, the channel is
-- closed, and `Add(^uint64(0))` counts down.
drop_client : Server → ℕ → Outcome Server
unfolding set_clients
drop_client s id = do
  let count = u64 (s.client_count + (2 ^ 64 - 1))
  ch ← close (s.sends id)
  running (record s {
    clients = delete id s.clients;
    sends = update s.sends id ch;
    client_count = count;
    metrics = set_clients count s.metrics;
  })

-- `case client := <-s.unregister`
unfoldable pub on_unregister : Server → Client → Outcome Server
unfolding drop_client
on_unregister s client = elim (lookup client.id s.clients) [
  | none ↦ running s
  | some _ ↦ drop_client s client.id
]

-- The loop over the clients in `case message := <-s.broadcast`: a full buffer skips the message.
unfoldable pub deliver : Object → List (ℕ × Client) → (ℕ → Chan Object) → Outcome (ℕ → Chan Object)
deliver message [] sends = running sends
deliver message ((id, client) ∷ rest) sends = do
  (ch, sent) ← try_send (sends id) message
  deliver message rest (update sends id ch)

unfoldable pub on_broadcast : Server → Object → Outcome Server
on_broadcast s message = do
  sends ← deliver message s.clients s.sends
  running (record s { sends = sends })

-- `Broadcast` and `BroadcastWithSeq` once the message is encoded; a full channel drops it.
unfoldable pub offer : Server → Object → Outcome Server
unfolding inc_broadcast
offer s msg = do
  (ch, sent) ← try_send s.broadcast msg
  running (if sent then record s { broadcast = ch; metrics = inc_broadcast s.metrics } else s)

-- `Handler` from the upgraded connection on: a new client waits for `run` to register it.
unfoldable pub accept : Server → ℤ → String → Time → Server
accept s cursor remote now =
    let id = u64 (s.next_id + 1) in
    record s {
      next_id = id;
      sends = update s.sends id (make 256);
      conns = update s.conns id (record { written = []; is_open = true; pumping = true });
      register =
          s.register
          ++ record { id = id; cursor = cursor; remote_addr = remote; connected_at = now } ∷ [];
    }

-- `c.conn.WriteMessage`, which fails on a closed connection and where the network does (`up`).
-- An error ends the pump, and its deferred calls close the connection.
unfoldable pub send_frame : Bool → Frame → Conn → Conn
send_frame up frame conn =
    if up && conn.is_open
    then record conn { written = conn.written ++ frame ∷ [] }
    else record conn { is_open = false; pumping = false }

-- One round of `writePump`: the message, or the close frame once the channel is closed and drained.
unfoldable pub write_received : Server → ℕ → Bool → Received Object → Server
unfolding send_frame
write_received s id up (value message ch) = record s {
  sends = update s.sends id ch;
  conns = update s.conns id (send_frame up (text message) (s.conns id));
}
write_received s id up ended = record s {
  conns =
      update s.conns id
        (record (send_frame up close_frame (s.conns id)) { is_open = false; pumping = false });
}
write_received s id up blocked = s

unfoldable pub write_pump : Server → ℕ → Bool → Server
unfolding write_received
write_pump s id up =
    if (s.conns id).pumping then write_received s id up (receive (s.sends id)) else s

-- A tick of `writePump`: a ping, whose failure ends the pump too.
unfoldable pub write_ping : Server → ℕ → Bool → Server
unfolding send_frame
write_ping s id up =
    if (s.conns id).pumping
    then record s { conns = update s.conns id (send_frame up ping_frame (s.conns id)) }
    else s

unfoldable pub close_conn : Server → ℕ → Server
close_conn s id = record s { conns = update s.conns id (record (s.conns id) { is_open = false }) }

-- The `select` of `replayFromCursor`: the flag says whether the event went out.
unfoldable pub replay_send : Server → ℕ → Object → Outcome (Server × Bool)
replay_send s id message = do
  (ch, sent) ← try_send (s.sends id) message
  running (record s { sends = update s.sends id ch }, sent)

-- `Stop` ends `run` and closes the connection of every registered client.
unfoldable pub close_conns : List (ℕ × Client) → Server → Server
unfolding close_conn
close_conns [] s = s
close_conns ((id, client) ∷ rest) s = close_conns rest (close_conn s id)

unfoldable pub stop : Server → Server
unfolding close_conns
stop s = close_conns s.clients (record s { stopped = true })

pub data Action : Type 0 where
  connect : ℤ → String → Time → Action
  run_register run_unregister run_broadcast : Action
  submit : Object → Action
  hang_up : Client → Action  -- the deferred send of `readPump`
  write : ℕ → Bool → Action
  ping : ℕ → Bool → Action
  shut : ℕ → Action  -- the deferred `c.conn.Close()` of `readPump`
  replay : ℕ → Object → Action
  shut_down : Action

-- One round of `run`, where the sender at the head of a channel is served.
unfoldable pub serve_register : Server → List Client → Server
serve_register s [] = s
serve_register s (c ∷ rest) = on_register (record s { register = rest }) c

unfoldable pub serve_unregister : Server → List Client → Outcome Server
serve_unregister s [] = running s
serve_unregister s (c ∷ rest) = on_unregister (record s { unregister = rest }) c

unfoldable pub serve_broadcast : Server → Received Object → Outcome Server
serve_broadcast s (value message ch) = on_broadcast (record s { broadcast = ch }) message
serve_broadcast s ended = running s
serve_broadcast s blocked = running s

unfoldable pub step : Server → Action → Outcome Server
unfolding serve_register serve_unregister serve_broadcast
step s (connect cursor remote now) = running (accept s cursor remote now)
step s run_register = running (if s.stopped then s else serve_register s s.register)
step s run_unregister = if s.stopped then running s else serve_unregister s s.unregister
step s run_broadcast = if s.stopped then running s else serve_broadcast s (receive s.broadcast)
step s (submit message) = offer s message
step s (hang_up client) = running (record s { unregister = s.unregister ++ client ∷ [] })
step s (write id up) = running (write_pump s id up)
step s (ping id up) = running (write_ping s id up)
step s (shut id) = running (close_conn s id)
step s (replay id message) = do (s', sent) ← replay_send s id message; running s'
step s shut_down = running (stop s)

unfoldable pub run_all : Server → List Action → Outcome Server
run_all s [] = running s
run_all s (a ∷ rest) = do s' ← step s a; run_all s' rest

unfoldable pub client_count : Server → ℕ
client_count s = s.client_count

-- `GetClientInfo`, in the order of the map's entries: id, remote address, cursor, time of
-- connection, and how long ago that was.
unfoldable pub get_client_info : Server → Time → List (ℕ × String × ℤ × Time × Time)
get_client_info s now =
    map (λ p. (p.1.id, p.1.remote_addr, p.1.cursor, p.1.connected_at, now - p.1.connected_at))
      s.clients

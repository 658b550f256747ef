-- ===== src/Relay.antt =====
-- The wiring of relay/cmd/relay/main.go: the handler that every ingested event goes through, the
-- store behind the manager's cursors, the health check of the ingest side, and `requestCrawl`.
pub mod Publishing
pub mod Ingesting
pub mod Workers
pub mod Checks
pub mod Stats
pub mod Shutdown
pub mod Boot
pub mod EndToEnd
mod Examples
use at_protocol_infrastructu.Prelude.{
  ℕ, zero, suc, ◌+◌, ◌≡◌, Bool, true, false, ◌&&◌, Option, none, some, List, [], ◌∷◌, String, ◌==◌,
  string_eq, nat_eq, ltb, if◌then◌else◌, length,
}
use at_protocol_infrastructu.Prelude.Result.{Result, ok, err}
use at_protocol_infrastructu.Prelude.Int.{ℤ, pos, ltb_ℤ}
use at_protocol_infrastructu.Channel.{Outcome, running, panicked, ◌>>=◌}
use at_protocol_infrastructu.Ingest.Event.{Event, Time}
use at_protocol_infrastructu.Ingest.Manager.{
  CursorStore, Manager, get_hosts, get_host_status, add_host,
}
use at_protocol_infrastructu.Verify.{Indigo, Pipeline, verify}
use at_protocol_infrastructu.Storage.Database.{DbError, NewEvent, Postgres}
use at_protocol_infrastructu.Storage.Stores.{HostIds, store_event, get_cursor, save_cursor}
use at_protocol_infrastructu.Firehose.Message.{
  FirehoseMessage, event_to_message, message_with_seq, marshal,
}
use at_protocol_infrastructu.Firehose.Server.{Server, offer}
use at_protocol_infrastructu.Health.{Status, healthy, degraded, unhealthy}

-- The row that `StoreEvent` inserts for an event, but for the id of its host.
unfoldable pub row_for : Event → ℕ → NewEvent
row_for event host_id = record {
  event_type = event.type;
  did = event.did;
  commit_cid = event.commit_cid;
  prev_cid = event.prev_cid;
  host_id = host_id;
  raw_data = event.raw_data;
  record_path = event.record_path;
  record_content = event.record_content;
}

-- `seq > 0` chooses between `BroadcastWithSeq` and `Broadcast`; `now` is the formatted time.
unfoldable pub published : Event → ℤ → String → FirehoseMessage
published event seq now =
    if ltb_ℤ (pos 0) seq then message_with_seq event seq now else event_to_message event now

module _ (p : Postgres) (i : Indigo) where
  -- What the event handler reads and writes. The store is `some` if the database is enabled.
  pub record App : Type 0 where
    pub event_count : ℕ
    pub pipeline : Option Pipeline
    pub event_store : Option HostIds
    pub db : p.State
    pub current_sequence : ℤ
    pub firehose : Server

  -- The third phase: the verdict is logged, and the event goes on whatever it is.
  unfoldable pub verified : Option Pipeline → Event → Time → Option Pipeline
  verified none event duration = none
  verified (some pipeline) event duration =
      let checked = some (verify i pipeline event duration).1 in
      if event.type == "commit" then checked else some pipeline

  -- The sequence number after the store, which stays 0 if it fails, and the gauge that shows it.
  seq_after : Result DbError ℤ → ℤ
  seq_after (ok seq) = seq
  seq_after (err _) = pos 0

  gauge_after : Result DbError ℤ → ℤ → ℤ
  gauge_after (ok seq) old = seq
  gauge_after (err _) old = old

  recorded : App → Result DbError ℤ × HostIds × p.State → ℤ × App
  unfolding seq_after gauge_after
  recorded a (r, ids, db) = (
    seq_after r,
    record a {
      event_store = some ids;
      db = db;
      current_sequence = gauge_after r a.current_sequence;
    },
  )

  -- The fourth phase.
  pub store : App → Event → Option HostIds → ℤ × App
  unfolding recorded
  store a event none = (pos 0, a)
  store a event (some ids) = recorded a (store_event p event.host (row_for event) ids a.db)

  -- The fifth phase.
  unfoldable pub publish : App → Event → ℤ → String → Outcome App
  publish a event seq now = do
    firehose ← offer a.firehose (marshal (published event seq now))
    running (record a { firehose = firehose })

  -- The handler up to the end of the store.
  unfoldable pub stored : App → Event → Time → ℤ × App
  unfolding verified store
  stored a event duration =
      store
        (record a {
          event_count = a.event_count + 1;
          pipeline = verified a.pipeline event duration;
        })
        event a.event_store

  -- `eventHandler`. It returns no error.
  unfoldable pub event_handler : App → Event → Time → String → Outcome App
  unfolding stored publish
  event_handler a event duration now =
      let (seq, a') = stored a event duration in publish a' event seq now

-- `storage.CursorStore` as the manager's `CursorStore`.
unfoldable pub cursor_store : (p : Postgres) → CursorStore DbError p.State
cursor_store p = record { read_cursor = get_cursor p; save_cursor = save_cursor p }

-- The loop that counts connected hosts.
unfoldable pub count_connected : Manager → List String → ℕ
count_connected m [] = 0
count_connected m (host ∷ rest) =
    let n = count_connected m rest in if (get_host_status m host).0 then suc n else n

-- The status of the check `ingest`.
unfoldable pub ingest_status : Manager → Status
unfolding count_connected
ingest_status m =
    let hosts = get_hosts m in
    let connected_count = count_connected m hosts in
    if connected_count == 0 && ltb 0 (length hosts)
    then unhealthy
    else if ltb connected_count (length hosts)
    then degraded
    else healthy

-- `requestCrawl`: the code of the answer, and the manager. `AddHost` never returns an error.
unfoldable pub request_crawl {ℓ} :
    {E : Type ℓ} {W : Type 0} → Manager → Option (CursorStore E W) → String → W → ℕ × Manager
request_crawl m store hostname w =
    if hostname == "" then (400, m) else (200, add_host m store hostname w)

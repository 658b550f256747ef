-- ===== src/Firehose/Replay.antt =====
-- `replayFromCursor` of relay/internal/firehose/server.go. The clock's format, the answers of the
-- event store, one for each round, and the client's channel as each send finds it are arguments:
-- `writePump` empties the channel, and `run` sends on it and may close it, at the same time.
pub mod Batches
pub mod Sending
pub mod Complete
pub mod Extending
pub mod Live
pub mod FromDatabase
mod Examples
use at_protocol_infrastructu.Prelude.{
  ℕ, zero, suc, ◌+◌, ◌≡◌, Bool, true, false, Option, none, some, List, [], ◌∷◌, ◌++◌, String, ltb,
  length, if◌then◌else◌,
}
use at_protocol_infrastructu.Prelude.Result.{Result, ok, err}
use at_protocol_infrastructu.Prelude.Int.{ℤ}
use at_protocol_infrastructu.Channel.{Outcome, running, panicked, Chan, try_send}
use at_protocol_infrastructu.Ingest.Event.{Time}
use at_protocol_infrastructu.Ingest.RecordPath.{record_type_of}
use at_protocol_infrastructu.Storage.Database.{DbError}
use at_protocol_infrastructu.Storage.Stores.{StoredEvent}
use at_protocol_infrastructu.Firehose.Message.{FirehoseMessage, Object, marshal}

abbrev pub batch_size : ℕ
batch_size = 100

-- The message of a stored event. An empty path has no record type, nor has one without a
-- collection; the host is not stored with the event.
unfoldable pub replay_message : (Time → String) → StoredEvent → FirehoseMessage
replay_message rfc3339 event = record {
  seq = event.seq;
  type = event.event_type;
  did = event.did;
  commit_cid = event.commit_cid;
  prev_cid = event.prev_cid;
  time = rfc3339 event.created_at;
  host = "";
  record_path = event.record_path;
  record_content = event.record_content;
  record_type = record_type_of event.record_path;
  action = "create";
}

-- A send on a channel that `run` has closed panics.
pub data End : Type 0 where
  complete query_failed buffer_full send_panicked out_of_fuel : End

-- What a replay has sent, where its cursor stands, and how it ended.
pub record Replayed : Type 0 where
  pub sent : List Object
  pub current_cursor : ℤ
  pub ending : End

pub record Batch : Type 0 where
  pub sent : List Object
  pub current_cursor : ℤ
  pub sends : ℕ
  pub stop : Option End

abbrev pub prepend : List Object → Replayed → Replayed
prepend sent r = record r { sent = sent ++ r.sent }

-- After a batch: the end that a send came to, the end after a short batch, or the next round.
abbrev pub after_batch : List StoredEvent → Batch → (ℤ → ℕ → Replayed) → Replayed
after_batch events b next = elim b.stop [
  | some ending ↦ record { sent = b.sent; current_cursor = b.current_cursor; ending = ending }
  | none ↦
      if ltb (length events) batch_size
      then record { sent = b.sent; current_cursor = b.current_cursor; ending = complete }
      else prepend b.sent (next b.current_cursor b.sends)
]

abbrev pub wire : (Time → String) → StoredEvent → Object
wire rfc3339 event = marshal (replay_message rfc3339 event)

-- The `select` on one message: it goes out and the batch goes on, the buffer was full, or the
-- channel was closed.
abbrev pub after_send : Outcome (Chan Object × Bool) → Object → ℤ → ℕ → Batch → Batch
after_send panicked msg current n more = record {
  sent = [];
  current_cursor = current;
  sends = n;
  stop = some send_panicked;
}
after_send (running (ch, true)) msg current n more = record more { sent = msg ∷ more.sent }
after_send (running (ch, false)) msg current n more = record {
  sent = [];
  current_cursor = current;
  sends = n;
  stop = some buffer_full;
}

module _ (rfc3339 : Time → String) (found : ℕ → Chan Object) where
  -- The loop over the events of one batch; `n` counts the sends of the whole replay.
  unfoldable pub send_batch : List StoredEvent → ℤ → ℕ → Batch
  send_batch [] current n = record { sent = []; current_cursor = current; sends = n; stop = none }
  send_batch (event ∷ rest) current n =
      let msg = wire rfc3339 event in
      after_send (try_send (found n) msg) msg current n (send_batch rest event.seq (n + 1))

  abbrev pub after_fetch : Result DbError (List StoredEvent) → ℤ → ℕ → (ℤ → ℕ → Replayed) → Replayed
  after_fetch (err e) current n next = record {
    sent = [];
    current_cursor = current;
    ending = query_failed;
  }
  after_fetch (ok []) current n next = record {
    sent = [];
    current_cursor = current;
    ending = complete;
  }
  after_fetch (ok (e ∷ es)) current n next =
      after_batch (e ∷ es) (send_batch (e ∷ es) current n) next

  module _ (fetch : ℕ → ℤ → ℕ → Result DbError (List StoredEvent)) where
    unfoldable pub replay_from_cursor : ℕ → ℕ → ℤ → ℕ → Replayed
    replay_from_cursor zero round current n = record {
      sent = [];
      current_cursor = current;
      ending = out_of_fuel;
    }
    replay_from_cursor (suc fuel) round current n =
        after_fetch (fetch round current batch_size) current n (replay_from_cursor fuel (suc round))

-- ===== src/Relay/Workers.antt =====
-- The workers of relay/internal/ingest/manager.go with the event handler of relay/cmd/relay/main.go.
-- They share the channel of events, the store and the firehose, so the handler is cut here where
-- another worker may come in between: after the receive, the store and the publication.
pub mod Pending
pub mod Alone
pub mod Ledger
pub mod Storing
pub mod Handing
pub mod Rounds
pub mod InTurn
pub mod Draining
pub mod Numbers
pub mod Taking
pub mod Reordering
pub mod Overtaking
pub mod Columns
pub mod Explaining
pub mod Cancelled
pub mod Unstored
mod Examples
use at_protocol_infrastructu.Prelude.{
  ℕ, Option, none, some, List, [], ◌∷◌, String, nat_eq, string_eq, ◌+◌, ◌==◌, if◌then◌else◌,
}
use at_protocol_infrastructu.Prelude.Assoc.{lookup, insert, delete}
use at_protocol_infrastructu.Prelude.Result.{Result, ok}
use at_protocol_infrastructu.Prelude.Int.{ℤ}
use at_protocol_infrastructu.Channel.{
  Outcome, running, ◌>>=◌, Received, value, ended, blocked, receive,
}
use at_protocol_infrastructu.Ingest.Event.{Event, Time}
use at_protocol_infrastructu.Ingest.Manager.{CursorStore, Manager, after_handler, on_metrics, inc}
use at_protocol_infrastructu.Verify.{Indigo}
use at_protocol_infrastructu.Storage.Database.{DbError, Postgres}
use at_protocol_infrastructu.Storage.Stores.{HostIds, get_cursor, save_cursor}
use at_protocol_infrastructu.Relay.{App, stored, publish}

-- Where a busy worker is in its round: it has taken an event, has stored it under a number but not
-- yet published it, or the handler has returned and the cursor is next.
pub data Phase : Type 0 where
  in_hand : Event → Phase
  holding : Event → ℤ → Phase
  handed_on : Event → Phase

pub data Action : Type 0 where
  take_event : ℕ → Action
  store_taken : ℕ → Time → Action
  publish_event : ℕ → String → Action
  settle : ℕ → Action

module _ (p : Postgres) (i : Indigo) where
  -- `busy` has the workers that are in a round, by their number; the others wait for an event.
  pub record Pool : Type 0 where
    pub manager : Manager
    pub app : App p i
    pub busy : List (ℕ × Phase)

  -- The cursor store stands on the database of the event store.
  unfoldable pub app_cursors : CursorStore DbError (App p i)
  app_cursors = record {
    read_cursor = λ h a. get_cursor p h a.db;
    save_cursor = λ h c a. let (r, db) = save_cursor p h c a.db in (r, record a { db = db });
  }

  -- Both stores are there if the database is enabled, and neither otherwise.
  unfoldable pub cursors : Option HostIds → Option (CursorStore DbError (App p i))
  unfolding app_cursors
  cursors none = none
  cursors (some _) = some app_cursors

  -- The receive and its counter. The loop ends with a closed channel.
  unfoldable pub taken : Pool → ℕ → Received Event → Pool
  taken q k (value event ch) = record q {
    manager = record q.manager {
      event_chan = ch;
      metrics =
          on_metrics (λ c. record c { received = inc event.host event.type c.received })
            q.manager.metrics;
    };
    busy = insert k (in_hand event) q.busy;
  }
  taken q k ended = q
  taken q k blocked = q

  unfoldable pub started : Pool → ℕ → Option Phase → Pool
  unfolding taken
  started q k none = taken q k (receive q.manager.event_chan)
  started q k (some _) = q

  -- The handler up to the end of the store.
  unfoldable pub put_away : Pool → ℕ → Time → Option Phase → Pool
  put_away q k duration (some (in_hand event)) =
      let (seq, a) = stored p i q.app event duration in
      record q { app = a; busy = insert k (holding event seq) q.busy }
  put_away q k duration none = q
  put_away q k duration (some (holding event seq)) = q
  put_away q k duration (some (handed_on event)) = q

  unfoldable pub handed : Pool → ℕ → String → Option Phase → Outcome Pool
  handed q k now none = running q
  handed q k now (some (in_hand event)) = running q
  handed q k now (some (handed_on event)) = running q
  handed q k now (some (holding event seq)) = do
    a ← publish p i q.app event seq now
    running (record q { app = a; busy = insert k (handed_on event) q.busy })

  -- The rest of the round: the counter and the cursor.
  unfoldable pub settled : Pool → ℕ → Option Phase → Pool
  unfolding cursors
  settled q k none = q
  settled q k (some (in_hand event)) = q
  settled q k (some (holding event seq)) = q
  settled q k (some (handed_on event)) =
      let (m, a) = after_handler q.manager (cursors q.app.event_store) event (ok tt, q.app) in
      record q { manager = m; app = a; busy = delete k q.busy }

  unfoldable pub step : Pool → Action → Outcome Pool
  unfolding started put_away handed settled
  step q (take_event k) = running (started q k (lookup k q.busy))
  step q (store_taken k duration) = running (put_away q k duration (lookup k q.busy))
  step q (publish_event k now) = handed q k now (lookup k q.busy)
  step q (settle k) = running (settled q k (lookup k q.busy))

  unfoldable pub run_all : Pool → List Action → Outcome Pool
  unfolding step
  run_all q [] = running q
  run_all q (action ∷ rest) = do q' ← step q action; run_all q' rest

-- ===== src/Relay/Shutdown/Examples.antt =====
-- Shutting down with two events queued and a client in its handler, over tables in memory that a cancelled context cannot
-- reach, and with servers that fail to close.
use mathlib.Core.List.{Perm}
use at_protocol_infrastructu.Prelude.{
  ℕ, ◌≡◌, refl, none, some, List, [], ◌∷◌, ◌++◌, map, length, String, arith, nat_eq, true, false,
}
use at_protocol_infrastructu.Prelude.Assoc.{lookup, insert, delete}
use at_protocol_infrastructu.Prelude.Result.{err}
use at_protocol_infrastructu.Prelude.Int.{pos}
use at_protocol_infrastructu.Channel.{running, panicked, receive, try_send}
use at_protocol_infrastructu.Ingest.Event.{Event}
use at_protocol_infrastructu.Ingest.Manager.{after_handler, is_checkpoint}
use at_protocol_infrastructu.Verify.Unresolving.{unresolving}
use at_protocol_infrastructu.Storage.Offline.{offline, offline-Laws, offline-IsCancelled}
use at_protocol_infrastructu.Storage.Stores.{store_event}
use at_protocol_infrastructu.Firehose.Server.{new_server, offer}
use at_protocol_infrastructu.Health
use at_protocol_infrastructu.Relay.{stored, publish}
use at_protocol_infrastructu.Relay.Workers.{
  Action, take_event, store_taken, publish_event, settle, Pool, run_all,
}
use at_protocol_infrastructu.Relay.Workers.Draining.{rounds}
use at_protocol_infrastructu.Relay.Workers.Unstored.{own_message, run_all-unstored}
use at_protocol_infrastructu.Relay.Shutdown.{
  Closers, Process, Step, worker, handling, run_steps, shut_down,
}
use at_protocol_infrastructu.Ingest.Stream.{send_ready}
use at_protocol_infrastructu.Ingest.AccountFrame.{client, frame, no_content}
use at_protocol_infrastructu.Relay.Shutdown.Stopped.{Stopped, shut_down-Stopped}

abbrev post : ℕ → Event
post n = record {
  type = "commit";
  seq = pos n;
  did = "did:plc:a";
  time = 9;
  commit_cid = "c";
  prev_cid = "";
  raw_data = 1 ∷ [];
  host = "pds.a";
  record_path = "app/1";
  record_content = "hi";
  record_type = "app";
  action = "create";
}

abbrev pool : List Event → Pool offline unresolving
pool queue = record {
  manager = record {
    reconnect_delay = pos 5;
    max_reconnect_delay = pos 300;
    clients = ("pds.a", client) ∷ [];
    event_chan = record { cap = 10; buffer = queue; closed = false };
    metrics = none;
  };
  app = record {
    event_count = 0;
    pipeline = none;
    event_store = some [];
    db = record { hosts = ("pds.a", none) ∷ []; events = [] };
    current_sequence = pos 0;
    firehose = new_server none;
  };
  busy = [];
}

abbrev closers : Closers
closers = record {
  State = List String;
  shutdown_server = λ s. (err "deadline exceeded", "server" ∷ s);
  shutdown_metrics = λ s. (err "deadline exceeded", "metrics" ∷ s);
  close_db = λ s. (err "driver", "db" ∷ s);
}

abbrev process : Process offline unresolving closers (Unit {0})
process = record {
  health = Health.set_ready (Health.new "dev" 0) true;
  pool = pool (post 7 ∷ post 8 ∷ []);
  services = [];
  has_metrics_server = true;
  has_db = true;
}

-- A client gets one more event into the channel before it is closed.
abbrev last_moment : List Step
last_moment = handling "pds.a" 9 send_ready frame ∷ []

shut_down-Stopped_example :
    (held : Pool offline unresolving) × (run_steps offline unresolving no_content process.pool
        last_moment
      ≡ running held)
    × ((u : Process offline unresolving closers (Unit {0})) × (shut_down offline unresolving closers
            (Unit {0})
            no_content
            process
            last_moment
            (map worker (rounds 1 5 "now" (length held.manager.event_chan.buffer)))
          ≡ running u)
        × Stopped offline unresolving offline-Laws closers
            (Unit {0})
            no_content
            process
            u
            held
            "now")
unfolding lookup new_server
shut_down-Stopped_example =
    shut_down-Stopped offline unresolving offline-Laws closers (Unit {0}) no_content process
      last_moment 1 5 "now" refl refl refl (λ h i e. cc) ((λ b. absurd (cc (b.no_account))), tt)

-- Two workers, the second of which overtakes the first.
abbrev schedule : List Action
schedule =
    take_event 1
    ∷ take_event 2
    ∷ store_taken 2 5
    ∷ publish_event 2 "now"
    ∷ settle 2
    ∷ store_taken 1 5
    ∷ publish_event 1 "later"
    ∷ settle 1
    ∷ []

-- The pool that they leave.
abbrev left_over : Pool offline unresolving
unfolding run_all
left_over = elim (run_all offline unresolving process.pool schedule) [
  | running t ↦ t
  | panicked ↦ process.pool
]

run_all-unstored_example :
    (left_over.app.db ≡ process.pool.app.db)
    × ((told : List (Event × String)) × Perm process.pool.manager.event_chan.buffer
          (map (λ m. m.0) told)
        × (left_over.app.firehose.broadcast.buffer
            ≡ process.pool.app.firehose.broadcast.buffer ++ map own_message told))
unfolding lookup insert delete new_server run_all receive stored store_event publish offer try_send
    left_over after_handler is_checkpoint
run_all-unstored_example =
    run_all-unstored offline unresolving offline-Laws offline-IsCancelled process.pool left_over
      schedule refl refl (λ h i e. cc) (omega arith) refl refl refl

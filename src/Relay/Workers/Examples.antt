-- ===== src/Relay/Workers/Examples.antt =====
-- Two workers on tables in memory, with a library that resolves no DID.
use at_protocol_infrastructu.Prelude.{
  Option, ℕ, subst, sym, ◌≡◌, refl, String, none, some, [], ◌∷◌, ◌++◌, arith, false, nat_eq,
}
use at_protocol_infrastructu.Prelude.Assoc.{lookup, insert}
use at_protocol_infrastructu.Prelude.Int.{ℤ, pos, ◌<ℤ◌}
use at_protocol_infrastructu.Channel.{try_send, running, panicked}
use at_protocol_infrastructu.Ingest.Event.{Event}
use at_protocol_infrastructu.Verify.Unresolving.{unresolving}
use at_protocol_infrastructu.Storage.Stores.{save_cursor, store_event}
use at_protocol_infrastructu.Storage.Database.{EventRow}
use at_protocol_infrastructu.Ingest.Manager.{is_checkpoint}
use at_protocol_infrastructu.Storage.Sequence.{IsAscending}
use at_protocol_infrastructu.Storage.Memory.{memory, memory-rows, numbered, memory-Laws}
use at_protocol_infrastructu.Firehose.Message.{marshal, message_with_seq}
use at_protocol_infrastructu.Firehose.Server.{new_server, offer}
use at_protocol_infrastructu.Relay.{App, event_handler, stored}
use at_protocol_infrastructu.Relay.Workers.{
  in_hand, take_event, store_taken, publish_event, settle, Pool, run_all,
}
use at_protocol_infrastructu.Ingest.Manager.Checkpoints.{Explained}
use at_protocol_infrastructu.Relay.Workers.Explaining.{run_all-Explained}
use at_protocol_infrastructu.Relay.Workers.Ledger.{Ledger, IsEntry, with_row}
use at_protocol_infrastructu.Relay.Workers.Rounds.{run_all-Ledger}
use at_protocol_infrastructu.Relay.Workers.InTurn.{InTurn, round}
use at_protocol_infrastructu.Relay.Workers.Draining.{rounds, rounds-drain}
use at_protocol_infrastructu.Relay.Workers.Overtaking.{cursor_overtakes}
use at_protocol_infrastructu.Relay.Workers.Reordering.{publications_reversed}

abbrev pub post : ℕ → Event
post n = record {
  type = "commit";
  seq = pos n;
  did = "did:plc:a";
  time = 9;
  commit_cid = "c";
  prev_cid = "";
  raw_data = 1 ∷ [];
  host = "pds.a";
  record_path = "app/1";
  record_content = "hi";
  record_type = "app";
  action = "create";
}

abbrev pool : Pool memory unresolving
pool = record {
  manager = record {
    reconnect_delay = pos 5;
    max_reconnect_delay = pos 300;
    clients = [];
    event_chan = record { cap = 10; buffer = post 100 ∷ post 101 ∷ []; closed = false };
    metrics = none;
  };
  app = record {
    event_count = 0;
    pipeline = none;
    event_store = some [];
    db = record { hosts = ("pds.a", none) ∷ []; events = [] };
    current_sequence = pos 0;
    firehose = new_server none;
  };
  busy = [];
}

abbrev overtaken : Pool memory unresolving
overtaken = record pool {
  manager = record pool.manager {
    event_chan = record { cap = 10; buffer = post 199 ∷ post 200 ∷ []; closed = false };
  };
}

run_all-Ledger_example :
    (t : Pool memory unresolving) × (run_all memory unresolving pool (
        take_event 1
        ∷ store_taken 1 5
        ∷ take_event 2
        ∷ store_taken 2 5
        ∷ publish_event 2 "now"
        ∷ settle 2
        ∷ [])
      ≡ running t)
    × Ledger memory unresolving memory-Laws pool t
unfolding lookup new_server
run_all-Ledger_example =
    run_all-Ledger memory unresolving memory-Laws pool
      (take_event 1
        ∷ store_taken 1 5
        ∷ take_event 2
        ∷ store_taken 2 5
        ∷ publish_event 2 "now"
        ∷ settle 2
        ∷ [])
      refl refl (λ h i e. cc) (omega arith)

run_all-Explained_example :
    (t : Pool memory unresolving) × (run_all memory unresolving overtaken (
        take_event 1
        ∷ store_taken 1 5
        ∷ take_event 2
        ∷ store_taken 2 5
        ∷ publish_event 2 "now"
        ∷ settle 2
        ∷ [])
      ≡ running t)
    × ((h : String)
        → Explained h
            (post 199 ∷ post 200 ∷ [])
            (memory-Laws.cursor_of overtaken.app.db h)
            (memory-Laws.cursor_of t.app.db h))
unfolding new_server
run_all-Explained_example =
    run_all-Explained memory unresolving memory-Laws overtaken
      (take_event 1
        ∷ store_taken 1 5
        ∷ take_event 2
        ∷ store_taken 2 5
        ∷ publish_event 2 "now"
        ∷ settle 2
        ∷ [])
      refl refl

rounds-drain_example :
    (t : Pool memory unresolving) × (run_all memory unresolving pool (rounds 1 5 "now" 2)
      ≡ running t)
    × (t.manager.event_chan.buffer ≡ [])
    × InTurn memory unresolving memory-Laws pool t "now"
unfolding lookup new_server
rounds-drain_example =
    rounds-drain memory unresolving memory-Laws pool 1 5 "now" refl refl (λ h i e. cc)

publications_reversed_example :
    (t : Pool memory unresolving) × (run_all memory unresolving pool (
        take_event 1
        ∷ store_taken 1 5
        ∷ take_event 2
        ∷ store_taken 2 5
        ∷ publish_event 2 "now"
        ∷ publish_event 1 "later"
        ∷ [])
      ≡ running t)
    × (t.app.firehose.broadcast.buffer
        ≡ (pool.app.firehose.broadcast.buffer
            ++ marshal (
                message_with_seq
                  (post 101)
                  (stored memory unresolving
                    (stored memory unresolving pool.app (post 100) 5).1
                    (post 101)
                    5).0
                  "now")
              ∷ [])
          ++ marshal (
              message_with_seq
                (post 100)
                (stored memory unresolving pool.app (post 100) 5).0
                "later")
            ∷ [])
    × ((stored memory unresolving pool.app (post 100) 5).0
        <ℤ (stored memory unresolving
            (stored memory unresolving pool.app (post 100) 5).1
            (post 101)
            5).0)
unfolding lookup insert new_server stored store_event numbered
publications_reversed_example =
    publications_reversed memory unresolving memory-Laws pool 1 2 5 5 "now" "later" (post 100)
      (post 101) [] refl refl refl refl (omega arith) (λ h i e. cc)
      (subst IsAscending (sym (memory-rows pool.app.db)) tt) refl refl

-- What the handler leaves of the second event.
abbrev after_post : App memory unresolving
unfolding event_handler
after_post = elim (event_handler memory unresolving overtaken.app (post 200) 5 "now") [
  | running b ↦ b
  | panicked ↦ overtaken.app
]

cursor_overtakes_example :
    (t : Pool memory unresolving) × (run_all memory unresolving overtaken
        (take_event 1 ∷ round 2 5 "now")
      ≡ running t)
    × (memory-Laws.cursor_of t.app.db "pds.a" ≡ some (pos 200))
    × (lookup 1 t.busy ≡ some (in_hand (post 199)))
    × ((seq : ℤ) × (row : Option EventRow) × IsEntry
          (record { event = post 200; seq = seq; row = row })
        × (memory-Laws.rows t.app.db ≡ memory-Laws.rows overtaken.app.db ++ with_row row []))
unfolding lookup insert new_server after_post event_handler save_cursor store_event is_checkpoint
    offer try_send
cursor_overtakes_example =
    cursor_overtakes memory unresolving memory-Laws overtaken 1 2 5 "now" (post 199) (post 200) []
      after_post _ refl refl refl refl (λ h i e. cc) refl refl refl refl

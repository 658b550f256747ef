-- ===== src/Firehose/Replay/Examples.antt =====
-- A replay of two stored events, one of a table that grows meanwhile, and the requests that may start it.
use mathlib.Core.List.{append-nil}
use at_protocol_infrastructu.Prelude.{
  ℕ, zero, suc, refl, subst, sym, length, ◌<◌, ◌*◌, ◌≡◌, true, none, some, List, [], ◌∷◌, String,
  arith, map,
}
use at_protocol_infrastructu.Prelude.Int.{pos}
use at_protocol_infrastructu.Channel.{Chan, make}
use at_protocol_infrastructu.Firehose.Message.{Object}
use at_protocol_infrastructu.Ingest.Event.{Time}
use at_protocol_infrastructu.Decimal.{format_int}
use at_protocol_infrastructu.Storage.Stores.{StoredEvent, scan_event, get_events_from_seq}
use at_protocol_infrastructu.Storage.Database.{NewEvent}
use at_protocol_infrastructu.Storage.Sequence.{IsAscending}
use at_protocol_infrastructu.Storage.Memory.{Tables, memory, memory-Laws, memory-rows, numbered}
use at_protocol_infrastructu.Firehose.Server.{new_server, accept}
use at_protocol_infrastructu.Firehose.Handler.{connected, handler, handler-format_int}
use at_protocol_infrastructu.Firehose.Replay.{wire, replay_from_cursor}
use at_protocol_infrastructu.Firehose.Replay.Batches.{after}
use at_protocol_infrastructu.Firehose.Replay.Extending.{Extends}
use at_protocol_infrastructu.Firehose.Replay.Live.{LiveAnswer}
use at_protocol_infrastructu.Firehose.Replay.FromDatabase.{events_of, replay_from_cursor-database}
use at_protocol_infrastructu.Firehose.Replay.Complete.{at_rest, Answer, replay_from_cursor-Answer}

abbrev stored_at : ℕ → StoredEvent
stored_at n = record {
  seq = pos n;
  event_type = "commit";
  did = "did:plc:a";
  commit_cid = "c";
  prev_cid = "";
  raw_data = [];
  record_path = "app/1";
  record_content = "hi";
  created_at = n;
}

abbrev two : List StoredEvent
two = stored_at 4 ∷ stored_at 9 ∷ []

abbrev epoch : Time → String
epoch t = "1970-01-01T00:00:00Z"

-- The writer keeps up.
abbrev always : ℕ → Chan Object
always n = make 256

replay_from_cursor-Answer_example :
    Answer epoch always
      (map (wire epoch) (after (pos 4) two))
      (replay_from_cursor epoch always (at_rest two) 1 0 (pos 4) 0)
replay_from_cursor-Answer_example =
    replay_from_cursor-Answer epoch always two 1 0 (pos 0) (pos 4) 0
      (omega arith, (omega arith, tt)) (omega arith)

abbrev post : NewEvent
post = record {
  event_type = "commit";
  did = "did:plc:a";
  commit_cid = "c";
  prev_cid = "";
  host_id = 0;
  raw_data = [];
  record_path = "app/1";
  record_content = "hi";
}

-- One event when the replay starts, and another from its second query on.
abbrev tables : ℕ → Tables
tables zero = record { hosts = []; events = post ∷ [] }
tables (suc r) = record { hosts = []; events = post ∷ post ∷ [] }

later : (r : ℕ) → Extends (memory-Laws.rows (tables r)) (memory-Laws.rows (tables 1))
unfolding numbered
later zero = rw (memory-rows (tables 0), memory-rows (tables 1)) (_, refl)
later (suc r) = ([], sym (append-nil _))

grows : (r : ℕ) → Extends (memory-Laws.rows (tables r)) (memory-Laws.rows (tables (suc r)))
grows zero = later zero
grows (suc r) = later (suc r)

replay_from_cursor-database_example :
    LiveAnswer epoch always
      (after (pos 0) (events_of (memory-Laws.rows (tables 0))))
      (after (pos 0) (events_of (memory-Laws.rows (tables 1))))
      (replay_from_cursor epoch always
        (λ r c n. get_events_from_seq memory c n (tables r))
        1
        0
        (pos 0)
        0)
unfolding numbered scan_event
replay_from_cursor-database_example =
    replay_from_cursor-database memory memory-Laws epoch always tables (tables 1) 1 (pos 0)
      (λ r c. (_, refl)) grows later
      (subst IsAscending (sym (memory-rows (tables 1))) (omega arith))
      (subst (λ rs. length (after (pos 0) (events_of rs)) < 1 * 100) (sym (memory-rows (tables 1)))
        (omega arith))

handler-format_int_example :
    handler (new_server none) true (format_int (pos 42)) true "10.0.0.1" 7
    ≡ (accept (new_server none) (pos 42) "10.0.0.1" 7, connected (some (pos 42)))
handler-format_int_example =
    handler-format_int (new_server none) true (pos 42) "10.0.0.1" 7 (omega arith, omega arith)

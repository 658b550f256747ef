-- ===== src/Relay/Examples.antt =====
-- The theorems on the wiring, with tables in memory and a library that resolves no DID.
use at_protocol_infrastructu.Prelude.{◌≡◌, refl, none, some, [], ◌∷◌, string_eq}
use at_protocol_infrastructu.Prelude.Assoc.{lookup}
use at_protocol_infrastructu.Prelude.Int.{pos}
use at_protocol_infrastructu.Channel.{running}
use at_protocol_infrastructu.Ingest.Event.{Event}
use at_protocol_infrastructu.Verify.Unresolving.{unresolving}
use at_protocol_infrastructu.Storage.Memory.{Tables, memory, memory-Laws}
use at_protocol_infrastructu.Firehose.Server.{new_server}
use at_protocol_infrastructu.Relay.{App, event_handler}
use at_protocol_infrastructu.Relay.Publishing.{Published, event_handler-Published}

abbrev post : Event
post = record {
  type = "commit";
  seq = pos 200;
  did = "did:plc:a";
  time = 9;
  commit_cid = "c";
  prev_cid = "";
  raw_data = 1 ∷ [];
  host = "pds.a";
  record_path = "app/1";
  record_content = "hi";
  record_type = "app";
  action = "create";
}

abbrev tables : Tables
tables = record { hosts = ("pds.a", none) ∷ []; events = [] }

abbrev app : App memory unresolving
app = record {
  event_count = 0;
  pipeline = some (record { metrics = none; verified = 0; failed = 0 });
  event_store = some [];
  db = tables;
  current_sequence = pos 0;
  firehose = new_server none;
}

event_handler-Published_example :
    (b : App memory unresolving) × (event_handler memory unresolving app post 5 "now" ≡ running b)
    × Published memory unresolving memory-Laws app post "now" b
unfolding lookup new_server
event_handler-Published_example =
    event_handler-Published memory unresolving memory-Laws app post 5 "now" (λ h i e. cc) refl

-- ===== src/Ingest/AccountFrame.antt =====
-- A client at its start, and a frame that comes to it.
use at_protocol_infrastructu.Prelude.{ℕ, ◌*◌, ◌≡◌, refl, false, none, some, [], String}
use at_protocol_infrastructu.Prelude.Int.{pos}
use at_protocol_infrastructu.Channel.{running}
use at_protocol_infrastructu.Ingest.Event.{Event, Bytes}
use at_protocol_infrastructu.Ingest.Client.{PdsClient}
use at_protocol_infrastructu.Ingest.Stream.{StreamEvent, account_event, serialize_event, to_event}

abbrev pub second : ℕ
second = 1000000000

abbrev pub client : PdsClient
client = record {
  hostname = "pds.a";
  cursor = pos 0;
  has_conn = false;
  connected = false;
  last_event_time = 0;
  events_count = 0;
  reconnect_delay = pos (second * 5);
  max_reconnect_delay = pos (second * 12);
  current_delay = pos (second * 5);
}

-- A frame that says that an account changed.
abbrev pub frame : StreamEvent
frame = record {
  error = none;
  repo_commit = none;
  repo_identity = none;
  repo_account = some (record { seq = pos 5; did = "did:plc:a" });
  repo_sync = none;
  repo_info = none;
}

abbrev pub no_content : Bytes → String → String → String
no_content blocks cid record_type = ""

abbrev pub moved : Event
moved = record {
  type = "account";
  seq = pos 5;
  did = "did:plc:a";
  time = 9;
  commit_cid = "";
  prev_cid = "";
  raw_data = [];
  host = "pds.a";
  record_path = "";
  record_content = "";
  record_type = "";
  action = "";
}

pub frame_event : to_event no_content "pds.a" 9 frame ≡ running (some moved)
unfolding to_event account_event serialize_event
frame_event = refl

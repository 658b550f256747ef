-- ===== src/Firehose/Message.antt =====
-- The wire format of the firehose: `FirehoseMessage`, its two makers in
-- relay/internal/firehose/server.go, and its JSON object. `json.Marshal` has no error for a struct
-- of texts and integers; the text of the object, with its escapes, is left out.
use at_protocol_infrastructu.Prelude.{String, List, [], ◌∷◌, ◌++◌, ◌==◌, string_eq, if◌then◌else◌}
use at_protocol_infrastructu.Prelude.Int.{ℤ}
use at_protocol_infrastructu.Ingest.Event.{Event}

pub record FirehoseMessage : Type 0 where
  pub seq : ℤ
  pub type : String
  pub did : String
  pub commit_cid : String
  pub prev_cid : String
  pub time : String
  pub host : String
  pub record_path : String
  pub record_content : String
  pub record_type : String
  pub action : String

-- `now` is the text of `time.Now().Format(time.RFC3339)`.
unfoldable pub event_to_message : Event → String → FirehoseMessage
event_to_message event now = record {
  seq = event.seq;
  type = event.type;
  did = event.did;
  commit_cid = event.commit_cid;
  prev_cid = event.prev_cid;
  time = now;
  host = event.host;
  record_path = event.record_path;
  record_content = event.record_content;
  record_type = event.record_type;
  action = event.action;
}

unfoldable pub message_with_seq : Event → ℤ → String → FirehoseMessage
message_with_seq event seq now = record {
  seq = seq;
  type = event.type;
  did = event.did;
  commit_cid = event.commit_cid;
  prev_cid = event.prev_cid;
  time = now;
  host = event.host;
  record_path = event.record_path;
  record_content = event.record_content;
  record_type = event.record_type;
  action = event.action;
}

pub data Json : Type 0 where
  int : ℤ → Json
  text : String → Json

abbrev pub Object : Type 0
Object = List (String × Json)

-- The tag `omitempty` of a text.
omitempty : String → String → Object
omitempty key value = if value == "" then [] else (key, text value) ∷ []

unfoldable pub marshal : FirehoseMessage → Object
unfolding omitempty
marshal m =
    ("seq", int m.seq)
    ∷ ("type", text m.type)
    ∷ ("did", text m.did)
    ∷ (omitempty "commit_cid" m.commit_cid
        ++ omitempty "prev_cid" m.prev_cid
        ++ ("time", text m.time)
          ∷ ("host", text m.host)
          ∷ (omitempty "record_path" m.record_path
              ++ omitempty "content" m.record_content
              ++ omitempty "record_type" m.record_type
              ++ omitempty "action" m.action))

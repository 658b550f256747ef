-- ===== src/Ingest/Stream.antt =====
-- `handleRepoStreamEvent` of relay/internal/ingest/pds_client.go. The frames come from the indigo
-- library: here are the fields that the handler reads, a CID by its text, and the extraction of a
-- record's content is an argument.
pub mod Handling
pub mod Calm
use at_protocol_infrastructu.Prelude.{
  ℕ, suc, ◌+◌, ◌≡◌, Bool, true, false, ◌&&◌, ◌||◌, Option, none, some, List, [], ◌∷◌, ◌++◌, String,
  ◌==◌, string_eq, length, ltb, if◌then◌else◌,
}
use at_protocol_infrastructu.Prelude.Int.{ℤ, pos}
use at_protocol_infrastructu.Prelude.Result.{Result, ok, err}
use at_protocol_infrastructu.Channel.{Outcome, running, panicked, ◌>>=◌, Chan, try_send}
use at_protocol_infrastructu.Ingest.Event.{Event, Time, Bytes}
use at_protocol_infrastructu.Ingest.RecordPath.{record_type_of}
use at_protocol_infrastructu.Ingest.Client.{PdsClient}

pub record Op : Type 0 where
  pub action : String
  pub path : String
  pub cid : Option String

pub record Commit : Type 0 where
  pub seq : ℤ
  pub repo : String
  pub commit : String
  pub prev_data : Option String
  pub blocks : Bytes
  pub ops : List Op

pub record Account : Type 0 where
  pub seq : ℤ
  pub did : String

pub record Sync : Type 0 where
  pub seq : ℤ
  pub did : String
  pub blocks : Bytes

pub record Info : Type 0 where
  pub name : String
  pub message : Option String

-- `events.XRPCStreamEvent`: each field is a pointer that may be nil. `repo_identity` and
-- `repo_account` are read for the same two fields.
pub record StreamEvent : Type 0 where
  pub error : Option (String × String)
  pub repo_commit : Option Commit
  pub repo_identity : Option Account
  pub repo_account : Option Account
  pub repo_sync : Option Sync
  pub repo_info : Option Info

-- `serializeEvent`: the blocks of a commit, and no bytes for anything else.
unfoldable pub serialize_event : StreamEvent → Bytes
serialize_event evt = elim evt.repo_commit [ none ↦ [] | some commit ↦ commit.blocks ]

-- The event at the top of the handler.
blank : String → Time → Event
blank host now = record {
  type = "";
  seq = pos 0;
  did = "";
  time = now;
  commit_cid = "";
  prev_cid = "";
  raw_data = [];
  host = host;
  record_path = "";
  record_content = "";
  record_type = "";
  action = "";
}

abbrev pub text_or_empty : Option String → String
text_or_empty none = ""
text_or_empty (some t) = t

is_empty {ℓ} : {A : Type ℓ} → List A → Bool
is_empty [] = true
is_empty (_ ∷ _) = false

-- The case of the last `select` that was taken: the send, for which there was room then, the timer,
-- or the end of the context.
pub data Select : Type 0 where
  send_ready timed_out ctx_done : Select

pub data StreamError : Type 0 where
  stream_error : String → String → StreamError
  ctx_error : StreamError

unfoldable pub account_event : String → String → Time → Account → Bytes → Event
unfolding blank
account_event type host now account raw = record (blank host now) {
  type = type;
  seq = account.seq;
  did = account.did;
  raw_data = raw;
}

unfoldable pub sync_event : String → Time → Sync → Event
unfolding blank
sync_event host now sync = record (blank host now) {
  type = "sync";
  seq = sync.seq;
  did = sync.did;
  raw_data = sync.blocks;
}

-- `*info.Message` is read for the log whether or not it is there.
info_event : Info → Outcome (Option Event)
info_event info = elim info.message [ none ↦ panicked | some _ ↦ running none ]

-- "Update cursor", before the event is handed on.
unfoldable pub note_event : PdsClient → Event → PdsClient
note_event c event = record c {
  cursor = event.seq;
  events_count = c.events_count + 1;
  last_event_time = event.time;
}

deliver_event : Select → Chan Event → Event → Outcome (Chan Event × Result StreamError (Unit {0}))
deliver_event timed_out ch event = running (ch, ok tt)
deliver_event ctx_done ch event = running (ch, err ctx_error)
deliver_event send_ready ch event = do (ch', sent) ← try_send ch event; running (ch', ok tt)

-- The client, the event channel and the error that the handler returns.
abbrev pub Handled : Type 0
Handled = PdsClient × Chan Event × Result StreamError (Unit {0})

hand_on : Select → PdsClient → Chan Event → Option Event → Outcome Handled
unfolding note_event deliver_event
hand_on choice c ch none = running (c, ch, ok tt)
hand_on choice c ch (some event) = do
  (ch', r) ← deliver_event choice ch event
  running (note_event c event, ch', r)

module _ (extract : Bytes → String → String → String) where
  -- The content of a create or an update that names its record.
  op_content : Bytes → Op → String → Option String → String
  op_content blocks op record_type none = ""
  op_content blocks op record_type (some cid) =
      if op.action == "create" || op.action == "update" then extract blocks cid record_type else ""

  -- The first operation, if there are operations and blocks.
  with_ops : Commit → List Op → Event → Event
  unfolding op_content is_empty
  with_ops commit [] event = event
  with_ops commit (op ∷ _) event = if is_empty commit.blocks then event else record event {
    action = op.action;
    record_path = op.path;
    record_type = record_type_of op.path;
    record_content = op_content commit.blocks op (record_type_of op.path) op.cid;
  }

  unfoldable pub commit_event : String → Time → Commit → Event
  unfolding blank with_ops
  commit_event host now commit = with_ops commit commit.ops (record (blank host now) {
    type = "commit";
    seq = commit.seq;
    did = commit.repo;
    commit_cid = commit.commit;
    prev_cid = text_or_empty commit.prev_data;
    raw_data = commit.blocks;
  })

  -- The `switch`: the event to hand on, or none for a frame that is skipped.
  unfoldable pub to_event : String → Time → StreamEvent → Outcome (Option Event)
  unfolding info_event
  to_event host now evt = elim evt.repo_commit [
    | some commit ↦ running (some (commit_event host now commit))
    | none ↦ elim evt.repo_identity [
      | some identity ↦
          running (some (account_event "identity" host now identity (serialize_event evt)))
      | none ↦ elim evt.repo_account [
        | some account ↦
            running (some (account_event "account" host now account (serialize_event evt)))
        | none ↦ elim evt.repo_sync [
          | some sync ↦ running (some (sync_event host now sync))
          | none ↦ elim evt.repo_info [ some info ↦ info_event info | none ↦ running none ]
        ]
      ]
    ]
  ]

  unfoldable pub handle_repo_stream_event :
      PdsClient → Chan Event → Time → Select → StreamEvent → Outcome Handled
  unfolding hand_on
  handle_repo_stream_event c ch now choice evt = elim evt.error [
    | some (error, message) ↦ running (c, ch, err (stream_error error message))
    | none ↦ do event ← to_event c.hostname now evt; hand_on choice c ch event
  ]

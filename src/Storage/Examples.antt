-- ===== src/Storage/Examples.antt =====
-- The storage theorems at tables in memory.
use at_protocol_infrastructu.Prelude.{ℕ, ◌≡◌, refl, none, some, [], ◌∷◌}
use at_protocol_infrastructu.Prelude.Assoc.{lookup}
use at_protocol_infrastructu.Prelude.Int.{ℤ, pos}
use at_protocol_infrastructu.Storage.Database.{NewEvent}
use at_protocol_infrastructu.Storage.Stores.{save_cursor, get_cursor, store_event}
use at_protocol_infrastructu.Storage.Cursors.{save_cursor_lem, get_cursor-save_cursor}
use at_protocol_infrastructu.Storage.Events.{Stored, store_event-Stored}
use at_protocol_infrastructu.Storage.Memory.{
  Tables, memory, memory-Laws, find, add_host, set_cursor, cursor_at,
}

abbrev pub one_host : Tables
one_host = record { hosts = ("pds.a", none) ∷ []; events = [] }

abbrev pub post : ℕ → NewEvent
post i = record {
  event_type = "commit";
  did = "did:plc:a";
  commit_cid = "c";
  prev_cid = "";
  host_id = i;
  raw_data = [];
  record_path = "app.bsky.feed.post/1";
  record_content = "hi";
}

save_cursor_lem_example :
    memory-Laws.cursor_of (save_cursor memory "pds.b" (pos 7) one_host).1 "pds.b" ≡ some (pos 7)
unfolding save_cursor find add_host set_cursor cursor_at
save_cursor_lem_example = save_cursor_lem memory memory-Laws "pds.b" (pos 7) one_host "pds.b"

get_cursor-save_cursor_example : ◌≡◌ {A = ℤ} (pos 7) (pos 7)
unfolding get_cursor save_cursor find add_host set_cursor cursor_at
get_cursor-save_cursor_example =
    get_cursor-save_cursor memory memory-Laws "pds.a" (pos 7) (pos 7) one_host refl refl

store_event-Stored_example :
    Stored memory memory-Laws "pds.a" post one_host (store_event memory "pds.a" post [] one_host)
unfolding lookup
store_event-Stored_example =
    store_event-Stored memory memory-Laws "pds.a" post [] one_host (λ h i e. cc)

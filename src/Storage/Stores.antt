-- ===== src/Storage/Stores.antt =====
-- The Go side of relay/internal/storage/postgres.go: `DB`, `CursorStore` and `EventStore` over the
-- statements of the service.
use at_protocol_infrastructu.Prelude.{ℕ, Option, none, some, List, map, String, string_eq}
use at_protocol_infrastructu.Prelude.Assoc.{lookup, insert}
use at_protocol_infrastructu.Prelude.Result.{Result, ok, err}
use at_protocol_infrastructu.Prelude.Int.{ℤ, pos}
use at_protocol_infrastructu.Ingest.Event.{Time, Bytes}
use at_protocol_infrastructu.Storage.Database.{DbError, no_rows, wrap, EventRow, NewEvent, Postgres}

-- `storage.Event`
pub record StoredEvent : Type 0 where
  pub seq : ℤ
  pub event_type : String
  pub did : String
  pub commit_cid : String
  pub prev_cid : String
  pub raw_data : Bytes
  pub record_path : String
  pub record_content : String
  pub created_at : Time

-- `sql.NullString.String` and `sql.NullInt64.Int64`: the zero value for NULL.
abbrev pub text_or_zero : Option String → String
text_or_zero none = ""
text_or_zero (some t) = t

abbrev pub int_or_zero : Option ℤ → ℤ
int_or_zero none = pos 0
int_or_zero (some z) = z

unfoldable pub scan_event : EventRow → StoredEvent
scan_event r = record {
  seq = r.seq;
  event_type = r.event_type;
  did = r.did;
  commit_cid = text_or_zero r.commit_cid;
  prev_cid = text_or_zero r.prev_cid;
  raw_data = r.raw_data;
  record_path = text_or_zero r.record_path;
  record_content = text_or_zero r.record_content;
  created_at = r.created_at;
}

abbrev pub scanned : Result DbError (List EventRow) → Result DbError (List StoredEvent)
scanned (err e) = err e
scanned (ok rs) = ok (map scan_event rs)

-- `EventStore.hostIDs`, the cache of host ids.
abbrev pub HostIds : Type 0
HostIds = List (String × ℕ)

module _ (p : Postgres) where
  -- `DB.GetHostCursor`
  unfoldable pub get_host_cursor : String → p.State → Result DbError ℤ
  get_host_cursor hostname s = elim (p.select_cursor hostname s) [
    | err e ↦ err e
    | ok cursor ↦ ok (int_or_zero cursor)
  ]

  -- `CursorStore.GetCursor`; `err == sql.ErrNoRows` is not true of a wrapped error.
  abbrev pub or_beginning : Result DbError ℤ → Result DbError ℤ
  or_beginning (ok cursor) = ok cursor
  or_beginning (err no_rows) = ok (pos 0)
  or_beginning (err e) = err e

  unfoldable pub get_cursor : String → p.State → Result DbError ℤ
  unfolding get_host_cursor
  get_cursor hostname s = or_beginning (get_host_cursor hostname s)

  -- `CursorStore.SaveCursor`
  unfoldable pub save_with : Result DbError ℕ × p.State → ℤ → Result DbError (Unit {0}) × p.State
  save_with (err e, s) cursor = (err (wrap "failed to upsert host" e), s)
  save_with (ok host_id, s) cursor = p.update_cursor cursor host_id s

  unfoldable pub save_cursor : String → ℤ → p.State → Result DbError (Unit {0}) × p.State
  unfolding save_with
  save_cursor hostname cursor s = save_with (p.upsert_host hostname s) cursor

  -- `DB.InsertEvent`, its arguments in the record.
  unfoldable pub insert_event : NewEvent → HostIds → p.State → Result DbError ℤ × HostIds × p.State
  insert_event e ids s = let (r, t) = p.insert_event e s in (r, ids, t)

  unfoldable pub resolve_host :
      Result DbError ℕ × p.State
      → String
      → (ℕ → NewEvent)
      → HostIds
      → Result DbError ℤ × HostIds × p.State
  unfolding insert_event
  resolve_host (err e, s) hostname new ids = (err (wrap "failed to get host ID" e), ids, s)
  resolve_host (ok host_id, s) hostname new ids =
      insert_event (new host_id) (insert hostname host_id ids) s

  -- `EventStore.StoreEvent`; `new` is the event's row but for the host id.
  unfoldable pub store_event :
      String → (ℕ → NewEvent) → HostIds → p.State → Result DbError ℤ × HostIds × p.State
  unfolding resolve_host insert_event
  store_event hostname new ids s = elim (lookup hostname ids) [
    | some host_id ↦ insert_event (new host_id) ids s
    | none ↦ resolve_host (p.upsert_host hostname s) hostname new ids
  ]

  -- `GetEventsFromSeq` of `DB` and `EventStore`.
  unfoldable pub get_events_from_seq : ℤ → ℕ → p.State → Result DbError (List StoredEvent)
  unfolding scan_event
  get_events_from_seq from_seq limit s = scanned (p.select_events from_seq limit s)

  -- `GetCurrentSeq` of `DB` and `EventStore`.
  unfoldable pub get_current_seq : p.State → Result DbError ℤ
  get_current_seq s = p.last_value s

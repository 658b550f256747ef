-- ===== src/Storage/Database.antt =====
-- The SQL statements of relay/internal/storage/postgres.go, and PostgreSQL behind them. The service
-- is a parameter: a record with one operation for each statement, and the laws that the statements
-- are documented to have, on the rows that a client can see. A statement that fails is rolled back,
-- and one follows another: no two of them overlap.
use at_protocol_infrastructu.Prelude.{
  ℕ, ◌≡◌, ◌≢◌, Option, none, some, List, [], ◌∷◌, ◌++◌, String, ◌==◌, string_eq, nat_eq,
  if◌then◌else◌, take, select, All,
}
use at_protocol_infrastructu.Prelude.Result.{Result, ok, err}
use at_protocol_infrastructu.Prelude.Int.{ℤ, ltb_ℤ, ◌<ℤ◌}
use at_protocol_infrastructu.Ingest.Event.{Time, Bytes}

-- `sql.ErrNoRows`, any other failure, and an error wrapped by `fmt.Errorf("…: %w", err)`.
pub data DbError : Type 0 where
  no_rows : DbError
  fault : String → DbError
  wrap : String → DbError → DbError

-- A row of `events` as the SELECT of `GetEventsFromSeq` returns it; columns that may be NULL are
-- options.
pub record EventRow : Type 0 where
  pub seq : ℤ
  pub event_type : String
  pub did : String
  pub commit_cid : Option String
  pub prev_cid : Option String
  pub raw_data : Bytes
  pub record_path : Option String
  pub record_content : Option String
  pub created_at : Time

-- The arguments of the INSERT of `InsertEvent`.
pub record NewEvent : Type 0 where
  pub event_type : String
  pub did : String
  pub commit_cid : String
  pub prev_cid : String
  pub host_id : ℕ
  pub raw_data : Bytes
  pub record_path : String
  pub record_content : String

pub record Postgres : Type 1 where
  pub State : Type 0
  pub upsert_host : String → State → Result DbError ℕ × State
  pub update_cursor : ℤ → ℕ → State → Result DbError (Unit {0}) × State
  pub select_cursor : String → State → Result DbError (Option ℤ)
  pub insert_event : NewEvent → State → Result DbError ℤ × State
  pub select_events : ℤ → ℕ → State → Result DbError (List EventRow)
  pub last_value : State → Result DbError ℤ

-- The row that an insert adds.
abbrev pub row_of : NewEvent → ℤ → Time → EventRow
row_of e seq now = record {
  seq = seq;
  event_type = e.event_type;
  did = e.did;
  commit_cid = some e.commit_cid;
  prev_cid = some e.prev_cid;
  raw_data = e.raw_data;
  record_path = some e.record_path;
  record_content = some e.record_content;
  created_at = now;
}

-- What a client can see of the tables: the id and the cursor of a host, and the event rows in the
-- order of `seq`.
pub record Laws (p : Postgres) : Type 0 where
  pub id_of : p.State → String → Option ℕ
  pub cursor_of : p.State → String → Option ℤ
  pub rows : p.State → List EventRow
  pub ids_distinct :
      (s : p.State) (h j : String) (i : ℕ) → id_of s h ≡ some i → id_of s j ≡ some i → h ≡ j
  -- INSERT INTO hosts … ON CONFLICT DO UPDATE SET updated_at … RETURNING id
  pub upsert_ids :
      (s : p.State) (h j : String) (i : ℕ)
      → (p.upsert_host h s).0 ≡ ok i
      → id_of (p.upsert_host h s).1 j ≡ (if h == j then some i else id_of s j)
  pub upsert_old :
      (s : p.State) (h : String) (i j : ℕ)
      → id_of s h ≡ some j
      → (p.upsert_host h s).0 ≡ ok i
      → i ≡ j
  pub upsert_cursors :
      (s : p.State) (h j : String) → cursor_of (p.upsert_host h s).1 j ≡ cursor_of s j
  pub upsert_rows : (s : p.State) (h : String) → rows (p.upsert_host h s).1 ≡ rows s
  pub upsert_failed :
      (s : p.State) (h j : String) (e : DbError)
      → (p.upsert_host h s).0 ≡ err e
      → id_of (p.upsert_host h s).1 j ≡ id_of s j
  -- UPDATE hosts SET cursor = $1 … WHERE id = $2
  pub update_ids :
      (s : p.State) (c : ℤ) (i : ℕ) (j : String) → id_of (p.update_cursor c i s).1 j ≡ id_of s j
  pub update_hit :
      (s : p.State) (c : ℤ) (i : ℕ) (j : String)
      → (p.update_cursor c i s).0 ≡ ok tt
      → id_of s j ≡ some i
      → cursor_of (p.update_cursor c i s).1 j ≡ some c
  pub update_miss :
      (s : p.State) (c : ℤ) (i : ℕ) (j : String)
      → id_of s j ≢ some i
      → cursor_of (p.update_cursor c i s).1 j ≡ cursor_of s j
  pub update_failed :
      (s : p.State) (c : ℤ) (i : ℕ) (j : String) (e : DbError)
      → (p.update_cursor c i s).0 ≡ err e
      → cursor_of (p.update_cursor c i s).1 j ≡ cursor_of s j
  pub update_rows : (s : p.State) (c : ℤ) (i : ℕ) → rows (p.update_cursor c i s).1 ≡ rows s
  -- SELECT cursor FROM hosts WHERE hostname = $1
  pub cursor_found :
      (s : p.State) (h : String) (c : Option ℤ) → p.select_cursor h s ≡ ok c → cursor_of s h ≡ c
  pub cursor_missing :
      (s : p.State) (h : String) → p.select_cursor h s ≡ err no_rows → id_of s h ≡ none
  pub cursor_row : (s : p.State) (h : String) → id_of s h ≡ none → cursor_of s h ≡ none
  -- INSERT INTO events … RETURNING seq, with `seq` from the sequence `event_seq`
  pub insert_ids :
      (s : p.State) (e : NewEvent) (j : String) → id_of (p.insert_event e s).1 j ≡ id_of s j
  pub insert_cursors :
      (s : p.State) (e : NewEvent) (j : String) → cursor_of (p.insert_event e s).1 j ≡ cursor_of s j
  pub insert_rows :
      (s : p.State) (e : NewEvent) (q : ℤ)
      → (p.insert_event e s).0 ≡ ok q
      → (now : Time) × (rows (p.insert_event e s).1 ≡ rows s ++ row_of e q now ∷ [])
  pub insert_seq :
      (s : p.State) (e : NewEvent) (q : ℤ)
      → (p.insert_event e s).0 ≡ ok q
      → All (λ r. r.seq <ℤ q) (rows s)
  pub insert_failed :
      (s : p.State) (e : NewEvent) (x : DbError)
      → (p.insert_event e s).0 ≡ err x
      → rows (p.insert_event e s).1 ≡ rows s
  -- SELECT … FROM events WHERE seq > $1 ORDER BY seq ASC LIMIT $2
  pub select_lem :
      (s : p.State) (c : ℤ) (n : ℕ) (rs : List EventRow)
      → p.select_events c n s ≡ ok rs
      → rs ≡ take n (select (λ r. ltb_ℤ c r.seq) (rows s))

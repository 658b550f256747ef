-- ===== src/Storage/Opening.antt =====
-- Opening the database and creating its tables (relay/internal/storage/postgres.go). `database/sql`
-- and the service are a parameter.
pub mod Laws
pub mod Migrating
pub mod Relations
mod Examples
use at_protocol_infrastructu.Prelude.{Bool, true, false, List, [], ◌∷◌, String}
use at_protocol_infrastructu.Prelude.Result.{Result, ok, err}
use at_protocol_infrastructu.Prelude.Int.{ℤ, pos}

-- What can stand in a database: a relation of a name, a column of a table, one whose values are
-- unique, and a sequence.
pub data Fact : Type 0 where
  relation : String → Fact
  column : String → String → Fact
  key : String → String → Fact
  sequence : String → Fact

-- A column with its definition: whether that makes its values unique, and what it refers to.
pub record Column : Type 0 where
  pub name : String
  pub definition : String
  pub is_key : Bool
  pub refers_to : List Fact

-- `CREATE …`, with `IF NOT EXISTS` if the flag is set.
pub data Statement : Type 0 where
  create_table : Bool → String → List Column → Statement
  create_index : Bool → String → String → String → Statement  -- name, table, column
  create_sequence : Bool → String → ℤ → Statement  -- name, start

abbrev pub plain : String → String → Column
plain name definition = record {
  name = name;
  definition = definition;
  is_key = false;
  refers_to = [];
}

-- The texts of `Migrate`.
abbrev pub migrations : List Statement
migrations =
    create_table true "hosts" (
      record { name = "id"; definition = "SERIAL PRIMARY KEY"; is_key = true; refers_to = [] }
      ∷ record {
        name = "hostname";
        definition = "TEXT UNIQUE NOT NULL";
        is_key = true;
        refers_to = [];
      }
      ∷ plain "status" "TEXT NOT NULL DEFAULT 'active'"
      ∷ plain "cursor" "BIGINT"
      ∷ plain "last_seen_at" "TIMESTAMP WITH TIME ZONE"
      ∷ plain "created_at" "TIMESTAMP WITH TIME ZONE DEFAULT NOW()"
      ∷ plain "updated_at" "TIMESTAMP WITH TIME ZONE DEFAULT NOW()"
      ∷ [])
    ∷ create_index true "idx_hosts_hostname" "hosts" "hostname"
    ∷ create_sequence true "event_seq" (pos 1)
    ∷ create_table true "events" (
        record {
          name = "seq";
          definition = "BIGINT PRIMARY KEY DEFAULT nextval('event_seq')";
          is_key = true;
          refers_to = sequence "event_seq" ∷ [];
        }
        ∷ plain "event_type" "TEXT NOT NULL"
        ∷ plain "did" "TEXT NOT NULL"
        ∷ plain "commit_cid" "TEXT"
        ∷ plain "prev_cid" "TEXT"
        ∷ record {
          name = "host_id";
          definition = "INTEGER REFERENCES hosts(id)";
          is_key = false;
          refers_to = key "hosts" "id" ∷ [];
        }
        ∷ plain "raw_data" "BYTEA"
        ∷ plain "record_path" "TEXT"
        ∷ plain "record_content" "TEXT"
        ∷ plain "created_at" "TIMESTAMP WITH TIME ZONE DEFAULT NOW()"
        ∷ [])
    ∷ create_index true "idx_events_did" "events" "did"
    ∷ create_index true "idx_events_created_at" "events" "created_at"
    ∷ create_index true "idx_events_host_id" "events" "host_id"
    ∷ []

-- What `NewDB` and `Migrate` use of `database/sql`. Limits are set on the handle; a ping and a
-- statement may change it, since they open connections.
pub record Driver : Type 1 where
  pub Db : Type 0
  pub open_db : String → Result String Db
  pub set_max_open_conns : ℤ → Db → Db
  pub set_max_idle_conns : ℤ → Db → Db
  pub set_conn_max_lifetime : ℤ → Db → Db
  pub ping : Db → Result String (Unit {0}) × Db
  pub exec : Statement → Db → Result String (Unit {0}) × Db

-- An error with the text that is put before it.
pub record Failure : Type 0 where
  pub context : String
  pub cause : String

module _ (d : Driver) where
  tested : Result String (Unit {0}) × d.Db → Result Failure d.Db
  tested (err e, db) = err (record { context = "failed to ping database"; cause = e })
  tested (ok _, db) = ok db

  opened : Result String d.Db → ℤ → ℤ → ℤ → Result Failure d.Db
  unfolding tested
  opened (err e) max_open max_idle max_lifetime =
      err (record { context = "failed to open database"; cause = e })
  opened (ok db) max_open max_idle max_lifetime = tested (
      d.ping (
        d.set_conn_max_lifetime max_lifetime
          (d.set_max_idle_conns max_idle (d.set_max_open_conns max_open db))))

  -- `NewDB`
  unfoldable pub new_db : String → ℤ → ℤ → ℤ → Result Failure d.Db
  unfolding opened
  new_db conn_str max_open max_idle max_lifetime =
      opened (d.open_db conn_str) max_open max_idle max_lifetime

  -- The loop of `Migrate`, which ends at the first error.
  unfoldable pub after_exec :
      Result String (Unit {0}) × d.Db
      → (d.Db → Result Failure (Unit {0}) × d.Db)
      → Result Failure (Unit {0}) × d.Db
  after_exec (err e, db) rest = (err (record { context = "migration failed"; cause = e }), db)
  after_exec (ok _, db) rest = rest db

  unfoldable pub exec_all : List Statement → d.Db → Result Failure (Unit {0}) × d.Db
  unfolding after_exec
  exec_all [] db = (ok tt, db)
  exec_all (migration ∷ rest) db = after_exec (d.exec migration db) (exec_all rest)

  -- `Migrate`
  unfoldable pub migrate : d.Db → Result Failure (Unit {0}) × d.Db
  unfolding exec_all
  migrate db = exec_all migrations db

-- ===== src/Relay/Boot/Parts.antt =====
-- The parts that a relay comes up with: the manager with its channel, the database, the stores over
-- it, and the cursors that the clients of the initial hosts begin at.
use at_protocol_infrastructu.Prelude.{
  ℕ, ◌<◌, ◌≡◌, refl, ◌∙◌, subst, false, true, Bool, Option, none, some, List, [], ◌∷◌, String,
  arith, string_eq,
}
use at_protocol_infrastructu.Prelude.Result.{Result, ok, err}
use at_protocol_infrastructu.Prelude.Int.{ℤ, pos, negsuc, ◌<ℤ◌}
use at_protocol_infrastructu.Channel.{running, make, make_sized}
use at_protocol_infrastructu.Config.{Config, IngestConfig}
use at_protocol_infrastructu.Ingest.Manager.{
  CursorStore, Counters, Manager, add_host, starting_cursor,
}
use at_protocol_infrastructu.Ingest.Manager.Starting.{new_manager, worker_number, add_hosts}
use at_protocol_infrastructu.Ingest.Manager.Hosts.{add_host-chan}
use at_protocol_infrastructu.Storage.Database.{DbError, no_rows}
use at_protocol_infrastructu.Storage.Stores.{get_cursor, get_host_cursor, or_beginning, int_or_zero}
use at_protocol_infrastructu.Relay.{cursor_store}
use at_protocol_infrastructu.Storage.Opening.{Failure, new_db, migrate}
use at_protocol_infrastructu.Relay.Boot.{
  Libraries, Start, Up, Halt, migrated, connected, with_lifetime, open_database, cursors_of,
  store_of, service_of, built,
}

pub add_hosts-chan {ℓ} :
    {E : Type ℓ} {W : Type 0} (store : Option (CursorStore E W)) (w : W) (m : Manager)
    (hosts : List String)
    → (add_hosts store w m hosts).event_chan ≡ m.event_chan
unfolding add_hosts
add_hosts-chan store w m [] = refl
add_hosts-chan store w m (h ∷ rest) =
    add_hosts-chan store w (add_host m store h w) rest ∙ add_host-chan m store h w

-- A manager that was made has an open channel of the configured size.
pub made :
    (cfg : IngestConfig) (counts : Option Counters) (m : Manager)
    → new_manager cfg counts ≡ running m
    → (size : ℕ) × (cfg.buffer_size ≡ pos size) × (m.event_chan ≡ make size)
unfolding new_manager make_sized
made cfg counts m e = sized cfg.buffer_size refl e
  where
    sized :
        (z : ℤ)
        → cfg.buffer_size ≡ z
        → new_manager (record cfg { buffer_size = z }) counts ≡ running m
        → (size : ℕ) × (cfg.buffer_size ≡ pos size) × (m.event_chan ≡ make size)
    sized (pos n) q w = (n, q, ground arith)
    sized (negsuc n) q w = absurd (cc)

pub positive_workers : (z : ℤ) → pos 0 <ℤ z → 0 < worker_number z
unfolding worker_number
positive_workers (pos n) h = omega arith
positive_workers (negsuc n) h = absurd (omega arith)

module _ (lib : Libraries) where
  open lib use {postgres, driver, attach, parse_duration}

  -- The database as the relay found it: not asked for, or opened and migrated.
  abbrev pub Connected : Bool → Config → Option driver.Db → Type 0
  Connected false cfg db = db ≡ none
  Connected true cfg db =
      (lifetime : ℤ) × (opened : driver.Db) × (handle : driver.Db) × (parse_duration
          cfg.database.conn_max_lifetime
        ≡ ok lifetime)
      × (new_db driver cfg.database.postgres_url cfg.database.max_open_conns
            cfg.database.max_idle_conns lifetime
          ≡ ok opened)
      × (migrate driver opened ≡ (ok tt, handle))
      × (db ≡ some handle)

  migrated-ok :
      (x : Result Failure (Unit {0}) × driver.Db) (db : driver.Db)
      → migrated lib x ≡ ok db
      → x ≡ (ok tt, db)
  unfolding migrated
  migrated-ok (err e, h) db q = absurd (cc)
  migrated-ok (ok _, h) db q = ground arith

  opened-Connected :
      (cfg : Config) (a : Result String ℤ) (db : driver.Db)
      → parse_duration cfg.database.conn_max_lifetime ≡ a
      → with_lifetime lib cfg.database a ≡ ok db
      → Connected true cfg (some db)
  unfolding with_lifetime connected
  opened-Connected cfg (err x) db p e = absurd (cc)
  opened-Connected cfg (ok lifetime) db p e =
      opened
        (new_db driver cfg.database.postgres_url cfg.database.max_open_conns
          cfg.database.max_idle_conns lifetime)
        refl e
    where
      opened :
          (r : Result Failure driver.Db)
          → new_db driver cfg.database.postgres_url cfg.database.max_open_conns
              cfg.database.max_idle_conns lifetime
            ≡ r
          → connected lib r ≡ ok db
          → Connected true cfg (some db)
      opened (err x) q c = absurd (cc)
      opened (ok o) q c = (lifetime, o, db, p, q, migrated-ok (migrate driver o) db c, refl)

  pub open_database-Connected :
      (enabled : Bool) (cfg : Config) (db : Option driver.Db)
      → open_database lib enabled cfg.database ≡ ok db
      → Connected enabled cfg db
  unfolding open_database
  open_database-Connected false cfg db e = ground arith
  open_database-Connected true cfg db e =
      found (with_lifetime lib cfg.database (parse_duration cfg.database.conn_max_lifetime)) refl e
    where
      found :
          (r : Result Halt driver.Db)
          → with_lifetime lib cfg.database (parse_duration cfg.database.conn_max_lifetime) ≡ r
          → (elim r [ err x ↦ err x | ok h ↦ ok (some h) ]) ≡ ok db
          → Connected true cfg db
      found (err x) q w = absurd (cc)
      found (ok h) q w =
          subst (Connected true cfg) (ground arith)
            (opened-Connected cfg (parse_duration cfg.database.conn_max_lifetime) h refl q)

  -- The stores are there with the database alone, over its tables; the event store has no host id
  -- in its cache yet.
  abbrev pub Stores : Start lib → Up lib → Option driver.Db → Type 0
  Stores s u none =
      (u.cursors ≡ none)
      × (u.process.pool.app.event_store ≡ none)
      × (u.process.pool.app.db ≡ s.service)
  Stores s u (some db) =
      (u.cursors ≡ some (cursor_store postgres))
      × (u.process.pool.app.event_store ≡ some [])
      × (u.process.pool.app.db ≡ attach db)

  -- The cursor in the row of a host: 0 without a row, without a cursor in it, after an error of the
  -- query, and without a database.
  abbrev cursor_in : Result DbError (Option ℤ) → ℤ
  cursor_in (ok (some cursor)) = cursor
  cursor_in (ok none) = pos 0
  cursor_in (err e) = pos 0

  abbrev pub saved : Option driver.Db → String → ℤ
  saved none host = pos 0
  saved (some db) host = cursor_in (postgres.select_cursor host (attach db))

  read_or_zero :
      (r : Result DbError (Option ℤ))
      → (elim (or_beginning postgres (elim r [ err e ↦ err e | ok o ↦ ok (int_or_zero o) ])) [
        | ok cursor ↦ cursor
        | err e ↦ pos 0
      ])
        ≡ cursor_in r
  read_or_zero (ok (some cursor)) = refl
  read_or_zero (ok none) = refl
  read_or_zero (err no_rows) = refl
  read_or_zero (err e) = refl

  pub starting_cursor-saved :
      (s : Start lib) (db : Option driver.Db) (host : String)
      → starting_cursor (cursors_of lib db) host (service_of lib s.service db) ≡ saved db host
  unfolding starting_cursor cursors_of service_of cursor_store get_cursor get_host_cursor
  starting_cursor-saved s none host = refl
  starting_cursor-saved s (some db) host = read_or_zero (postgres.select_cursor host (attach db))

  pub built-Stores :
      (s : Start lib) (cfg : Config) (collectors : _) (db : Option driver.Db) (m : Manager)
      → Stores s (built lib s cfg collectors db m) db
  unfolding built cursors_of store_of service_of
  built-Stores s cfg collectors none m = (refl, refl, refl)
  built-Stores s cfg collectors (some db) m = (refl, refl, refl)

-- ===== src/Relay/Boot.antt =====
-- The start of `main` in relay/cmd/relay/main.go, up to the point where it waits for a signal.
-- `log.Fatal` and `os.Exit` end it early, a panic of a constructor ends it too.
pub mod Parts
pub mod ComingUp
pub mod Lifetime
mod Examples
use mathlib.Core.Option
use at_protocol_infrastructu.Prelude.{
  ℕ, Bool, true, false, Option, none, some, List, [], ◌∷◌, ◌++◌, String, ◌==◌, string_eq,
  if◌then◌else◌,
}
use at_protocol_infrastructu.Prelude.Result.{Result, ok, err}
use at_protocol_infrastructu.Prelude.Int.{ℤ, pos}
use at_protocol_infrastructu.Decimal.{format_int}
use at_protocol_infrastructu.Channel.{Outcome, running, ◌>>=◌}
use at_protocol_infrastructu.Config.{Config, DatabaseConfig, ConfigError, ReadIn, load, address}
use at_protocol_infrastructu.Ingest.Event.{Time, Bytes}
use at_protocol_infrastructu.Ingest.Manager.{CursorStore, Counters, Manager}
use at_protocol_infrastructu.Ingest.Manager.Starting.{new_manager, start}
use at_protocol_infrastructu.Metrics
use at_protocol_infrastructu.Metrics.{Registry}
use at_protocol_infrastructu.Verify
use at_protocol_infrastructu.Verify.{Indigo, Pipeline}
use at_protocol_infrastructu.Verify.Directory.{Directory, new_pipeline}
use at_protocol_infrastructu.Storage.Database.{DbError, Postgres}
use at_protocol_infrastructu.Storage.Stores.{HostIds}
use at_protocol_infrastructu.Storage.Opening.{Driver, Failure, new_db, migrate}
use at_protocol_infrastructu.Firehose.Server
use at_protocol_infrastructu.Firehose.Server.{new_server}
use at_protocol_infrastructu.Health.{new, set_ready}
use at_protocol_infrastructu.Relay.{App, cursor_store}
use at_protocol_infrastructu.Relay.Checks.{Floats, Arg, World, register_checks}
use at_protocol_infrastructu.Relay.Shutdown.{Closers, Process}

-- The libraries. `attach` is the service as the statements see it behind an open handle.
pub record Libraries : Type 1 where
  pub postgres : Postgres
  pub indigo : Indigo
  pub closers : Closers
  pub registry : Registry
  pub driver : Driver
  pub attach : driver.Db → postgres.State
  pub parse_duration : String → Result String ℤ
  pub floats : Floats
  pub sprintf : String → List (Arg floats.Float) → String
  pub ping : postgres.State → Result String (Unit {0})

pub record Flags : Type 0 where
  pub show_version : Bool
  pub enable_verify : Bool
  pub enable_db : Bool

-- Why `main` ends before it waits.
pub data Halt : Type 0 where
  version_shown : Halt
  load_failed : ConfigError → Halt
  invalid_lifetime : String → Halt
  connect_failed : Failure → Halt
  migrate_failed : Failure → Halt

-- The patterns of the main server's mux.
pub data Endpoint : Type 0 where
  health_endpoint ready_endpoint live_endpoint stats_endpoint : Endpoint
  subscribe_endpoint request_crawl_endpoint : Endpoint

abbrev pub routes : List (String × Endpoint)
routes =
    ("/xrpc/_health", health_endpoint)
    ∷ ("/health", health_endpoint)
    ∷ ("/ready", ready_endpoint)
    ∷ ("/live", live_endpoint)
    ∷ ("/stats", stats_endpoint)
    ∷ ("/xrpc/com.atproto.sync.subscribeRepos", subscribe_endpoint)
    ∷ ("/xrpc/com.atproto.sync.requestCrawl", request_crawl_endpoint)
    ∷ []

-- Metrics that nothing has touched.
abbrev pub no_counts : Counters
no_counts = record {
  connected = λ h. 0;
  connecting = λ h. 0;
  lag = λ h. none;
  received = λ h t. 0;
  processed = λ h t. 0;
  dropped = λ h r. 0;
  buffer_size = 0;
  buffer_capacity = 0;
}

abbrev pub no_verifications : Verify.Metrics
no_verifications = record {
  did_cache_hits = 0;
  did_cache_misses = 0;
  verification_total = λ r. 0;
  durations_observed = 0;
}

abbrev pub no_clients : Server.Metrics
no_clients = record { firehose_clients = 0; firehose_events_broadcast = 0 }

module _ (lib : Libraries) where
  open lib use {
    postgres, indigo, closers, registry, driver, attach, parse_duration, floats, sprintf, ping,
  }

  -- What the health checks read.
  abbrev pub Checked : Type 0
  Checked = World postgres indigo floats sprintf ping

  -- What `main` meets: the flags, what Viper answers, the collectors that are registered, the time,
  -- and the state of the service and of the servers before it touches them.
  pub record Start : Type 0 where
    pub flags : Flags
    pub read_in : ReadIn
    pub unmarshal : Result String Config
    pub registered : registry.State
    pub version : String
    pub now : Time
    pub service : postgres.State
    pub services : closers.State

  pub record Up : Type 0 where
    pub config : Config
    pub collectors : List (String × registry.Collector)
    pub cursors : Option (CursorStore DbError postgres.State)
    pub directory : Option Directory
    pub workers : ℕ
    pub process : Process postgres indigo closers Checked
    pub address : Bytes
    pub metrics_address : Option Bytes

  migrated : Result Failure (Unit {0}) × driver.Db → Result Halt driver.Db
  migrated (err e, db) = err (migrate_failed e)
  migrated (ok _, db) = ok db

  connected : Result Failure driver.Db → Result Halt driver.Db
  unfolding migrated
  connected (err e) = err (connect_failed e)
  connected (ok db) = migrated (migrate driver db)

  with_lifetime : DatabaseConfig → Result String ℤ → Result Halt driver.Db
  unfolding connected
  with_lifetime cfg (err e) = err (invalid_lifetime e)
  with_lifetime cfg (ok lifetime) =
      connected (new_db driver cfg.postgres_url cfg.max_open_conns cfg.max_idle_conns lifetime)

  -- `--db`
  pub open_database : Bool → DatabaseConfig → Result Halt (Option driver.Db)
  unfolding with_lifetime
  open_database false cfg = ok none
  open_database true cfg = elim (with_lifetime cfg (parse_duration cfg.conn_max_lifetime)) [
    | err e ↦ err e
    | ok db ↦ ok (some db)
  ]

  -- The stores are there exactly if the database is.
  pub cursors_of : Option driver.Db → Option (CursorStore DbError postgres.State)
  cursors_of none = none
  cursors_of (some db) = some (cursor_store postgres)

  pub store_of : Option driver.Db → Option HostIds
  store_of none = none
  store_of (some db) = some []

  pub service_of : postgres.State → Option driver.Db → postgres.State
  service_of service none = service
  service_of service (some db) = attach db

  -- `--verify`
  verify_if : Bool → Config → Option (Directory × Pipeline)
  verify_if enabled cfg =
      if enabled then some (new_pipeline cfg.identity (some no_verifications)) else none

  -- The addresses of the main server and, if it is enabled, of the metrics server.
  addresses : Config → Bytes × Option Bytes
  addresses cfg = (
    address cfg.server,
    if cfg.metrics.enabled then some (b':' ∷ format_int cfg.metrics.port) else none,
  )

  -- The relay around a manager that was made.
  pub built : Start → Config → List (String × registry.Collector) → Option driver.Db → Manager → Up
  unfolding cursors_of store_of service_of verify_if addresses
  built s cfg collectors db m =
      let state = service_of s.service db in
      let verification = verify_if s.flags.enable_verify cfg in
      let (workers, manager) = start (cursors_of db) state cfg.ingest m in
      let checks =
        register_checks postgres indigo floats sprintf ping s.flags.enable_db s.flags.enable_verify
          (new s.version s.now) in
      record {
        config = cfg;
        collectors = collectors;
        cursors = cursors_of db;
        directory = Option.map (λ v. v.0) verification;
        workers = workers;
        process = record {
          health = set_ready checks true;
          pool = record {
            manager = manager;
            app = record {
              event_count = 0;
              pipeline = Option.map (λ v. v.1) verification;
              event_store = store_of db;
              db = state;
              current_sequence = pos 0;
              firehose = new_server (some no_clients);
            };
            busy = [];
          };
          services = s.services;
          has_metrics_server = cfg.metrics.enabled;
          has_db = s.flags.enable_db;
        };
        address = (addresses cfg).0;
        metrics_address = (addresses cfg).1;
      }

  -- From the firehose server on, where only `NewManager` can fail, by a panic.
  assemble : Start → Config → List (String × registry.Collector) → Option driver.Db → Outcome Up
  unfolding built
  assemble s cfg collectors db = do
    m ← new_manager cfg.ingest (some no_counts)
    running (built s cfg collectors db m)

  with_database :
      Start
      → Config
      → List (String × registry.Collector)
      → Result Halt (Option driver.Db)
      → Outcome (Result Halt Up)
  unfolding assemble
  with_database s cfg collectors (err h) = running (err h)
  with_database s cfg collectors (ok db) = do up ← assemble s cfg collectors db; running (ok up)

  with_config : Start → Result ConfigError Config → Outcome (Result Halt Up)
  unfolding with_database open_database
  with_config s (err e) = running (err (load_failed e))
  with_config s (ok cfg) = do
    (collectors, registered) ← Metrics.new registry s.registered
    with_database s cfg collectors (open_database s.flags.enable_db cfg.database)

  -- The workers, the clients, `updateMetrics` and the servers are goroutines that run from their start
  -- on: what is made here is the state that they are given, before any of them has taken a step.
  unfoldable pub boot : Start → Outcome (Result Halt Up)
  unfolding with_config
  boot s =
      let loaded = with_config s (load s.read_in s.unmarshal) in
      if s.flags.show_version then running (err version_shown) else loaded

-- ===== src/Relay/Boot/ComingUp.antt =====
-- What holds of a relay that has come up.
use at_protocol_infrastructu.Prelude.{
  ℕ, ◌<◌, ◌≡◌, refl, ◌∙◌, sym, subst, inl, inr, false, Option, some, List, [], String, All, arith,
  string_eq, Bool-cases, All-map, ap,
}
use at_protocol_infrastructu.Prelude.Assoc.{Unique}
use at_protocol_infrastructu.Prelude.Result.{Result, ok, err}
use at_protocol_infrastructu.Prelude.Int.{pos}
use at_protocol_infrastructu.Channel.{Outcome, running, >>=-eq-running, make}
use at_protocol_infrastructu.Config.{Config, ConfigError, load}
use at_protocol_infrastructu.Config.Bounds.{IsValid, load-IsValid}
use at_protocol_infrastructu.Ingest.Manager.{Manager, get_host_status}
use at_protocol_infrastructu.Ingest.Manager.Starting.{new_manager, worker_number, start, start_lem}
use at_protocol_infrastructu.Metrics
use at_protocol_infrastructu.Health.{ready_handler, set_ready, is_ready}
use at_protocol_infrastructu.Firehose.Server.{new_server}
use at_protocol_infrastructu.Relay.Boot.{
  Libraries, Start, Up, Halt, open_database, cursors_of, service_of, built, assemble, with_database,
  with_config, boot, no_counts,
}
use at_protocol_infrastructu.Relay.Boot.Parts.{
  add_hosts-chan, made, positive_workers, Connected, Stores, saved, starting_cursor-saved,
  built-Stores, open_database-Connected,
}

module _ (lib : Libraries) where
  open lib use {postgres, driver, attach, parse_duration}

  -- A relay that came up, as the goroutines that it has started find it: none of the workers, the
  -- clients of the hosts and the goroutines of the servers has taken a step.
  pub record IsUp (s : Start lib) (u : Up lib) : Type 0 where
    pub no_version : s.flags.show_version ≡ false
    pub loaded : s.unmarshal ≡ ok u.config
    pub valid : IsValid u.config
    pub handle : Option driver.Db
    pub database : Connected lib s.flags.enable_db u.config handle
    pub stores : Stores lib s u handle
    pub workers : (0 < u.workers) × (u.workers ≡ worker_number u.config.ingest.worker_count)
    pub hosts :
        All
          (λ h. get_host_status u.process.pool.manager h ≡ (false, saved lib handle h, 0, 0))
          u.config.ingest.initial_hosts
    pub one_client : Unique u.process.pool.manager.clients
    pub all_wait : u.process.pool.busy ≡ []
    pub empty_channel :
        (size : ℕ) × (u.config.ingest.buffer_size ≡ pos size)
        × (u.process.pool.manager.event_chan ≡ make size)
    pub hub_open : u.process.pool.app.firehose.broadcast.closed ≡ false
    pub ready : (ready_handler u.process.health).code ≡ 200

  built-IsUp :
      (s : Start lib) (cfg : Config) (collectors : _) (db : Option driver.Db) (m : Manager)
      → s.flags.show_version ≡ false
      → s.unmarshal ≡ ok cfg
      → IsValid cfg
      → Connected lib s.flags.enable_db cfg db
      → new_manager cfg.ingest (some no_counts) ≡ running m
      → IsUp s (built lib s cfg collectors db m)
  unfolding built start set_ready ready_handler is_ready new_server
  built-IsUp s cfg collectors db m v u valid c made_so =
      let (size, sized, opens) = made cfg.ingest (some no_counts) m made_so in
      let store = cursors_of lib db in
      let state = service_of lib s.service db in
      let (m', ran, count, hosts, unique) =
        start_lem store state cfg.ingest (some no_counts) size sized in
      let same : m' ≡ m = equal (sym ran ∙ made_so) in
      record {
        no_version = v;
        loaded = u;
        valid = valid;
        handle = db;
        database = c;
        stores = built-Stores lib s cfg collectors db m;
        workers = (positive_workers cfg.ingest.worker_count valid.has_workers, refl);
        hosts =
            subst
              (λ x.
                All
                  (λ h.
                    get_host_status (start store state cfg.ingest x).1 h
                    ≡ (false, saved lib db h, 0, 0))
                  cfg.ingest.initial_hosts)
              same
              (All-map cfg.ingest.initial_hosts
                (λ h status. status ∙ ap (λ z. (false, z, 0, 0)) (starting_cursor-saved lib s db h))
                hosts);
        one_client = subst (λ x. Unique (start store state cfg.ingest x).1.clients) same unique;
        all_wait = refl;
        empty_channel =
            (size, sized, add_hosts-chan store state m cfg.ingest.initial_hosts ∙ opens);
        hub_open = refl;
        ready = refl;
      }
    where
      equal : {x y : Manager} → running x ≡ running y → x ≡ y
      equal w = ground arith

  assembled-IsUp :
      (s : Start lib) (cfg : Config) (collectors : List (String × lib.registry.Collector))
      (r : Result Halt (Option driver.Db)) (u : Up lib)
      → s.flags.show_version ≡ false
      → load s.read_in s.unmarshal ≡ ok cfg
      → open_database lib s.flags.enable_db cfg.database ≡ r
      → with_database lib s cfg collectors r ≡ running (ok u)
      → IsUp s u
  unfolding with_database assemble
  assembled-IsUp s cfg collectors (err h) u v ld o e = absurd (cc)
  assembled-IsUp s cfg collectors (ok db) u v ld o e =
      let (u', ran, same) =
        >>=-eq-running (assemble lib s cfg collectors db) (λ x. running (ok x)) e in
      let (m, made_so, is) =
        >>=-eq-running (new_manager cfg.ingest (some no_counts))
          (λ m. running (built lib s cfg collectors db m)) ran in
      let (valid, unmarshaled, _) = load-IsValid s.read_in s.unmarshal cfg ld in
      subst (IsUp s) (from_built is ∙ from_ok same) (
        built-IsUp s cfg collectors db m v unmarshaled valid
          (open_database-Connected lib s.flags.enable_db cfg db o) made_so)
    where
      from_ok :
          {x y : Up lib}
          → ◌≡◌ {A = Outcome (Result Halt (Up lib))} (running (ok x)) (running (ok y))
          → x ≡ y
      from_ok w = ground arith

      from_built : {x y : Up lib} → running x ≡ running y → x ≡ y
      from_built w = ground arith

  configured-IsUp :
      (s : Start lib) (r : Result ConfigError Config) (u : Up lib)
      → s.flags.show_version ≡ false
      → load s.read_in s.unmarshal ≡ r
      → with_config lib s r ≡ running (ok u)
      → IsUp s u
  unfolding with_config
  configured-IsUp s (err x) u v ld e = absurd (cc)
  configured-IsUp s (ok cfg) u v ld e =
      let ((collectors, registered), _, rest) =
        >>=-eq-running (Metrics.new lib.registry s.registered)
          (λ c. with_database lib s cfg c.0 (open_database lib s.flags.enable_db cfg.database)) e in
      assembled-IsUp s cfg collectors (open_database lib s.flags.enable_db cfg.database) u v ld refl
        rest

  -- Of a relay that has come up, as the goroutines that it has started find it before any of them
  -- has taken a step: it was not asked for its version and has a valid configuration, the one that
  -- was loaded. The database is there exactly if it was asked for, opened and migrated without an
  -- error; then the cursor store and the event store are there, over its tables, the event store
  -- without a cached host id; otherwise neither is there. There is at least one worker, as many as
  -- configured, and no host has two clients; each initial host has a client that is not connected,
  -- has no events, and stands at the cursor in the row of the host, or at 0 if there is no
  -- database, no row, no cursor in it, or an error of the query. All workers wait, the channel of
  -- events is open, empty and of the configured size, the channel to the subscribers is open, and
  -- the readiness endpoint answers 200.
  pub boot-IsUp : (s : Start lib) (u : Up lib) → boot lib s ≡ running (ok u) → IsUp s u
  unfolding boot
  boot-IsUp s u e = elim (Bool-cases s.flags.show_version) [
    | inl shown ↦ absurd (cc)
    | inr v ↦ configured-IsUp s (load s.read_in s.unmarshal) u v refl (rw v at e)
  ]

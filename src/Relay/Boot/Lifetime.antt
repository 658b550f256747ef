-- ===== src/Relay/Boot/Lifetime.antt =====
-- A relay that can come up does, and one that is up can be shut down.
use at_protocol_infrastructu.Prelude.{
  ℕ, map, List, ◌≡◌, refl, ap, sym, subst, false, true, Bool, Option, none, some, String, All,
  length, string_eq, nat_eq,
}
use at_protocol_infrastructu.Prelude.Assoc.{lookup, contains}
use at_protocol_infrastructu.Prelude.Result.{Result, ok, err}
use at_protocol_infrastructu.Prelude.Int.{ℤ, pos}
use at_protocol_infrastructu.Channel.{running}
use at_protocol_infrastructu.Config.{Config, load}
use at_protocol_infrastructu.Ingest.Event.{Time, Bytes}
use at_protocol_infrastructu.Ingest.Manager.Starting.{start_lem}
use at_protocol_infrastructu.Metrics.{fields}
use at_protocol_infrastructu.Metrics.Names.{RegistryLaws, new_once}
use at_protocol_infrastructu.Storage.Database.{Laws}
use at_protocol_infrastructu.Storage.Opening.{Failure, migrations, new_db, migrate}
use at_protocol_infrastructu.Storage.Opening.Laws.{DriverLaws}
use at_protocol_infrastructu.Storage.Opening.Migrating.{IsReady, migrate-Given}
use at_protocol_infrastructu.Relay.Publishing.{Coherent}
use at_protocol_infrastructu.Relay.Workers.Draining.{rounds}
use at_protocol_infrastructu.Relay.Shutdown.{Process, Step, worker, run_steps, shut_down}
use at_protocol_infrastructu.Relay.Workers.{Pool}
use at_protocol_infrastructu.Relay.Shutdown.Handling.{IsCalmHandling}
use at_protocol_infrastructu.Relay.Shutdown.Stopped.{Stopped, shut_down-Stopped}
use at_protocol_infrastructu.Relay.Boot.{
  Libraries, Checked, Start, Up, migrated, connected, with_lifetime, open_database, cursors_of,
  service_of, built, assemble, with_database, with_config, boot, no_counts,
}
use at_protocol_infrastructu.Relay.Boot.Parts.{Stores}
use at_protocol_infrastructu.Relay.Boot.ComingUp.{IsUp, boot-IsUp}

module _ (lib : Libraries) where
  open lib use {driver, parse_duration, registry, postgres, indigo, closers}

  -- If the database is asked for, its settings can be read, it answers, and each relation of the
  -- migrations is missing in it or there as they make it.
  abbrev pub CanConnect : DriverLaws driver → Bool → Config → Type 0
  CanConnect dl false cfg = Unit
  CanConnect dl true cfg =
      (lifetime : ℤ) × (opened : driver.Db) × (parse_duration cfg.database.conn_max_lifetime
        ≡ ok lifetime)
      × (new_db driver cfg.database.postgres_url cfg.database.max_open_conns
            cfg.database.max_idle_conns lifetime
          ≡ ok opened)
      × All (IsReady driver dl opened) migrations

  migrated_ok : (x : Result Failure (Unit {0}) × driver.Db) → x.0 ≡ ok tt → migrated lib x ≡ ok x.1
  unfolding migrated
  migrated_ok (ok _, db) e = refl
  migrated_ok (err x, db) e = absurd (cc)

  open_database-opens :
      (dl : DriverLaws driver) (enabled : Bool) (cfg : Config)
      → CanConnect dl enabled cfg
      → (db : Option driver.Db) × (open_database lib enabled cfg.database ≡ ok db)
  unfolding open_database with_lifetime connected
  open_database-opens dl false cfg c = (none, refl)
  open_database-opens dl true cfg (lifetime, opened, parsed, made, ready) =
      let migrations_ok =
        migrated_ok (migrate driver opened) (migrate-Given driver dl opened ready).0 in
      (some (migrate driver opened).1, rw (open_database, parsed) (rw made (rw migrations_ok refl)))

  -- If the version is not asked for, a configuration is loaded whose buffer size is not negative,
  -- the registry of collectors accepts each description and has none of the names, and, if the
  -- database is asked for, it has settings that can be read, opens and answers the ping, keeps the
  -- laws of the statements, and has each relation of the migrations either missing with its name
  -- free or there with all that its statement gives it: then the relay comes up with that
  -- configuration, and all of what boot-IsUp states holds of it.
  pub boot_comes_up :
      (rl : RegistryLaws registry) (dl : DriverLaws driver)
      → (s : Start lib) (cfg : Config) (size : ℕ) → s.flags.show_version ≡ false
      → load s.read_in s.unmarshal ≡ ok cfg
      → cfg.ingest.buffer_size ≡ pos size
      → CanConnect dl s.flags.enable_db cfg
      → All (λ f. rl.IsValid f.1) fields
      → All (λ f. contains (rl.names s.registered) f.1.name ≡ false) fields
      → (u : Up lib) × (boot lib s ≡ running (ok u)) × (u.config ≡ cfg) × IsUp lib s u
  unfolding boot with_config with_database assemble built
  boot_comes_up rl dl s cfg size v ld sized can valid absent =
      let (collectors, registered, counted, _, _) =
        new_once registry rl s.registered valid absent in
      let (db, opened) = open_database-opens dl s.flags.enable_db cfg can in
      let (m, made, _, _, _) =
        start_lem (cursors_of lib db) (service_of lib s.service db) cfg.ingest (some no_counts) size
          sized in
      let u : Up lib = built lib s cfg collectors db m in
      let ran : boot lib s ≡ running (ok u) =
        rw v (rw ld (rw counted (rw opened (rw made refl)))) in
      (u, ran, refl, boot-IsUp lib s u ran)

  new-Coherent :
      (l : Laws postgres) (s : Start lib) (u : Up lib) (db : Option driver.Db)
      → Stores lib s u db
      → Coherent postgres indigo l u.process.pool.app.event_store u.process.pool.app.db
  unfolding lookup
  new-Coherent l s u none (_, e, _) =
      subst (λ o. Coherent postgres indigo l o u.process.pool.app.db) (sym e) tt
  new-Coherent l s u (some db) (_, e, _) =
      subst (λ o. Coherent postgres indigo l o u.process.pool.app.db) (sym e) (λ h i q. absurd (cc))

  -- A relay that has come up, and is told to stop while no worker has taken a step, comes to its
  -- end, with what its clients have queued until then put away.
  boot-shut_down :
      (l : Laws postgres) (extract : Bytes → String → String → String) (s : Start lib) (u : Up lib)
      (before : List Step) (k : ℕ) (duration : Time) (now : String)
      → boot lib s ≡ running (ok u)
      → All (IsCalmHandling postgres indigo extract) before
      → (held : Pool postgres indigo) × (run_steps postgres indigo extract u.process.pool before
          ≡ running held)
        × ((v : Process postgres indigo closers (Checked lib)) × (shut_down postgres indigo closers
                (Checked lib)
                extract
                u.process
                before
                (map worker (rounds k duration now (length held.manager.event_chan.buffer)))
              ≡ running v)
            × Stopped postgres indigo l closers (Checked lib) extract u.process v held now)
  boot-shut_down l extract s u before k duration now ran calm =
      let g = boot-IsUp lib s u ran in
      let (size, _, empty) = g.empty_channel in
      shut_down-Stopped postgres indigo l closers (Checked lib) extract u.process before k duration
        now g.all_wait (ap (λ ch. ch.closed) empty) g.hub_open
        (new-Coherent l s u g.handle g.stores) calm

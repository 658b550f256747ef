-- ===== src/Relay/Shutdown/Stopped.antt =====
-- The relay comes to its end.
use at_protocol_infrastructu.Prelude.{
  ℕ, subst, ◌≡◌, ◌∙◌, ap, map, Bool, if◌then◌else◌, string_eq, refl, sym, false, true, List, [],
  All, length, String, nat_eq,
}
use at_protocol_infrastructu.Prelude.Result.{Result}
use at_protocol_infrastructu.Channel.{running}
use at_protocol_infrastructu.Ingest.Event.{Time, Bytes}
use at_protocol_infrastructu.Verify.{Indigo}
use at_protocol_infrastructu.Storage.Database.{Postgres, Laws}
use at_protocol_infrastructu.Firehose.Server
use at_protocol_infrastructu.Firehose.Server.{Client, Server, close_conn, close_conns}
use at_protocol_infrastructu.Health.{ready_handler, set_ready, is_ready}
use at_protocol_infrastructu.Relay.Publishing.{Coherent}
use at_protocol_infrastructu.Relay.Workers.{Pool}
use at_protocol_infrastructu.Relay.Workers.InTurn.{InTurn}
use at_protocol_infrastructu.Relay.Workers.Draining.{rounds, rounds-drain}
use at_protocol_infrastructu.Relay.Shutdown.{
  Closers, Process, shut_down, stop_manager, close_services, Step, worker, run_steps,
}
use at_protocol_infrastructu.Relay.Shutdown.Handling.{
  IsShut, close_conns_shuts, close_conns_clients, stop_open, IsCalmHandling, run_steps-Handled,
  run_steps-worker,
}

-- A call that is made if the flag is set, whatever its error.
abbrev pub Called : {S : Type 0} → Bool → (S → Result String (Unit {0}) × S) → S → S → Type 0
Called {S} false call s t = t ≡ s
Called {S} true call s t = (answer : Result String (Unit {0})) × (call s ≡ (answer, t))

module _ (p : Postgres) (i : Indigo) (l : Laws p) (c : Closers) (W : Type 0)
    (extract : Bytes → String → String → String) where
  -- The pool once the channel is closed.
  abbrev pub closing : Pool p i → Pool p i
  closing q = record q {
    manager = record q.manager { event_chan = record q.manager.event_chan { closed = true } };
  }

  -- The main server is shut down, then the metrics server and then the database handle, if they
  -- are there.
  pub record Closed (r : Process p i c W) (final : c.State) : Type 0 where
    pub after_server : c.State
    pub after_metrics : c.State
    pub server : Called true c.shutdown_server r.services after_server
    pub metrics : Called r.has_metrics_server c.shutdown_metrics after_server after_metrics
    pub db : Called r.has_db c.close_db after_metrics final

  close_services-Closed : (r : Process p i c W) → Closed r (close_services p i c W r)
  unfolding close_services
  close_services-Closed r = record {
    after_server = s;
    after_metrics = t;
    server = (_, refl);
    metrics = called r.has_metrics_server c.shutdown_metrics s;
    db = called r.has_db c.close_db t;
  }
    where
      called :
          (b : Bool) (call : c.State → Result String (Unit {0}) × c.State) (x : c.State)
          → Called b call x (if b then (call x).1 else x)
      called true call x = ((call x).0, refl)
      called false call x = refl

      s : c.State
      s = (c.shutdown_server r.services).1

      t : c.State
      t = if r.has_metrics_server then (c.shutdown_metrics s).1 else s

  -- How a process `u` stands that was `r`, whose pool was `held` when the channel was closed, with
  -- what its workers came to.
  pub record Stopped (r u : Process p i c W) (held : Pool p i) (now : String) : Type 0 where
    pub not_ready : (ready_handler u.health).code ≡ 503
    pub channel_closed : u.pool.manager.event_chan.closed ≡ true
    pub nothing_queued : u.pool.manager.event_chan.buffer ≡ []
    pub drained : Pool p i
    pub turns : InTurn p i l (closing held) drained now
    pub same_db : u.pool.app.db ≡ drained.app.db
    pub all_wait : u.pool.busy ≡ []
    pub hub_ended : u.pool.app.firehose.stopped ≡ true
    pub subscribers_shut : All (IsShut u.pool.app.firehose) u.pool.app.firehose.clients
    pub services : Closed r u.services

  pub shut_down-Stopped :
      (r : Process p i c W) (before : List Step) (k : ℕ) (duration : Time) (now : String)
      → r.pool.busy ≡ []
      → r.pool.manager.event_chan.closed ≡ false
      → r.pool.app.firehose.broadcast.closed ≡ false
      → Coherent p i l r.pool.app.event_store r.pool.app.db
      → All (IsCalmHandling p i extract) before
      → (held : Pool p i) × (run_steps p i extract r.pool before ≡ running held)
        × ((u : Process p i c W) × (shut_down p i c W extract r before
                (map worker (rounds k duration now (length held.manager.event_chan.buffer)))
              ≡ running u)
            × Stopped r u held now)
  unfolding shut_down stop_manager set_ready ready_handler is_ready Server.stop
  shut_down-Stopped r before k duration now idle open_chan o coherent calm =
      let (held, went, h) = run_steps-Handled p i extract before r.pool calm open_chan in
      let (t, ran, empty, turns) =
        rounds-drain p i l (closing held) k duration now (h.same_busy ∙ idle)
          (ap (λ a. a.firehose.broadcast.closed) h.same_app ∙ o)
          (subst (λ a. Coherent p i l a.event_store a.db) (sym h.same_app) coherent) in
      let drains =
        run_steps-worker p i extract (closing held)
          (rounds k duration now (length held.manager.event_chan.buffer))
        ∙ ran in
      let (clients, stopped) =
        close_conns_clients t.app.firehose.clients (record t.app.firehose { stopped = true }) in
      (
        held,
        went,
        (
          record r {
            health = set_ready r.health false;
            pool = record t { app = record t.app { firehose = Server.stop t.app.firehose } };
            services = close_services p i c W r;
          },
          rw (went, stop_open held.manager h.still_open) (rw drains refl),
          record {
            not_ready = refl;
            channel_closed = turns.same_closed;
            nothing_queued = empty;
            drained = t;
            turns = turns;
            same_db = refl;
            all_wait = turns.idle;
            hub_ended = stopped;
            subscribers_shut =
                subst (λ cs. All (IsShut (Server.stop t.app.firehose)) cs) (sym clients)
                  (close_conns_shuts t.app.firehose.clients
                    (record t.app.firehose { stopped = true }));
            services = close_services-Closed r;
          },
        ),
      )

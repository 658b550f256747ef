-- ===== src/Relay/Shutdown.antt =====
-- The end of `main` in relay/cmd/relay/main.go: what it does once a signal has come. The HTTP
-- servers and the database handle are closed by their libraries, whose answers are an argument.
-- The goroutines of the workers and of the PDS clients go on meanwhile: their steps are arguments.
pub mod Handling
pub mod Stopped
mod Examples
use at_protocol_infrastructu.Prelude.{
  Bool, false, Option, some, none, List, [], ◌∷◌, String, string_eq, if◌then◌else◌,
}
use at_protocol_infrastructu.Prelude.Assoc.{lookup, insert}
use at_protocol_infrastructu.Prelude.Result.{Result}
use at_protocol_infrastructu.Channel.{Outcome, running, ◌>>=◌}
use at_protocol_infrastructu.Ingest.Event.{Time, Bytes}
use at_protocol_infrastructu.Ingest.Stream.{Select, StreamEvent, handle_repo_stream_event}
use at_protocol_infrastructu.Ingest.Manager
use at_protocol_infrastructu.Verify.{Indigo}
use at_protocol_infrastructu.Storage.Database.{Postgres}
use at_protocol_infrastructu.Firehose.Server
use at_protocol_infrastructu.Health.{Handler, set_ready}
use at_protocol_infrastructu.Relay.Workers.{Action, Pool, step}

-- `Server.Shutdown` of the main server and of the metrics server, and `DB.Close`.
pub record Closers : Type 1 where
  pub State : Type 0
  pub shutdown_server : State → Result String (Unit {0}) × State
  pub shutdown_metrics : State → Result String (Unit {0}) × State
  pub close_db : State → Result String (Unit {0}) × State

-- A step of a worker, or a client of the manager that is still in its handler with a frame.
pub data Step : Type 0 where
  worker : Action → Step
  handling : String → Time → Select → StreamEvent → Step

module _ (p : Postgres) (i : Indigo) (extract : Bytes → String → String → String) where
  -- The handler of the client of a host changes the client and the channel of events.
  unfoldable pub run_step : Pool p i → Step → Outcome (Pool p i)
  run_step q (worker a) = step p i q a
  run_step q (handling host at choice evt) = elim (lookup host q.manager.clients) [
    | none ↦ running q
    | some c ↦ do
      (c', ch, r) ← handle_repo_stream_event extract c q.manager.event_chan at choice evt
      running (record q {
        manager = record q.manager { clients = insert host c' q.manager.clients; event_chan = ch };
      })
  ]

  unfoldable pub run_steps : Pool p i → List Step → Outcome (Pool p i)
  unfolding run_step
  run_steps q [] = running q
  run_steps q (s ∷ rest) = do t ← run_step q s; run_steps t rest

  -- `Stop` of the manager: the steps between the cancel and the close of the channel, the close,
  -- and those from then on, until the workers that it waits for have ended.
  unfoldable pub stop_manager : Pool p i → List Step → List Step → Outcome (Pool p i)
  unfolding run_steps
  stop_manager q before after = do
    t ← run_steps q before
    m ← Manager.stop t.manager
    run_steps (record t { manager = m }) after

module _ (p : Postgres) (i : Indigo) (c : Closers) (W : Type 0) where
  pub record Process : Type 0 where
    pub health : Handler W
    pub pool : Pool p i
    pub services : c.State
    pub has_metrics_server : Bool
    pub has_db : Bool

  -- Errors are logged; the next call is made all the same.
  unfoldable pub close_services : Process → c.State
  close_services r =
      let s = (c.shutdown_server r.services).1 in
      let s' = if r.has_metrics_server then (c.shutdown_metrics s).1 else s in
      if r.has_db then (c.close_db s').1 else s'

  unfoldable pub shut_down :
      (Bytes → String → String → String) → Process → List Step → List Step → Outcome Process
  unfolding stop_manager close_services
  shut_down extract r before after = do
    q ← stop_manager p i extract r.pool before after
    running (record r {
      health = set_ready r.health false;
      pool = record q { app = record q.app { firehose = Server.stop q.app.firehose } };
      services = close_services r;
    })

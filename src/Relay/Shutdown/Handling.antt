-- ===== src/Relay/Shutdown/Handling.antt =====
-- What the end of the relay is made of: the connections of the subscribers are closed, and clients
-- that are still in their handlers come to their end.
use at_protocol_infrastructu.Prelude.{
  ℕ, ◌≡◌, ◌∙◌, map, Option-cases, inl, inr, string_eq, refl, false, true, List, [], ◌∷◌, All, arith,
  String, nat_eq,
}
use at_protocol_infrastructu.Prelude.Assoc.{lookup, insert}
use at_protocol_infrastructu.Channel.{running, panicked, close, ◌>>=◌}
use at_protocol_infrastructu.Ingest.Stream.Handling.{IsBareInfo}
use at_protocol_infrastructu.Ingest.Stream.Calm.{handle_repo_stream_event-Kept}
use at_protocol_infrastructu.Ingest.Event.{Bytes}
use at_protocol_infrastructu.Ingest.Manager
use at_protocol_infrastructu.Ingest.Manager.{Manager}
use at_protocol_infrastructu.Verify.{Indigo}
use at_protocol_infrastructu.Storage.Database.{Postgres}
use at_protocol_infrastructu.Firehose.Server.{Client, Server, close_conn, close_conns}
use at_protocol_infrastructu.Relay.Workers.{Action, Pool, step, run_all}
use at_protocol_infrastructu.Relay.Shutdown.{Step, worker, handling, run_step, run_steps}

abbrev pub IsShut : Server → ℕ × Client → Type 0
IsShut s e = (s.conns e.0).is_open ≡ false

close_conn-IsShut : (s : Server) (k : ℕ) (e : ℕ × Client) → IsShut s e → IsShut (close_conn s k) e
unfolding close_conn
close_conn-IsShut s k e h = ground arith

close_conns-keeps :
    (cs : List (ℕ × Client)) (s : Server) (e : ℕ × Client)
    → IsShut s e
    → IsShut (close_conns cs s) e
unfolding close_conns
close_conns-keeps [] s e h = h
close_conns-keeps ((k, c) ∷ rest) s e h =
    close_conns-keeps rest (close_conn s k) e (close_conn-IsShut s k e h)

close_conn_shuts : (s : Server) (k : ℕ) (c : Client) → IsShut (close_conn s k) (k, c)
unfolding close_conn
close_conn_shuts s k c = ground arith

pub close_conns_shuts : (cs : List (ℕ × Client)) (s : Server) → All (IsShut (close_conns cs s)) cs
unfolding close_conns
close_conns_shuts [] s = tt
close_conns_shuts ((k, c) ∷ rest) s = (
  close_conns-keeps rest (close_conn s k) (k, c) (close_conn_shuts s k c),
  close_conns_shuts rest (close_conn s k),
)

pub close_conns_clients :
    (cs : List (ℕ × Client)) (s : Server)
    → ((close_conns cs s).clients ≡ s.clients) × ((close_conns cs s).stopped ≡ s.stopped)
unfolding close_conns close_conn
close_conns_clients [] s = (refl, refl)
close_conns_clients ((k, c) ∷ rest) s = close_conns_clients rest (close_conn s k)

pub stop_open :
    (m : Manager)
    → m.event_chan.closed ≡ false
    → Manager.stop m ≡ running (record m { event_chan = record m.event_chan { closed = true } })
unfolding Manager.stop close
stop_open m o = rw o refl

module _ (p : Postgres) (i : Indigo) (extract : Bytes → String → String → String) where
  -- A client in its handler, with a frame that is no info frame without a message.
  abbrev pub IsCalmHandling : Step → Type 0
  IsCalmHandling (worker a) = ⊥
  IsCalmHandling (handling host at choice evt) = ¬ IsBareInfo evt

  -- The handlers leave the workers and the relay alone, and the channel open.
  pub record Handled (q t : Pool p i) : Type 0 where
    pub still_open : t.manager.event_chan.closed ≡ false
    pub same_busy : t.busy ≡ q.busy
    pub same_app : t.app ≡ q.app

  step-Handled :
      (q : Pool p i) (s : Step)
      → IsCalmHandling s
      → q.manager.event_chan.closed ≡ false
      → (t : Pool p i) × (run_step p i extract q s ≡ running t) × Handled q t
  unfolding run_step
  step-Handled q (worker a) calm o = absurd calm
  step-Handled q (handling host at choice evt) calm o =
      elim (Option-cases (lookup host q.manager.clients)) [
        | inl none_there ↦ (
          q,
          rw (run_step, none_there) refl,
          record { still_open = o; same_busy = refl; same_app = refl },
        )
        | inr (c, there) ↦
            let (x, ran, kept) =
              handle_repo_stream_event-Kept extract c q.manager.event_chan at choice evt calm o in
            (
              record q {
                manager = record q.manager {
                  clients = insert host x.0 q.manager.clients;
                  event_chan = x.1;
                };
              },
              rw (run_step, there, ran) refl,
              record { still_open = kept.1; same_busy = refl; same_app = refl },
            )
      ]

  pub run_steps-Handled :
      (steps : List Step) (q : Pool p i)
      → All IsCalmHandling steps
      → q.manager.event_chan.closed ≡ false
      → (t : Pool p i) × (run_steps p i extract q steps ≡ running t) × Handled q t
  unfolding run_steps
  run_steps-Handled [] q calm o =
      (q, refl, record { still_open = o; same_busy = refl; same_app = refl })
  run_steps-Handled (s ∷ rest) q calm o =
      let (t, ran, h) = step-Handled q s calm.0 o in
      let (u, more, g) = run_steps-Handled rest t calm.1 h.still_open in
      (
        u,
        rw ran more,
        record {
          still_open = g.still_open;
          same_busy = g.same_busy ∙ h.same_busy;
          same_app = g.same_app ∙ h.same_app;
        },
      )

  pub run_steps-worker :
      (q : Pool p i) (actions : List Action)
      → run_steps p i extract q (map worker actions) ≡ run_all p i q actions
  unfolding run_steps run_step run_all
  run_steps-worker q [] = refl
  run_steps-worker q (a ∷ rest) =
      elim (step p i q a)
        as (λ o.
          (o >>= λ t. run_steps p i extract t (map worker rest))
          ≡ (o >>= λ t. run_all p i t rest)) [
            | running t ↦ run_steps-worker t rest
            | panicked ↦ refl
          ]

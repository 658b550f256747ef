-- ===== src/Relay/Workers/Cancelled.antt =====
-- The workers while the relay shuts down: their calls have the manager's context, which `Stop`
-- cancels before it closes the channel, and they go on until the channel is empty.
use at_protocol_infrastructu.Prelude.{
  ℕ, ◌≡◌, refl, ap, none, some, List, [], ◌∷◌, nat_eq, arith, String, inl, inr, ◌∙◌, Option,
  Bool-cases,
}
use at_protocol_infrastructu.Prelude.Assoc.{lookup, insert}
use at_protocol_infrastructu.Prelude.Int.{ℤ}
use at_protocol_infrastructu.Channel.{
  Outcome, running, panicked, ◌>>=◌, Received, value, ended, blocked, receive,
}
use at_protocol_infrastructu.Ingest.Event.{Event, Time}
use at_protocol_infrastructu.Ingest.Manager.{after_handler, save_checkpoint, is_checkpoint}
use at_protocol_infrastructu.Verify.{Indigo}
use at_protocol_infrastructu.Storage.Database.{Postgres}
use at_protocol_infrastructu.Storage.Stores.{HostIds}
use at_protocol_infrastructu.Storage.Cancelled.{
  IsCancelled, store_event-cancelled, save_cursor-cancelled,
}
use at_protocol_infrastructu.Firehose.Message.{marshal}
use at_protocol_infrastructu.Firehose.Server.{Server, offer}
use at_protocol_infrastructu.Relay.{App, stored, publish, published, row_for, store, recorded}
use at_protocol_infrastructu.Relay.Workers.{
  Phase, in_hand, holding, handed_on, Action, take_event, store_taken, publish_event, settle, Pool,
  started, taken, put_away, handed, settled, cursors, app_cursors, step, run_all,
}

module _ (p : Postgres) (i : Indigo) (d : IsCancelled p) where
  store_db : (a : App p i) (event : Event) (o : Option HostIds) → (store p i a event o).1.db ≡ a.db
  unfolding store recorded
  store_db a event none = refl
  store_db a event (some ids) =
      let (e, failed) = store_event-cancelled p d event.host (row_for event) ids a.db in
      ap (λ r. (recorded p i a r).1.db) failed

  stored_db :
      (a : App p i) (event : Event) (duration : Time) → (stored p i a event duration).1.db ≡ a.db
  unfolding stored
  stored_db a event duration = store_db _ event a.event_store

  publish_db :
      (a b : App p i) (event : Event) (seq : ℤ) (now : String)
      → publish p i a event seq now ≡ running b
      → b.db ≡ a.db
  unfolding publish
  publish_db a b event seq now e = sent (offer a.firehose (marshal (published event seq now))) e
    where
      sent :
          (r : Outcome Server)
          → (r >>= λ f. running (record a { firehose = f })) ≡ running b
          → b.db ≡ a.db
      sent (running f) q = ground arith
      sent panicked q = absurd (cc)

  settled_db :
      (q : Pool p i) (k : ℕ) (event : Event)
      → (settled p i q k (some (handed_on event))).app.db ≡ q.app.db
  unfolding settled after_handler save_checkpoint cursors app_cursors
  settled_db q k event = saves q.app.event_store
    where
      saves : (o : Option HostIds) → (save_checkpoint (cursors p i o) event q.app).db ≡ q.app.db
      saves none = refl
      saves (some ids) = elim (Bool-cases (is_checkpoint event.seq)) [
        | inl at ↦ rw at (save_cursor-cancelled p d event.host event.seq q.app.db)
        | inr between ↦ rw between refl
      ]

  taken_db : (q : Pool p i) (k : ℕ) (r : Received Event) → (taken p i q k r).app.db ≡ q.app.db
  unfolding taken
  taken_db q k (value event ch) = refl
  taken_db q k ended = refl
  taken_db q k blocked = refl

  started_db : (q : Pool p i) (k : ℕ) (o : Option Phase) → (started p i q k o).app.db ≡ q.app.db
  unfolding started
  started_db q k none = taken_db q k (receive q.manager.event_chan)
  started_db q k (some phase) = refl

  put_away_db :
      (q : Pool p i) (k : ℕ) (duration : Time) (o : Option Phase)
      → (put_away p i q k duration o).app.db ≡ q.app.db
  unfolding put_away
  put_away_db q k duration (some (in_hand event)) = stored_db q.app event duration
  put_away_db q k duration none = refl
  put_away_db q k duration (some (holding event seq)) = refl
  put_away_db q k duration (some (handed_on event)) = refl

  same : {q t : Pool p i} → running q ≡ running t → t.app.db ≡ q.app.db
  same e = ground arith

  handed_db :
      (q t : Pool p i) (k : ℕ) (now : String) (o : Option Phase)
      → handed p i q k now o ≡ running t
      → t.app.db ≡ q.app.db
  unfolding handed
  handed_db q t k now none e = same e
  handed_db q t k now (some (in_hand event)) e = same e
  handed_db q t k now (some (handed_on event)) e = same e
  handed_db q t k now (some (holding event seq)) e = sent (publish p i q.app event seq now) refl e
    where
      after : App p i → Pool p i
      after a = record q { app = a; busy = insert k (handed_on event) q.busy }

      sent :
          (r : Outcome (App p i))
          → publish p i q.app event seq now ≡ r
          → (r >>= λ a. running (after a)) ≡ running t
          → t.app.db ≡ q.app.db
      sent (running b) x y = same y ∙ publish_db q.app b event seq now x
      sent panicked x y = absurd (cc)

  settled_any_db : (q : Pool p i) (k : ℕ) (o : Option Phase) → (settled p i q k o).app.db ≡ q.app.db
  unfolding settled
  settled_any_db q k none = refl
  settled_any_db q k (some (in_hand event)) = refl
  settled_any_db q k (some (holding event seq)) = refl
  settled_any_db q k (some (handed_on event)) = settled_db q k event

  step_db : (q t : Pool p i) (action : Action) → step p i q action ≡ running t → t.app.db ≡ q.app.db
  unfolding step
  step_db q t (take_event k) e = same e ∙ started_db q k (lookup k q.busy)
  step_db q t (store_taken k duration) e = same e ∙ put_away_db q k duration (lookup k q.busy)
  step_db q t (publish_event k now) e = handed_db q t k now (lookup k q.busy) e
  step_db q t (settle k) e = same e ∙ settled_any_db q k (lookup k q.busy)

  pub run_all_db :
      (q t : Pool p i) (actions : List Action)
      → run_all p i q actions ≡ running t
      → t.app.db ≡ q.app.db
  unfolding run_all
  run_all_db q t [] e = same e
  run_all_db q t (action ∷ rest) e = after (step p i q action) refl e (λ u. run_all_db u t rest)
    where
      after :
          (r : Outcome (Pool p i))
          → step p i q action ≡ r
          → (r >>= λ u. run_all p i u rest) ≡ running t
          → ((u : Pool p i) → run_all p i u rest ≡ running t → t.app.db ≡ u.app.db)
          → t.app.db ≡ q.app.db
      after (running u) x y ih = ih u y ∙ step_db q u action x
      after panicked x y ih = absurd (cc)

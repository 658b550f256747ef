-- ===== src/Relay/Workers/Rounds.antt =====
-- The end of a round keeps the ledger, so every schedule of the workers does.
use at_protocol_infrastructu.Prelude.{
  ℕ, ◌+◌, ◌≤◌, ◌≡◌, refl, ap, Option, none, some, List, [], ◌∷◌, ◌++◌, nat_eq, length, inl, inr,
  subst, true, false, sym, ◌∙◌, Bool, if◌then◌else◌, string_eq, Option-cases,
}
use at_protocol_infrastructu.Prelude.Assoc.{lookup, delete, delete-Unique}
use at_protocol_infrastructu.Prelude.Result.{ok}
use at_protocol_infrastructu.Channel.{running}
use at_protocol_infrastructu.Ingest.Event.{Event}
use at_protocol_infrastructu.Ingest.Manager.{
  Manager, on_metrics, inc, after_handler, save_checkpoint, is_checkpoint,
}
use at_protocol_infrastructu.Verify.{Indigo}
use at_protocol_infrastructu.Storage.Database.{Postgres, Laws}
use at_protocol_infrastructu.Storage.Stores.{HostIds}
use at_protocol_infrastructu.Storage.Saving.{save_cursor-rows, save_cursor-IsCoherent}
use at_protocol_infrastructu.Storage.Stores.{save_cursor}
use at_protocol_infrastructu.Relay.{App}
use at_protocol_infrastructu.Relay.Publishing.{Coherent}
use at_protocol_infrastructu.Relay.Workers.{
  in_hand, store_taken, put_away, holding, handed_on, Action, take_event, publish_event, settle,
  Pool, cursors, handed, settled, step, run_all,
}
use at_protocol_infrastructu.Relay.Workers.Pending.{
  item_of, event_of, pending, waiting, gather-delete,
}
use at_protocol_infrastructu.Relay.Workers.Storing.{stored-Ledger}
use at_protocol_infrastructu.Relay.Workers.Ledger.{Ledger, start_Ledger, started-Ledger}
use at_protocol_infrastructu.Relay.Workers.Handing.{handed-Ledger}

module _ (p : Postgres) (i : Indigo) (l : Laws p) where
  -- What the end of a round leaves alone.
  pub record Untouched (q : Pool p i) (x : Manager × App p i) : Type 0 where
    pub same_channel : x.0.event_chan ≡ q.manager.event_chan
    pub same_firehose : x.1.firehose ≡ q.app.firehose
    pub same_rows : l.rows x.1.db ≡ l.rows q.app.db
    pub coherent : Coherent p i l x.1.event_store x.1.db

  pub after_handler-Untouched :
      (q : Pool p i) (event : Event) (store : Option HostIds)
      → q.app.event_store ≡ store
      → Coherent p i l q.app.event_store q.app.db
      → Untouched q (after_handler q.manager (cursors p i store) event (ok tt, q.app))
  unfolding after_handler save_checkpoint cursors
  after_handler-Untouched q event none e c = record {
    same_channel = refl;
    same_firehose = refl;
    same_rows = refl;
    coherent = c;
  }
  after_handler-Untouched q event (some ids) e c = saves (is_checkpoint event.seq)
    where
      after : p.State
      after = (save_cursor p event.host event.seq q.app.db).1

      kept : Coherent p i l q.app.event_store after
      kept =
          subst (λ o. Coherent p i l o after) (sym e)
            (save_cursor-IsCoherent p l event.host event.seq ids q.app.db
              (subst (λ o. Coherent p i l o q.app.db) e c))

      saves :
          (b : Bool)
          → Untouched q (
            record q.manager {
              metrics =
                  on_metrics
                    (λ m. record m { processed = inc event.host event.type m.processed })
                    q.manager.metrics;
            },
            if b then record q.app { db = after } else q.app,
          )
      saves false = record {
        same_channel = refl;
        same_firehose = refl;
        same_rows = refl;
        coherent = c;
      }
      saves true = record {
        same_channel = refl;
        same_firehose = refl;
        same_rows = save_cursor-rows p l event.host event.seq q.app.db;
        coherent = kept;
      }

  settled-Ledger :
      (s q : Pool p i) (k : ℕ) (event : Event)
      → Ledger p i l s q
      → lookup k q.busy ≡ some (handed_on event)
      → Ledger p i l s (settled p i q k (some (handed_on event)))
  unfolding settled
  settled-Ledger s q k event g e =
      let u = after_handler-Untouched q event q.app.event_store refl g.coherent in
      let same : pending (delete k q.busy) ≡ pending q.busy =
        gather-delete item_of k (handed_on event) q.busy g.unique e refl in
      let hands : waiting (delete k q.busy) ≡ waiting q.busy =
        gather-delete event_of k (handed_on event) q.busy g.unique e refl in
      record {
        arrived = g.arrived;
        stored_events = g.stored_events;
        sent = g.sent;
        entries = g.entries;
        queue = g.queue ∙ ap (λ c. g.arrived ++ c.buffer) (sym u.same_channel);
        in_hands = rw hands g.in_hands;
        size = rw hands g.size;
        table = u.same_rows ∙ g.table;
        messages = ap (λ f. f.broadcast.buffer) u.same_firehose ∙ g.messages;
        matched = rw same g.matched;
        balance = rw same g.balance;
        still_open = ap (λ f. f.broadcast.closed) u.same_firehose ∙ g.still_open;
        same_cap = ap (λ f. f.broadcast.cap) u.same_firehose ∙ g.same_cap;
        coherent = u.coherent;
        unique = delete-Unique k q.busy g.unique;
      }

  step-Ledger :
      (s q : Pool p i) (action : Action)
      → length s.app.firehose.broadcast.buffer + length s.manager.event_chan.buffer
        ≤ s.app.firehose.broadcast.cap
      → Ledger p i l s q
      → (t : Pool p i) × (step p i q action ≡ running t) × Ledger p i l s t
  unfolding step
  step-Ledger s q (take_event k) room g = (_, refl, started-Ledger p i l s q k g)
  step-Ledger s q (store_taken k duration) room g = elim (Option-cases (lookup k q.busy)) [
    | inl e ↦ rw (e, put_away) (q, refl, g)
    | inr (in_hand event, e) ↦ rw e (_, refl, stored-Ledger p i l s q k duration event g e)
    | inr (holding event seq, e) ↦ rw (e, put_away) (q, refl, g)
    | inr (handed_on event, e) ↦ rw (e, put_away) (q, refl, g)
  ]
  step-Ledger s q (publish_event k now) room g = elim (Option-cases (lookup k q.busy)) [
    | inl e ↦ rw (e, handed) (q, refl, g)
    | inr (in_hand event, e) ↦ rw (e, handed) (q, refl, g)
    | inr (handed_on event, e) ↦ rw (e, handed) (q, refl, g)
    | inr (holding event seq, e) ↦ rw e (handed-Ledger p i l s q k now event seq room g e)
  ]
  step-Ledger s q (settle k) room g = elim (Option-cases (lookup k q.busy)) [
    | inl e ↦ rw (e, settled) (q, refl, g)
    | inr (in_hand event, e) ↦ rw (e, settled) (q, refl, g)
    | inr (holding event seq, e) ↦ rw (e, settled) (q, refl, g)
    | inr (handed_on event, e) ↦ rw e (_, refl, settled-Ledger s q k event g e)
  ]

  pub run_all-kept :
      (s q : Pool p i) (actions : List Action)
      → length s.app.firehose.broadcast.buffer + length s.manager.event_chan.buffer
        ≤ s.app.firehose.broadcast.cap
      → Ledger p i l s q
      → (t : Pool p i) × (run_all p i q actions ≡ running t) × Ledger p i l s t
  unfolding run_all
  run_all-kept s q [] room g = (q, refl, g)
  run_all-kept s q (action ∷ rest) room g =
      let (t, e, h) = step-Ledger s q action room g in
      let (u, e', h') = run_all-kept s t rest room h in (u, rw (e, run_all) e', h')

  -- From a pool whose workers all wait, with an open channel to the subscribers that has room for
  -- what is queued and a coherent cache of host ids: every interleaving of the steps of the
  -- workers runs without a panic. The events were taken from the queue in order, and each of them
  -- was put away once, in some order, but for those that a worker still has in hand; the table has
  -- one more row for each that was stored, in the order they were put away and under its number;
  -- and one message went out for each that was put away, with that number, in some order, but for
  -- those that a worker still holds.
  pub run_all-Ledger :
      (s : Pool p i) (actions : List Action)
      → s.busy ≡ []
      → s.app.firehose.broadcast.closed ≡ false
      → Coherent p i l s.app.event_store s.app.db
      → length s.app.firehose.broadcast.buffer + length s.manager.event_chan.buffer
        ≤ s.app.firehose.broadcast.cap
      → (t : Pool p i) × (run_all p i s actions ≡ running t) × Ledger p i l s t
  run_all-Ledger s actions idle o c room =
      run_all-kept s s actions room (start_Ledger p i l s idle o c)

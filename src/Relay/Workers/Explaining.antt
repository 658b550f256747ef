-- ===== src/Relay/Workers/Explaining.antt =====
-- The cursors in the database while several workers handle events at once with the event handler of
-- relay/cmd/relay/main.go.
use at_protocol_infrastructu.Prelude.{
  ℕ, ◌≡◌, refl, ap, sym, ◌∙◌, subst, false, none, some, List, [], ◌∷◌, String, All, nat_eq,
  string_eq, inl, inr, Option-cases, Bool-cases, ◌==◌,
}
use at_protocol_infrastructu.Prelude.Assoc.{lookup, insert, delete, lookup-insert, lookup-delete}
use at_protocol_infrastructu.Prelude.Int.{ℤ}
use at_protocol_infrastructu.Channel.{running, receive_cases}
use at_protocol_infrastructu.Ingest.Event.{Event, Time}
use at_protocol_infrastructu.Ingest.Manager.Checkpoints.{Explained}
use at_protocol_infrastructu.Verify.{Indigo}
use at_protocol_infrastructu.Storage.Database.{Postgres, Laws}
use at_protocol_infrastructu.Firehose.Message.{marshal}
use at_protocol_infrastructu.Relay.{App, published, stored, publish}
use at_protocol_infrastructu.Relay.Publishing.{offer_open, checked}
use at_protocol_infrastructu.Relay.Workers.{
  Phase, in_hand, holding, handed_on, Action, take_event, store_taken, publish_event, settle, Pool,
  taken, started, put_away, handed, settled, step, run_all,
}
use at_protocol_infrastructu.Relay.Workers.Columns.{
  event_in, Counted, All-own, explained, column, store-column, store-firehose, after_handler-column,
}

module _ (p : Postgres) (i : Indigo) (l : Laws p) where
  -- From a pool `s` to a later one: what is queued and what the workers are busy with comes from
  -- the queue of `s`, and so does what the cursors were set to.
  record Traced (s q : Pool p i) : Type 0 where
    queue : All (Counted s.manager.event_chan.buffer) q.manager.event_chan.buffer
    hands :
        (k : ℕ) (w : Phase)
        → lookup k q.busy ≡ some w
        → Counted s.manager.event_chan.buffer (event_in w)
    columns :
        (h : String)
        → Explained h s.manager.event_chan.buffer (column p i l s.app h) (column p i l q.app h)
    still_open : q.app.firehose.broadcast.closed ≡ false

  inserted :
      (P : Phase → Type 0) (k : ℕ) (v : Phase) (m : List (ℕ × Phase))
      → ((j : ℕ) (w : Phase) → lookup j m ≡ some w → P w)
      → P v
      → (j : ℕ) (w : Phase) → lookup j (insert k v m) ≡ some w
      → P w
  inserted P k v m all new j w e = elim (Bool-cases (k == j)) [
    | inl here ↦
        let found : some v ≡ some w = sym (lookup-insert k j v m ∙ rw here refl) ∙ e in
        subst P (cc) new
    | inr there ↦ all j w (sym (lookup-insert k j v m ∙ rw there refl) ∙ e)
  ]

  deleted :
      (P : Phase → Type 0) (k : ℕ) (m : List (ℕ × Phase))
      → ((j : ℕ) (w : Phase) → lookup j m ≡ some w → P w)
      → (j : ℕ) (w : Phase) → lookup j (delete k m) ≡ some w
      → P w
  deleted P k m all j w e = elim (Bool-cases (k == j)) [
    | inl here ↦
        let gone : none ≡ some w = sym (lookup-delete k j m ∙ rw here refl) ∙ e in absurd (cc)
    | inr there ↦ all j w (sym (lookup-delete k j m ∙ rw there refl) ∙ e)
  ]

  started-Traced :
      (s q : Pool p i) (k : ℕ) → Traced s q → Traced s (started p i q k (lookup k q.busy))
  unfolding started taken
  started-Traced s q k t = elim (Option-cases (lookup k q.busy)) [
    | inr (phase, e) ↦ rw e t
    | inl idle ↦ rw idle (elim (receive_cases q.manager.event_chan) [
      | inl e ↦ rw e t
      | inr (inl e) ↦ rw e t
      | inr (inr (event, rest, queued, e)) ↦
          let all = subst (All (Counted s.manager.event_chan.buffer)) queued t.queue in
          rw e (record {
            queue = all.1;
            hands =
                inserted (λ w. Counted s.manager.event_chan.buffer (event_in w)) k (in_hand event)
                  q.busy t.hands all.0;
            columns = t.columns;
            still_open = t.still_open;
          })
    ])
  ]

  stored-Traced :
      (s q : Pool p i) (k : ℕ) (duration : Time) (event : Event)
      → Traced s q
      → lookup k q.busy ≡ some (in_hand event)
      → Traced s (put_away p i q k duration (some (in_hand event)))
  unfolding put_away stored
  stored-Traced s q k duration event t e =
      let a : App p i = checked p i l q.app event duration in
      record {
        queue = t.queue;
        hands =
            inserted (λ w. Counted s.manager.event_chan.buffer (event_in w)) k _ q.busy t.hands
              (t.hands k (in_hand event) e);
        columns = λ h.
            subst (Explained h s.manager.event_chan.buffer (column p i l s.app h))
              (sym (store-column p i l a event q.app.event_store h)) (t.columns h);
        still_open =
            ap (λ f. f.broadcast.closed) (store-firehose p i l a event q.app.event_store)
            ∙ t.still_open;
      }

  handed-Traced :
      (s q : Pool p i) (k : ℕ) (now : String) (event : Event) (seq : ℤ)
      → Traced s q
      → lookup k q.busy ≡ some (holding event seq)
      → (u : Pool p i) × (handed p i q k now (some (holding event seq)) ≡ running u) × Traced s u
  unfolding handed publish
  handed-Traced s q k now event seq t e =
      let (f, sent_off, queued, o, c) =
        offer_open q.app.firehose (marshal (published event seq now)) t.still_open in
      (
        record q { app = record q.app { firehose = f }; busy = insert k (handed_on event) q.busy },
        rw sent_off refl,
        record {
          queue = t.queue;
          hands =
              inserted (λ w. Counted s.manager.event_chan.buffer (event_in w)) k (handed_on event)
                q.busy t.hands (t.hands k (holding event seq) e);
          columns = t.columns;
          still_open = o;
        },
      )

  settled-Traced :
      (s q : Pool p i) (k : ℕ) (event : Event)
      → Traced s q
      → lookup k q.busy ≡ some (handed_on event)
      → Traced s (settled p i q k (some (handed_on event)))
  unfolding settled
  settled-Traced s q k event t e =
      let (same, firehose, saves) = after_handler-column p i l q event q.app.event_store in
      record {
        queue = subst (λ c. All (Counted s.manager.event_chan.buffer) c.buffer) (sym same) t.queue;
        hands = deleted (λ w. Counted s.manager.event_chan.buffer (event_in w)) k q.busy t.hands;
        columns = λ h.
            explained h s.manager.event_chan.buffer event _ _ _ (t.hands k (handed_on event) e)
              (t.columns h) (saves h);
        still_open = ap (λ f. f.broadcast.closed) firehose ∙ t.still_open;
      }

  step-Traced :
      (s q : Pool p i) (action : Action)
      → Traced s q
      → (u : Pool p i) × (step p i q action ≡ running u) × Traced s u
  unfolding step
  step-Traced s q (take_event k) t = (_, refl, started-Traced s q k t)
  step-Traced s q (store_taken k duration) t = elim (Option-cases (lookup k q.busy)) [
    | inl e ↦ rw (e, put_away) (q, refl, t)
    | inr (in_hand event, e) ↦ rw e (_, refl, stored-Traced s q k duration event t e)
    | inr (holding event seq, e) ↦ rw (e, put_away) (q, refl, t)
    | inr (handed_on event, e) ↦ rw (e, put_away) (q, refl, t)
  ]
  step-Traced s q (publish_event k now) t = elim (Option-cases (lookup k q.busy)) [
    | inl e ↦ rw (e, handed) (q, refl, t)
    | inr (in_hand event, e) ↦ rw (e, handed) (q, refl, t)
    | inr (handed_on event, e) ↦ rw (e, handed) (q, refl, t)
    | inr (holding event seq, e) ↦ rw e (handed-Traced s q k now event seq t e)
  ]
  step-Traced s q (settle k) t = elim (Option-cases (lookup k q.busy)) [
    | inl e ↦ rw (e, settled) (q, refl, t)
    | inr (in_hand event, e) ↦ rw (e, settled) (q, refl, t)
    | inr (holding event seq, e) ↦ rw (e, settled) (q, refl, t)
    | inr (handed_on event, e) ↦ rw e (_, refl, settled-Traced s q k event t e)
  ]

  run_all-Traced :
      (s q : Pool p i) (actions : List Action)
      → Traced s q
      → (u : Pool p i) × (run_all p i q actions ≡ running u) × Traced s u
  unfolding run_all
  run_all-Traced s q [] t = (q, refl, t)
  run_all-Traced s q (action ∷ rest) t =
      let (q', e, t') = step-Traced s q action t in
      let (u, e', t'') = run_all-Traced s q' rest t' in (u, rw (e, run_all) e', t'')

  start_Traced : (s : Pool p i) → s.busy ≡ [] → s.app.firehose.broadcast.closed ≡ false → Traced s s
  unfolding lookup
  start_Traced s idle o = record {
    queue = All-own s.manager.event_chan.buffer;
    hands = λ k w e. let none_busy : none ≡ some w = ap (lookup k) (sym idle) ∙ e in absurd (cc);
    columns = λ h. inl refl;
    still_open = o;
  }

  -- Over a database that keeps the laws of its statements, and from a pool whose workers all wait,
  -- with an open channel to the subscribers, which may be full: every interleaving of the steps of
  -- the workers runs without a panic, whether stores and saves succeed or not, and afterwards the
  -- cursor of a host in the table is the one before it, or the sequence number of an event of that
  -- host that was in the queue at the start, one that 100 divides.
  pub run_all-Explained :
      (s : Pool p i) (actions : List Action)
      → s.busy ≡ []
      → s.app.firehose.broadcast.closed ≡ false
      → (t : Pool p i) × (run_all p i s actions ≡ running t)
        × ((h : String)
            → Explained h s.manager.event_chan.buffer
                (l.cursor_of s.app.db h)
                (l.cursor_of t.app.db h))
  run_all-Explained s actions idle o =
      let (t, e, u) = run_all-Traced s s actions (start_Traced s idle o) in (t, e, u.columns)

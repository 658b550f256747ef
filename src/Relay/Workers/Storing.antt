-- ===== src/Relay/Workers/Storing.antt =====
-- A store keeps the ledger.
use mathlib.Core.List.{Perm, perm_append_comm, append_assoc, map-append, append-nil}
use mathlib.Core.List.Perm
use at_protocol_infrastructu.Prelude.{
  ℕ, ◌≡◌, refl, ap, Option, none, some, List, [], ◌∷◌, ◌++◌, nat_eq, arith, map, inl, inr, sym, ◌∙◌,
  length-append, string_eq,
}
use at_protocol_infrastructu.Prelude.Assoc.{lookup, insert, insert-Unique}
use at_protocol_infrastructu.Prelude.Int.{ℤ}
use at_protocol_infrastructu.Ingest.Event.{Event, Time}
use at_protocol_infrastructu.Verify.{Indigo}
use at_protocol_infrastructu.Storage.Database.{EventRow, Postgres, Laws, row_of}
use at_protocol_infrastructu.Relay.{App, row_for, stored}
use at_protocol_infrastructu.Relay.Publishing.{Persisted, Kept, stored-Kept, checked}
use at_protocol_infrastructu.Relay.Workers.{Phase, put_away, holding, in_hand, Pool}
use at_protocol_infrastructu.Relay.Workers.Pending.{
  item_of, event_of, pending, waiting, gather-insert, length-gather,
}
use at_protocol_infrastructu.Relay.Workers.Ledger.{
  Entry, item, with_row, rows_of, IsEntry, rows_of-append, perm-snoc, perm-move, All-snoc, Ledger,
}

module _ (p : Postgres) (i : Indigo) (l : Laws p) where
  pub IsEntry-of :
      (event : Event) (seq : ℤ) (s t : p.State)
      → Persisted p i l event seq s t
      → (row : Option EventRow) × IsEntry (record { event = event; seq = seq; row = row })
        × (l.rows t ≡ l.rows s ++ with_row row [])
  IsEntry-of event seq s t (inl (h, at, e, q)) =
      (some (row_of (row_for event h) seq at), inl (h, at, refl), q)
  IsEntry-of event seq s t (inr (z, q)) = (none, inr (refl, z), q ∙ sym (append-nil _))

  pub stored-Ledger :
      (s q : Pool p i) (k : ℕ) (duration : Time) (event : Event)
      → Ledger p i l s q
      → lookup k q.busy ≡ some (in_hand event)
      → Ledger p i l s (put_away p i q k duration (some (in_hand event)))
  unfolding put_away
  stored-Ledger s q k duration event g e =
      let x : ℤ × App p i = stored p i q.app event duration in
      let kept : Kept p i l (checked p i l q.app event duration) event x =
        stored-Kept p i l q.app event duration g.coherent in
      let (row, is, added) = IsEntry-of event x.0 q.app.db x.1.db kept.persisted in
      let new : Entry = record { event = event; seq = x.0; row = row } in
      let after : List (ℕ × Phase) = insert k (holding event x.0) q.busy in
      let fewer : Perm (waiting q.busy) (event ∷ waiting after) =
        Perm.symm (gather-insert event_of k (holding event x.0) (in_hand event) q.busy e) in
      let more : Perm (pending after) ((event, x.0) ∷ pending q.busy) =
        gather-insert item_of k (holding event x.0) (in_hand event) q.busy e in
      record {
        arrived = g.arrived;
        stored_events = g.stored_events ++ new ∷ [];
        sent = g.sent;
        entries = All-snoc g.stored_events new g.entries is;
        queue = g.queue;
        in_hands = rw (map-append (λ e. e.event) g.stored_events (new ∷ [])) (
            perm-move g.arrived (map (λ e. e.event) g.stored_events) (waiting q.busy)
              (waiting after) event g.in_hands fewer);
        size = omega (
          arith,
          g.size,
          length-append g.stored_events (new ∷ []),
          length-gather event_of k (holding event x.0) (in_hand event) q.busy e,
        );
        table =
            added
            ∙ ap (λ r. r ++ with_row row []) g.table
            ∙ append_assoc (l.rows s.app.db) (rows_of g.stored_events) (with_row row [])
            ∙ ap (λ r. l.rows s.app.db ++ r) (sym (rows_of-append g.stored_events (new ∷ [])));
        messages = ap (λ f. f.broadcast.buffer) kept.same_firehose ∙ g.messages;
        matched = rw (map-append item g.stored_events (new ∷ [])) (
            Perm.trans
              (perm-snoc (map item g.stored_events) (map (λ m. m.0) g.sent) (pending q.busy)
                (event, x.0) g.matched)
              (Perm.append_left (map (λ m. m.0) g.sent) (
                Perm.trans (perm_append_comm (pending q.busy) ((event, x.0) ∷ []))
                  (Perm.symm more))));
        balance = omega (
          arith,
          g.balance,
          length-append g.stored_events (new ∷ []),
          length-gather item_of k (holding event x.0) (in_hand event) q.busy e,
        );
        still_open = ap (λ f. f.broadcast.closed) kept.same_firehose ∙ g.still_open;
        same_cap = ap (λ f. f.broadcast.cap) kept.same_firehose ∙ g.same_cap;
        coherent = kept.coherent;
        unique = insert-Unique k (holding event x.0) q.busy g.unique;
      }

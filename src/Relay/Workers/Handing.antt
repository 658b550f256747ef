-- ===== src/Relay/Workers/Handing.antt =====
-- A publication keeps the ledger.
use mathlib.Core.List.{append_assoc, map-append}
use mathlib.Core.List.Perm
use at_protocol_infrastructu.Prelude.{
  ℕ, ◌+◌, ◌≤◌, ◌≡◌, refl, ap, some, [], ◌∷◌, ◌++◌, nat_eq, arith, length, map, String, true, sym,
  ◌∙◌, ltb, length-append, length-map, ◌<◌, string_eq,
}
use at_protocol_infrastructu.Prelude.Assoc.{lookup, insert, insert-Unique}
use at_protocol_infrastructu.Prelude.Int.{ℤ}
use at_protocol_infrastructu.Channel.{running}
use at_protocol_infrastructu.Ingest.Event.{Event}
use at_protocol_infrastructu.Verify.{Indigo}
use at_protocol_infrastructu.Storage.Database.{Postgres, Laws}
use at_protocol_infrastructu.Firehose.Message.{marshal}
use at_protocol_infrastructu.Relay.{publish, published}
use at_protocol_infrastructu.Relay.Publishing.{published_lem, offer_room}
use at_protocol_infrastructu.Relay.Workers.{holding, handed_on, Pool, handed}
use at_protocol_infrastructu.Relay.Workers.Pending.{
  item_of, event_of, pending, gather-insert, length-gather,
}
use at_protocol_infrastructu.Relay.Workers.Ledger.{item, outgoing, perm-move, Ledger}

module _ (p : Postgres) (i : Indigo) (l : Laws p) where
  has_room :
      (s q : Pool p i) (k : ℕ) (event : Event) (seq : ℤ)
      → length s.app.firehose.broadcast.buffer + length s.manager.event_chan.buffer
        ≤ s.app.firehose.broadcast.cap
      → Ledger p i l s q
      → lookup k q.busy ≡ some (holding event seq)
      → ltb (length q.app.firehose.broadcast.buffer) q.app.firehose.broadcast.cap ≡ true
  has_room s q k event seq room g e =
      let below : length q.app.firehose.broadcast.buffer < q.app.firehose.broadcast.cap = omega (
        arith,
        g.same_cap,
        g.balance,
        length-gather item_of k (handed_on event) (holding event seq) q.busy e,
        g.size,
        ap length g.messages ∙ length-append s.app.firehose.broadcast.buffer (map outgoing g.sent),
        length-map outgoing g.sent,
        ap length g.queue ∙ length-append g.arrived q.manager.event_chan.buffer,
      ) in
      ground arith

  pub handed-Ledger :
      (s q : Pool p i) (k : ℕ) (now : String) (event : Event) (seq : ℤ)
      → length s.app.firehose.broadcast.buffer + length s.manager.event_chan.buffer
        ≤ s.app.firehose.broadcast.cap
      → Ledger p i l s q
      → lookup k q.busy ≡ some (holding event seq)
      → (t : Pool p i) × (handed p i q k now (some (holding event seq)) ≡ running t)
        × Ledger p i l s t
  unfolding handed publish
  handed-Ledger s q k now event seq room g e =
      let (f, sent_off, queued, o, c) =
        offer_room q.app.firehose (marshal (published event seq now)) g.still_open
          (has_room s q k event seq room g e) in
      (
        record q { app = record q.app { firehose = f }; busy = insert k (handed_on event) q.busy },
        rw sent_off refl,
        record {
          arrived = g.arrived;
          stored_events = g.stored_events;
          sent = g.sent ++ ((event, seq), now) ∷ [];
          entries = g.entries;
          queue = g.queue;
          in_hands = Perm.trans g.in_hands (
              Perm.append_left (map (λ e. e.event) g.stored_events) (
                Perm.symm
                  (gather-insert event_of k (handed_on event) (holding event seq) q.busy e)));
          size = omega (
            arith,
            g.size,
            length-gather event_of k (handed_on event) (holding event seq) q.busy e,
          );
          table = g.table;
          messages =
              queued
              ∙ ap (λ m. q.app.firehose.broadcast.buffer ++ marshal m ∷ [])
                  (published_lem event seq now)
              ∙ ap (λ b. b ++ outgoing ((event, seq), now) ∷ []) g.messages
              ∙ append_assoc s.app.firehose.broadcast.buffer (map outgoing g.sent)
                  (outgoing ((event, seq), now) ∷ [])
              ∙ ap (λ b. s.app.firehose.broadcast.buffer ++ b)
                  (sym (map-append outgoing g.sent (((event, seq), now) ∷ [])));
          matched = rw (map-append (λ m. m.0) g.sent (((event, seq), now) ∷ [])) (
              perm-move (map item g.stored_events) (map (λ m. m.0) g.sent) (pending q.busy)
                (pending (insert k (handed_on event) q.busy)) (event, seq) g.matched
                (Perm.symm
                  (gather-insert item_of k (handed_on event) (holding event seq) q.busy e)));
          balance = omega (
            arith,
            g.balance,
            length-gather item_of k (handed_on event) (holding event seq) q.busy e,
            length-append g.sent (((event, seq), now) ∷ []),
          );
          still_open = o;
          same_cap = c ∙ g.same_cap;
          coherent = g.coherent;
          unique = insert-Unique k (handed_on event) q.busy g.unique;
        },
      )

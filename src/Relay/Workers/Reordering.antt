-- ===== src/Relay/Workers/Reordering.antt =====
-- What two workers can do to the order of the firehose: storing an event and publishing it are two
-- steps, and another worker may come in between.
use at_protocol_infrastructu.Prelude.{
  ℕ, ◌+◌, ◌≤◌, ◌≡◌, refl, ap, some, List, [], ◌∷◌, ◌++◌, nat_eq, arith, length, String, ◌==◌, subst,
  true, false, sym, ◌∙◌, ltb, length-append, string_eq,
}
use at_protocol_infrastructu.Prelude.Assoc.{lookup, insert}
use at_protocol_infrastructu.Prelude.Int.{ℤ, pos, ltb_ℤ, ◌<ℤ◌}
use at_protocol_infrastructu.Channel.{running}
use at_protocol_infrastructu.Ingest.Event.{Event, Time}
use at_protocol_infrastructu.Verify.{Indigo}
use at_protocol_infrastructu.Storage.Database.{Postgres, Laws}
use at_protocol_infrastructu.Storage.Sequence.{IsAscending}
use at_protocol_infrastructu.Firehose.Message.{marshal, message_with_seq}
use at_protocol_infrastructu.Relay.{App, stored, publish, published}
use at_protocol_infrastructu.Relay.Publishing.{Coherent, stored-Kept, offer_room}
use at_protocol_infrastructu.Relay.Workers.Numbers.{stored_twice}
use at_protocol_infrastructu.Relay.Workers.Taking.{run_all-cons, run_all-stored}
use at_protocol_infrastructu.Relay.Workers.{
  Phase, holding, handed_on, Action, take_event, store_taken, publish_event, Pool, handed, step,
  run_all,
}

published_stored :
    (event : Event) (seq : ℤ) (now : String)
    → ltb_ℤ (pos 0) seq ≡ true
    → published event seq now ≡ message_with_seq event seq now
unfolding published
published_stored event seq now m = rw m

busy_pair :
    (k j : ℕ) (v w : Phase)
    → (k == j) ≡ false
    → (lookup k ((k, v) ∷ (j, w) ∷ []) ≡ some v)
      × (lookup j ((k, v) ∷ (j, w) ∷ []) ≡ some w)
      × (insert j w ((k, v) ∷ []) ≡ (k, v) ∷ (j, w) ∷ [])
unfolding lookup insert
busy_pair k j v w ne = (ground arith, ground arith, ground arith)

module _ (p : Postgres) (i : Indigo) (l : Laws p) where
  -- What a publication leaves.
  record PublishedBy (q t : Pool p i) (k : ℕ) (event : Event) (seq : ℤ) (now : String)
      : Type 0 where
    queued :
        t.app.firehose.broadcast.buffer
        ≡ q.app.firehose.broadcast.buffer ++ marshal (message_with_seq event seq now) ∷ []
    still_open : t.app.firehose.broadcast.closed ≡ false
    same_cap : t.app.firehose.broadcast.cap ≡ q.app.firehose.broadcast.cap
    phases : t.busy ≡ insert k (handed_on event) q.busy

  publish_step :
      (q : Pool p i) (k : ℕ) (now : String) (event : Event) (seq : ℤ)
      → lookup k q.busy ≡ some (holding event seq)
      → q.app.firehose.broadcast.closed ≡ false
      → ltb (length q.app.firehose.broadcast.buffer) q.app.firehose.broadcast.cap ≡ true
      → ltb_ℤ (pos 0) seq ≡ true
      → (t : Pool p i) × (step p i q (publish_event k now) ≡ running t)
        × PublishedBy q t k event seq now
  unfolding step publish
  publish_step q k now event seq found o room m =
      let (f, sent, queued, o', c) =
        offer_room q.app.firehose (marshal (published event seq now)) o room in
      (
        record q { app = record q.app { firehose = f }; busy = insert k (handed_on event) q.busy },
        rw (found, handed, sent) refl,
        record {
          queued =
              queued
              ∙ ap (λ b. q.app.firehose.broadcast.buffer ++ marshal b ∷ [])
                  (published_stored event seq now m);
          still_open = o';
          same_cap = c;
          phases = refl;
        },
      )

  -- The first half: both events are taken and stored.
  both_taken :
      (q : Pool p i) (k j : ℕ) (d d' : Time) (e f : Event) (rest : List Event) (xs : List Action)
      → q.busy ≡ []
      → (k == j) ≡ false
      → q.manager.event_chan.buffer ≡ e ∷ f ∷ rest
      → (t : Pool p i) × (run_all p i q
            (take_event k ∷ store_taken k d ∷ take_event j ∷ store_taken j d' ∷ xs)
          ≡ run_all p i t xs)
        × (t.busy
            ≡ (k, holding e (stored p i q.app e d).0)
              ∷ (j, holding f (stored p i (stored p i q.app e d).1 f d').0)
              ∷ [])
        × (t.app ≡ (stored p i (stored p i q.app e d).1 f d').1)
  unfolding lookup insert
  both_taken q k j d d' e f rest xs idle ne queue =
      let x : ℤ × App p i = stored p i q.app e d in
      let (one, ran, by_one) =
        run_all-stored p i q k d e (f ∷ rest) (take_event j ∷ store_taken j d' ∷ xs) (rw idle refl)
          queue in
      let busy : one.busy ≡ (k, holding e x.0) ∷ [] =
        by_one.phases ∙ ap (insert k (holding e x.0)) idle in
      let (two, ran', by_two) =
        run_all-stored p i one j d' f rest xs (rw (busy, ne) refl) by_one.queue in
      (
        two,
        ran ∙ ran',
        by_two.phases
            ∙ ap (insert j (holding f (stored p i one.app f d').0)) busy
            ∙ (busy_pair k j (holding e x.0) (holding f (stored p i one.app f d').0) ne).2
            ∙ ap (λ a. (k, holding e x.0) ∷ (j, holding f (stored p i a f d').0) ∷ [])
                by_one.app_then,
        by_two.app_then ∙ ap (λ a. (stored p i a f d').1) by_one.app_then,
      )

  -- The second half: they are published the other way round.
  both_published :
      (q : Pool p i) (k j : ℕ) (now now' : String) (e f : Event) (m n : ℤ)
      → (k == j) ≡ false
      → q.busy ≡ (k, holding e m) ∷ (j, holding f n) ∷ []
      → q.app.firehose.broadcast.closed ≡ false
      → length q.app.firehose.broadcast.buffer + 2 ≤ q.app.firehose.broadcast.cap
      → ltb_ℤ (pos 0) m ≡ true
      → ltb_ℤ (pos 0) n ≡ true
      → (t : Pool p i) × (run_all p i q (publish_event j now ∷ publish_event k now' ∷ [])
          ≡ running t)
        × (t.app.firehose.broadcast.buffer
            ≡ (q.app.firehose.broadcast.buffer ++ marshal (message_with_seq f n now) ∷ [])
              ++ marshal (message_with_seq e m now') ∷ [])
  unfolding lookup insert run_all
  both_published q k j now now' e f m n ne busy o room m_pos n_pos =
      let (_, at_j, _) = busy_pair k j (holding e m) (holding f n) ne in
      let (u, step_u, by_u) = publish_step q j now f n (rw busy at_j) o (ground arith) n_pos in
      let still : lookup k u.busy ≡ some (holding e m) =
        ap (lookup k) (by_u.phases ∙ ap (insert j (handed_on f)) busy) ∙ ground (arith, ne) in
      let size : length u.app.firehose.broadcast.buffer
          ≡ length q.app.firehose.broadcast.buffer + 1 =
        ap length by_u.queued
        ∙ length-append q.app.firehose.broadcast.buffer (marshal (message_with_seq f n now) ∷ []) in
      let (t, step_t, by_t) =
        publish_step u k now' e m still by_u.still_open (ground (arith, size, by_u.same_cap))
          m_pos in
      (
        t,
        run_all-cons p i q u (publish_event j now) (publish_event k now' ∷ []) step_u
            ∙ run_all-cons p i u t (publish_event k now') [] step_t,
        by_t.queued ∙ ap (λ b. b ++ marshal (message_with_seq e m now') ∷ []) by_u.queued,
      )

  -- Two workers wait, the channel to the subscribers is open and has room for two messages, the
  -- cache is coherent and the table in order: if the first takes an event and stores it, then the
  -- second takes the next one, stores it and publishes it, and the first publishes only then, and
  -- both stores succeed, the message of the second event goes out before the one of the first,
  -- whose number is smaller.
  pub publications_reversed :
      (q : Pool p i) (k j : ℕ) (d d' : Time) (now now' : String) (e f : Event) (rest : List Event)
      → q.busy ≡ []
      → (k == j) ≡ false
      → q.manager.event_chan.buffer ≡ e ∷ f ∷ rest
      → q.app.firehose.broadcast.closed ≡ false
      → length q.app.firehose.broadcast.buffer + 2 ≤ q.app.firehose.broadcast.cap
      → Coherent p i l q.app.event_store q.app.db
      → IsAscending (l.rows q.app.db)
      → ltb_ℤ (pos 0) (stored p i q.app e d).0 ≡ true
      → ltb_ℤ (pos 0) (stored p i (stored p i q.app e d).1 f d').0 ≡ true
      → (t : Pool p i) × (run_all p i q (
            take_event k
            ∷ store_taken k d
            ∷ take_event j
            ∷ store_taken j d'
            ∷ publish_event j now
            ∷ publish_event k now'
            ∷ [])
          ≡ running t)
        × (t.app.firehose.broadcast.buffer
            ≡ (q.app.firehose.broadcast.buffer
                ++ marshal (message_with_seq f (stored p i (stored p i q.app e d).1 f d').0 now)
                  ∷ [])
              ++ marshal (message_with_seq e (stored p i q.app e d).0 now') ∷ [])
        × ((stored p i q.app e d).0 <ℤ (stored p i (stored p i q.app e d).1 f d').0)
  publications_reversed q k j d d' now now' e f rest idle ne queue o room c sorted m n =
      let x : ℤ × App p i = stored p i q.app e d in
      let kept = stored-Kept p i l q.app e d c in
      let kept' = stored-Kept p i l x.1 f d' kept.coherent in
      let (w, ran, busy, at) = both_taken q k j d d' e f rest _ idle ne queue in
      let hose = ap (λ a. a.firehose) at ∙ kept'.same_firehose ∙ kept.same_firehose in
      let (t, ran', out) =
        both_published w k j now now' e f x.0 (stored p i x.1 f d').0 ne busy
          (ap (λ s. s.broadcast.closed) hose ∙ o)
          (subst (λ s. length s.broadcast.buffer + 2 ≤ s.broadcast.cap) (sym hose) room) m n in
      (
        t,
        ran ∙ ran',
        out
            ∙ ap
                (λ s.
                  (s.broadcast.buffer
                    ++ marshal (message_with_seq f (stored p i x.1 f d').0 now) ∷ [])
                  ++ marshal (message_with_seq e x.0 now') ∷ [])
                hose,
        stored_twice p i l q.app e f d d' c sorted m n,
      )

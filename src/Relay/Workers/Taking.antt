-- ===== src/Relay/Workers/Taking.antt =====
-- A worker that takes an event and stores it with nobody in between.
use at_protocol_infrastructu.Prelude.{ℕ, ◌≡◌, refl, none, some, List, ◌∷◌, nat_eq, ◌∙◌}
use at_protocol_infrastructu.Prelude.Assoc.{lookup, insert}
use at_protocol_infrastructu.Channel.{running, value, receive, Chan}
use at_protocol_infrastructu.Ingest.Event.{Event, Time}
use at_protocol_infrastructu.Verify.{Indigo}
use at_protocol_infrastructu.Storage.Database.{Postgres}
use at_protocol_infrastructu.Relay.{stored}
use at_protocol_infrastructu.Relay.Workers.{
  in_hand, holding, Action, take_event, store_taken, Pool, taken, started, put_away, step, run_all,
}
use at_protocol_infrastructu.Relay.Workers.Alone.{insert_again, lookup-insert_self}

pub received :
    (ch : Chan Event) (event : Event) (rest : List Event)
    → ch.buffer ≡ event ∷ rest
    → receive ch ≡ value event (record ch { buffer = rest })
unfolding receive
received ch event rest e = rw e

module _ (p : Postgres) (i : Indigo) where
  pub run_all-cons :
      (q t : Pool p i) (x : Action) (xs : List Action)
      → step p i q x ≡ running t
      → run_all p i q (x ∷ xs) ≡ run_all p i t xs
  unfolding run_all
  run_all-cons q t x xs e = rw e

  pub take_step :
      (q : Pool p i) (k : ℕ) (event : Event) (rest : List Event)
      → lookup k q.busy ≡ none
      → q.manager.event_chan.buffer ≡ event ∷ rest
      → step p i q (take_event k)
        ≡ running (taken p i q k (value event (record q.manager.event_chan { buffer = rest })))
  unfolding step
  take_step q k event rest idle e =
      rw (idle, started) (rw (received q.manager.event_chan event rest e) refl)

  store_step :
      (q : Pool p i) (k : ℕ) (d : Time) (event : Event)
      → lookup k q.busy ≡ some (in_hand event)
      → step p i q (store_taken k d) ≡ running (put_away p i q k d (some (in_hand event)))
  unfolding step
  store_step q k d event e = rw e

  -- What the two steps leave.
  pub record StoredBy (q t : Pool p i) (k : ℕ) (d : Time) (event : Event) (rest : List Event)
      : Type 0 where
    pub phases : t.busy ≡ insert k (holding event (stored p i q.app event d).0) q.busy
    pub app_then : t.app ≡ (stored p i q.app event d).1
    pub queue : t.manager.event_chan.buffer ≡ rest

  pub run_all-stored :
      (q : Pool p i) (k : ℕ) (d : Time) (event : Event) (rest : List Event) (xs : List Action)
      → lookup k q.busy ≡ none
      → q.manager.event_chan.buffer ≡ event ∷ rest
      → (t : Pool p i) × (run_all p i q (take_event k ∷ store_taken k d ∷ xs) ≡ run_all p i t xs)
        × StoredBy q t k d event rest
  unfolding taken put_away
  run_all-stored q k d event rest xs idle e =
      let one : Pool p i =
        taken p i q k (value event (record q.manager.event_chan { buffer = rest })) in
      let two : Pool p i = put_away p i one k d (some (in_hand event)) in
      (
        two,
        run_all-cons q one (take_event k) (store_taken k d ∷ xs) (take_step q k event rest idle e)
            ∙ run_all-cons one two (store_taken k d) xs
                (store_step one k d event (lookup-insert_self k (in_hand event) q.busy)),
        record {
          phases =
              insert_again k (in_hand event) (holding event (stored p i q.app event d).0) q.busy;
          app_then = refl;
          queue = refl;
        },
      )

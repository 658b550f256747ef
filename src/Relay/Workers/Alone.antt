-- ===== src/Relay/Workers/Alone.antt =====
-- A worker whose round nobody interrupts does what `process_event` does.
use at_protocol_infrastructu.Prelude.{
  ℕ, ◌≡◌, refl, none, some, List, [], ◌∷◌, String, nat_eq, arith,
}
use at_protocol_infrastructu.Prelude.Assoc.{lookup, insert, delete}
use at_protocol_infrastructu.Prelude.Result.{ok}
use at_protocol_infrastructu.Prelude.Int.{ℤ}
use at_protocol_infrastructu.Channel.{Outcome, running, panicked, ◌>>=◌, Chan, value, receive}
use at_protocol_infrastructu.Ingest.Event.{Event, Time}
use at_protocol_infrastructu.Ingest.Manager.{process_event}
use at_protocol_infrastructu.Verify.{Indigo}
use at_protocol_infrastructu.Storage.Database.{Postgres}
use at_protocol_infrastructu.Relay.{App, stored, publish, event_handler}
use at_protocol_infrastructu.Relay.Workers.{
  in_hand, holding, put_away, store_taken, handed_on, take_event, publish_event, settle, Pool,
  cursors, taken, run_all,
}

module _ {V : Type 0} where
  pub insert_again : (k : ℕ) (v w : V) (m : List (ℕ × V)) → insert k w (insert k v m) ≡ insert k w m
  unfolding insert
  insert_again k v w [] = ground arith
  insert_again k v w ((j, u) ∷ m) = ground (arith, insert_again k v w m)

  pub lookup-insert_self : (k : ℕ) (v : V) (m : List (ℕ × V)) → lookup k (insert k v m) ≡ some v
  unfolding lookup insert
  lookup-insert_self k v [] = ground arith
  lookup-insert_self k v ((j, u) ∷ m) = ground (arith, lookup-insert_self k v m)

  pub delete-insert :
      (k : ℕ) (v : V) (m : List (ℕ × V)) → lookup k m ≡ none → delete k (insert k v m) ≡ m
  unfolding lookup insert delete
  delete-insert k v [] h = ground arith
  delete-insert k v ((j, u) ∷ m) h = ground (arith, delete-insert k v m)

module _ (p : Postgres) (i : Indigo) where
  -- The round of `process_event` with `event_handler`, which has come to `b`.
  abbrev pub processed : Pool p i → Event → Chan Event → App p i → Pool p i
  processed q event ch b =
      let (m, a) =
        process_event (record q.manager { event_chan = ch }) (some (λ _ _. (ok tt, b)))
          (cursors p i b.event_store) event q.app in
      record q { manager = m; app = a }

  -- A worker that waits, takes an event and is not interrupted in its round does what
  -- process_event does with the event handler, and panics exactly where the handler does.
  pub run_all-process_event :
      (q : Pool p i) (k : ℕ) (duration : Time) (now : String) (event : Event) (ch : Chan Event)
      → lookup k q.busy ≡ none
      → receive q.manager.event_chan ≡ value event ch
      → run_all p i q (take_event k ∷ store_taken k duration ∷ publish_event k now ∷ settle k ∷ [])
        ≡ (do b ← event_handler p i q.app event duration now; running (processed q event ch b))
  unfolding run_all event_handler process_event
  run_all-process_event q k duration now event ch idle e =
      rw
        (
          idle,
          e,
          lookup-insert_self k (in_hand event) q.busy,
          lookup-insert_self k (holding event x.0) (insert k (in_hand event) q.busy),
        )
        (finish (publish p i x.1 event x.0 now))
    where
      x : ℤ × App p i
      x = stored p i q.app event duration

      t : Pool p i
      t = put_away p i (taken p i q k (value event ch)) k duration (some (in_hand event))

      finish :
          (r : Outcome (App p i))
          → ((r >>= λ a. running (record t { app = a; busy = insert k (handed_on event) t.busy }))
              >>= λ u. run_all p i u (settle k ∷ []))
            ≡ (r >>= λ b. running (processed q event ch b))
      finish panicked = refl
      finish (running b) =
          rw
            (
              lookup-insert_self k (handed_on event) t.busy,
              insert_again k (holding event x.0) (handed_on event)
                  (insert k (in_hand event) q.busy),
              insert_again k (in_hand event) (handed_on event) q.busy,
              delete-insert k (handed_on event) q.busy idle,
            )
            refl

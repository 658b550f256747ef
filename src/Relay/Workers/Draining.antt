-- ===== src/Relay/Workers/Draining.antt =====
-- A single worker empties the queue.
use at_protocol_infrastructu.Prelude.{
  ℕ, zero, suc, ◌≡◌, refl, List, [], ◌∷◌, ◌++◌, String, length, arith, false, nat_eq, subst,
}
use at_protocol_infrastructu.Channel.{Outcome, running, panicked, ◌>>=◌}
use at_protocol_infrastructu.Ingest.Event.{Event, Time}
use at_protocol_infrastructu.Verify.{Indigo}
use at_protocol_infrastructu.Storage.Database.{Postgres, Laws}
use at_protocol_infrastructu.Relay.Publishing.{Coherent}
use at_protocol_infrastructu.Relay.Workers.{Action, Pool, step, run_all}
use at_protocol_infrastructu.Relay.Workers.InTurn.{
  InTurn, round, start-InTurn, then-InTurn, round-InTurn,
}

-- `n` rounds of worker `k` with nobody in between.
abbrev pub rounds : ℕ → Time → String → ℕ → List Action
rounds k duration now zero = []
rounds k duration now (suc n) = round k duration now ++ rounds k duration now n

module _ (p : Postgres) (i : Indigo) (l : Laws p) where
  bind_cong :
      (r : Outcome (Pool p i)) (f g : Pool p i → Outcome (Pool p i)) (t v : Pool p i)
      → ((u : Pool p i) → f u ≡ running t → g u ≡ running v)
      → (r >>= f) ≡ running t
      → (r >>= g) ≡ running v
  bind_cong (running u) f g t v h e = h u e
  bind_cong panicked f g t v h e = absurd (cc)

  run_all-append :
      (q t v : Pool p i) (xs ys : List Action)
      → run_all p i t ys ≡ running v
      → run_all p i q xs ≡ running t
      → run_all p i q (xs ++ ys) ≡ running v
  unfolding run_all
  run_all-append q t v [] ys h e = subst (λ u. run_all p i u ys ≡ running v) (same e) h
    where
      same : {a b : Pool p i} → running a ≡ running b → b ≡ a
      same w = ground arith
  run_all-append q t v (x ∷ xs) ys h e =
      bind_cong (step p i q x) (λ u. run_all p i u xs) (λ u. run_all p i u (xs ++ ys)) t v
        (λ u. run_all-append u t v xs ys h) e

  drain :
      (q : Pool p i) (k : ℕ) (duration : Time) (now : String) (queue : List Event)
      → q.busy ≡ []
      → q.app.firehose.broadcast.closed ≡ false
      → Coherent p i l q.app.event_store q.app.db
      → q.manager.event_chan.buffer ≡ queue
      → (t : Pool p i) × (run_all p i q (rounds k duration now (length queue)) ≡ running t)
        × (t.manager.event_chan.buffer ≡ [])
        × InTurn p i l q t now
  unfolding run_all
  drain q k duration now [] idle o c queued = (q, refl, queued, start-InTurn p i l q now idle o c)
  drain q k duration now (event ∷ rest) idle o c queued =
      let (t, e, r, g) = round-InTurn p i l q k duration now event rest idle o c queued in
      let (u, e', r', h) = drain t k duration now rest g.idle g.still_open g.coherent r in
      (
        u,
        run_all-append q t u (round k duration now) (rounds k duration now (length rest)) e' e,
        r',
        then-InTurn p i l q t u now g h,
      )

  -- From a pool whose workers all wait, with an open channel to the subscribers and a coherent
  -- cache of host ids: one worker that runs a round for each queued event empties the queue
  -- without a panic, and all workers wait again. The events were put away in the order of the
  -- queue: the table has one more row for each that was stored, in that order and under its
  -- number, and their messages went out in that order with those numbers, as many as the channel
  -- had room for.
  pub rounds-drain :
      (s : Pool p i) (k : ℕ) (duration : Time) (now : String)
      → s.busy ≡ []
      → s.app.firehose.broadcast.closed ≡ false
      → Coherent p i l s.app.event_store s.app.db
      → (t : Pool p i) × (run_all p i s (rounds k duration now (length s.manager.event_chan.buffer))
          ≡ running t)
        × (t.manager.event_chan.buffer ≡ [])
        × InTurn p i l s t now
  rounds-drain s k duration now idle o c =
      drain s k duration now s.manager.event_chan.buffer idle o c refl

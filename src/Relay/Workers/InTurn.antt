-- ===== src/Relay/Workers/InTurn.antt =====
-- The book of a worker that is alone: it puts the events away and publishes them in their order.
use native.Mathlib.Nat.{sub-zero, suc-sub-suc}
use mathlib.Core.List.{append_assoc, append-nil, map-append}
use at_protocol_infrastructu.Prelude.{
  ℕ, zero, suc, ◌+◌, ◌-◌, ◌≡◌, refl, ap, List, [], ◌∷◌, ◌++◌, nat_eq, arith, length, map, String,
  inl, inr, false, sym, ◌∙◌, All, take, length-append, ltb, Bool-cases,
}
use at_protocol_infrastructu.Prelude.Assoc.{lookup}
use at_protocol_infrastructu.Channel.{Chan, running}
use at_protocol_infrastructu.Ingest.Event.{Event, Time}
use at_protocol_infrastructu.Ingest.Manager.{process_event}
use at_protocol_infrastructu.Verify.{Indigo}
use at_protocol_infrastructu.Storage.Database.{Postgres, Laws}
use at_protocol_infrastructu.Firehose.Message.{Object}
use at_protocol_infrastructu.Relay.Publishing.{Coherent, offered, event_handler-Published}
use at_protocol_infrastructu.Relay.Workers.{
  Action, take_event, store_taken, publish_event, settle, Pool, run_all,
}
use at_protocol_infrastructu.Relay.Workers.Alone.{processed, run_all-process_event}
use at_protocol_infrastructu.Relay.Workers.Ledger.{
  Entry, item, rows_of, IsEntry, outgoing, rows_of-append,
}
use at_protocol_infrastructu.Relay.Workers.Storing.{IsEntry-of}
use at_protocol_infrastructu.Relay.Workers.Taking.{received}
use at_protocol_infrastructu.Relay.Workers.Rounds.{after_handler-Untouched}

abbrev pub round : ℕ → Time → String → List Action
round k duration now = take_event k ∷ store_taken k duration ∷ publish_event k now ∷ settle k ∷ []

take-nil {ℓ} : {A : Type ℓ} (n : ℕ) → take {A = A} n [] ≡ []
take-nil zero = refl
take-nil (suc n) = refl

take-append {ℓ} :
    {A : Type ℓ} (n : ℕ) (xs ys : List A)
    → take n (xs ++ ys) ≡ take n xs ++ take (n - length (take n xs)) ys
take-append zero xs ys = refl
take-append (suc n) [] ys = rw (sub-zero (suc n)) refl
take-append (suc n) (x ∷ xs) ys =
    rw (suc-sub-suc n (length (take n xs))) (ap (λ zs. x ∷ zs) (take-append n xs ys))

-- As many of the messages as the channel has room for; the others are dropped.
abbrev pub fitting : Chan Object → List Object → List Object
fitting ch ms = take (ch.cap - length ch.buffer) ms

offered-fitting : (ch : Chan Object) (m : Object) → offered ch m ≡ ch.buffer ++ fitting ch (m ∷ [])
offered-fitting ch m = elim (Bool-cases (ltb (length ch.buffer) ch.cap)) [
  | inl room ↦
      let size : ch.cap - length ch.buffer ≡ suc (ch.cap - (length ch.buffer + 1)) =
        ground (arith, room) in
      rw (room, size, take-nil {A = Object} (ch.cap - (length ch.buffer + 1))) refl
  | inr full ↦
      let size : ch.cap - length ch.buffer ≡ 0 = ground (arith, full) in
      rw (full, size) (sym (append-nil ch.buffer))
]

-- Messages that are offered in two goes.
fitting-append :
    (ch after : Chan Object) (xs ys : List Object)
    → after.buffer ≡ ch.buffer ++ fitting ch xs
    → after.cap ≡ ch.cap
    → after.buffer ++ fitting after ys ≡ ch.buffer ++ fitting ch (xs ++ ys)
fitting-append ch after xs ys e c =
    let n : ℕ = ch.cap - length ch.buffer in
    let left : after.cap - length after.buffer ≡ n - length (take n xs) =
      omega (arith, c, ap length e, length-append ch.buffer (take n xs)) in
    rw (left, e, take-append n xs ys)
      (append_assoc ch.buffer (take n xs) (take (n - length (take n xs)) ys))

All-append : (xs ys : List Entry) → All IsEntry xs → All IsEntry ys → All IsEntry (xs ++ ys)
All-append [] ys a b = b
All-append (x ∷ xs) ys a b = (a.0, All-append xs ys a.1 b)

module _ (p : Postgres) (i : Indigo) (l : Laws p) where
  -- Between a pool `s` and a later one `t`, in which every worker waits: one entry for each event
  -- that was taken, in the order of the queue.
  pub record InTurn (s t : Pool p i) (now : String) : Type 0 where
    pub turns : List Entry
    pub queue :
        s.manager.event_chan.buffer ≡ map (λ e. e.event) turns ++ t.manager.event_chan.buffer
    pub facts : All IsEntry turns
    pub table : l.rows t.app.db ≡ l.rows s.app.db ++ rows_of turns
    pub messages :
        t.app.firehose.broadcast.buffer
        ≡ s.app.firehose.broadcast.buffer
          ++ fitting s.app.firehose.broadcast (map (λ e. outgoing (item e, now)) turns)
    pub still_open : t.app.firehose.broadcast.closed ≡ false
    pub same_cap : t.app.firehose.broadcast.cap ≡ s.app.firehose.broadcast.cap
    pub coherent : Coherent p i l t.app.event_store t.app.db
    pub idle : t.busy ≡ []
    pub same_closed : t.manager.event_chan.closed ≡ s.manager.event_chan.closed

  pub start-InTurn :
      (s : Pool p i) (now : String)
      → s.busy ≡ []
      → s.app.firehose.broadcast.closed ≡ false
      → Coherent p i l s.app.event_store s.app.db
      → InTurn s s now
  start-InTurn s now idle o c = record {
    turns = [];
    queue = refl;
    facts = tt;
    table = sym (append-nil _);
    messages =
        sym (append-nil _)
        ∙ ap (λ ms. s.app.firehose.broadcast.buffer ++ ms) (sym (take-nil {A = Object} _));
    still_open = o;
    same_cap = refl;
    coherent = c;
    idle = idle;
    same_closed = refl;
  }

  pub then-InTurn :
      (s t u : Pool p i) (now : String) → InTurn s t now → InTurn t u now → InTurn s u now
  then-InTurn s t u now g h = record {
    turns = g.turns ++ h.turns;
    queue =
        g.queue
        ∙ ap (λ es. map (λ e. e.event) g.turns ++ es) h.queue
        ∙ sym (
            append_assoc (map (λ e. e.event) g.turns) (map (λ e. e.event) h.turns)
              u.manager.event_chan.buffer)
        ∙ ap (λ es. es ++ u.manager.event_chan.buffer)
            (sym (map-append (λ e. e.event) g.turns h.turns));
    facts = All-append g.turns h.turns g.facts h.facts;
    table =
        h.table
        ∙ ap (λ r. r ++ rows_of h.turns) g.table
        ∙ append_assoc (l.rows s.app.db) (rows_of g.turns) (rows_of h.turns)
        ∙ ap (λ r. l.rows s.app.db ++ r) (sym (rows_of-append g.turns h.turns));
    messages =
        h.messages
        ∙ fitting-append s.app.firehose.broadcast t.app.firehose.broadcast
            (map (λ e. outgoing (item e, now)) g.turns) (map (λ e. outgoing (item e, now)) h.turns)
            g.messages g.same_cap
        ∙ ap (λ ms. s.app.firehose.broadcast.buffer ++ fitting s.app.firehose.broadcast ms)
            (sym (map-append (λ e. outgoing (item e, now)) g.turns h.turns));
    still_open = h.still_open;
    same_cap = h.same_cap ∙ g.same_cap;
    coherent = h.coherent;
    idle = h.idle;
    same_closed = h.same_closed ∙ g.same_closed;
  }

  -- One round of a worker that is alone.
  pub round-InTurn :
      (q : Pool p i) (k : ℕ) (duration : Time) (now : String) (event : Event) (rest : List Event)
      → q.busy ≡ []
      → q.app.firehose.broadcast.closed ≡ false
      → Coherent p i l q.app.event_store q.app.db
      → q.manager.event_chan.buffer ≡ event ∷ rest
      → (t : Pool p i) × (run_all p i q (round k duration now) ≡ running t)
        × (t.manager.event_chan.buffer ≡ rest)
        × InTurn q t now
  unfolding lookup process_event
  round-InTurn q k duration now event rest idle o c queued =
      let ch : Chan Event = record q.manager.event_chan { buffer = rest } in
      let (b, ran, out) = event_handler-Published p i l q.app event duration now c o in
      let alone =
        run_all-process_event p i q k duration now event ch (rw idle refl)
          (received q.manager.event_chan event rest queued) in
      let u =
        after_handler-Untouched p i l (record (processed p i q event ch b) { app = b }) event
          b.event_store refl out.coherent in
      let (row, is, added) = IsEntry-of p i l event out.seq q.app.db b.db out.persisted in
      let turn : Entry = record { event = event; seq = out.seq; row = row } in
      (
        processed p i q event ch b,
        alone ∙ rw ran refl,
        refl,
        record {
          turns = turn ∷ [];
          queue = queued;
          facts = (is, tt);
          table = u.same_rows ∙ added;
          messages =
              ap (λ f. f.broadcast.buffer) u.same_firehose
              ∙ out.queued
              ∙ offered-fitting q.app.firehose.broadcast (outgoing (item turn, now));
          still_open = ap (λ f. f.broadcast.closed) u.same_firehose ∙ out.still_open;
          same_cap = ap (λ f. f.broadcast.cap) u.same_firehose ∙ out.same_cap;
          coherent = u.coherent;
          idle = idle;
          same_closed = refl;
        },
      )

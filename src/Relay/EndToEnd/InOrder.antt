-- ===== src/Relay/EndToEnd/InOrder.antt =====
-- Frames that come one after the other, each carried through before the next.
use mathlib.Core.List.{append_assoc, append-nil}
use at_protocol_infrastructu.Prelude.{
  ℕ, ◌≡◌, refl, ap, ◌∙◌, sym, subst, none, some, List, [], ◌∷◌, ◌++◌, String, map, All,
}
use at_protocol_infrastructu.Prelude.Int.{ℤ}
use at_protocol_infrastructu.Channel.{Outcome, running, ◌>>=◌, Chan}
use at_protocol_infrastructu.Ingest.Event.{Event, Time, Bytes}
use at_protocol_infrastructu.Ingest.Client.{PdsClient}
use at_protocol_infrastructu.Ingest.Stream.{StreamEvent, to_event}
use at_protocol_infrastructu.Verify.{Indigo}
use at_protocol_infrastructu.Storage.Database.{Postgres, Laws}
use at_protocol_infrastructu.Firehose.Message.{Object}
use at_protocol_infrastructu.Firehose.Server.{Client}
use at_protocol_infrastructu.Firehose.Delivery.{delivered}
use at_protocol_infrastructu.Relay.Workers.{Pool}
use at_protocol_infrastructu.Relay.Workers.Ledger.{
  Entry, item, with_row, rows_of, IsEntry, outgoing, rows_of-append,
}
use at_protocol_infrastructu.Relay.EndToEnd.{carry, Ready, Carried, frame_reaches_subscribers}

-- A frame, the event that it becomes, and the times of its way.
pub record Trip : Type 0 where
  pub frame : StreamEvent
  pub event : Event
  pub duration : Time
  pub at : Time
  pub now : String

-- The channels of the subscribers after one message and after several.
abbrev pub delivered_all : List Object → List (ℕ × Client) → (ℕ → Chan Object) → ℕ → Chan Object
delivered_all [] cs f = f
delivered_all (m ∷ rest) cs f = delivered_all rest cs (delivered m cs f)

-- The cursor of a client behind the trips.
abbrev pub last_seq : ℤ → List Trip → ℤ
last_seq z [] = z
last_seq z (x ∷ rest) = last_seq x.event.seq rest

-- The messages of the entries, each at the time of its trip.
abbrev pub messages : List Entry → List Trip → List Object
messages [] trips = []
messages (e ∷ es) [] = []
messages (e ∷ es) (x ∷ xs) = outgoing (item e, x.now) ∷ messages es xs

module _ (p : Postgres) (i : Indigo) (extract : Bytes → String → String → String) where
  abbrev pub carry_all : ℕ → PdsClient → Pool p i → List Trip → Outcome (PdsClient × Pool p i)
  carry_all k c q [] = running (c, q)
  carry_all k c q (x ∷ rest) = do
    (c', t) ← carry p i extract k x.duration x.at x.now c q x.frame
    carry_all k c' t rest

  abbrev pub Becomes : String → Trip → Type 0
  Becomes host x =
      (x.frame.error ≡ none) × (to_event extract host x.at x.frame ≡ running (some x.event))

  module _ (l : Laws p) where
    -- What became of the events, one entry for each.
    pub record CarriedAll (z : ℤ) (q : Pool p i) (trips : List Trip) (c : PdsClient) (t : Pool p i)
        : Type 0 where
      pub cursor_then : c.cursor ≡ last_seq z trips
      pub entries : List Entry
      pub events : map (λ e. e.event) entries ≡ map (λ x. x.event) trips
      pub facts : All IsEntry entries
      pub table : l.rows t.app.db ≡ l.rows q.app.db ++ rows_of entries
      pub same_subscribers : t.app.firehose.clients ≡ q.app.firehose.clients
      pub reached :
          (j : ℕ)
          → t.app.firehose.sends j
            ≡ delivered_all (messages entries trips) q.app.firehose.clients q.app.firehose.sends j
      pub ready : Ready p i extract l t

    first-CarriedAll :
        (host : String) (z : ℤ) (q t u : Pool p i) (c d : PdsClient) (x : Trip) (rest : List Trip)
        → Carried p i extract l host q x.event x.now c t
        → CarriedAll c.cursor t rest d u
        → CarriedAll z q (x ∷ rest) d u
    first-CarriedAll host z q t u c d x rest one more =
        let e : Entry = record { event = x.event; seq = one.seq; row = one.row } in
        let ms : List Object = messages more.entries rest in
        let all : t.app.firehose.sends
            ≡ delivered (outgoing (item e, x.now)) q.app.firehose.clients q.app.firehose.sends =
          λ v j. one.reached j v in
        record {
          cursor_then = more.cursor_then ∙ ap (λ y. last_seq y rest) one.cursor_then;
          entries = e ∷ more.entries;
          events = ap (λ es. x.event ∷ es) more.events;
          facts = (one.entered, more.facts);
          table =
              more.table
              ∙ ap (λ r. r ++ rows_of more.entries) one.table
              ∙ append_assoc (l.rows q.app.db) (with_row one.row []) (rows_of more.entries)
              ∙ ap (λ r. l.rows q.app.db ++ r) (sym (rows_of-append (e ∷ []) more.entries));
          same_subscribers = more.same_subscribers ∙ one.same_subscribers;
          reached = λ j.
              more.reached j
              ∙ ap (λ cs. delivered_all ms cs t.app.firehose.sends j) one.same_subscribers
              ∙ ap (λ f. delivered_all ms q.app.firehose.clients f j) all;
          ready = more.ready;
        }

    -- Let frames without an error each become an event, while the channel of events is open and
    -- empty and has a capacity, the workers wait, the cache of host ids is coherent, and the
    -- firehose server runs, has the invariant and nothing queued. If for one frame after the other
    -- the client handles it and sends the event on, one worker runs a round and the server takes
    -- one message, this goes without a panic, whatever verification and the store answer, and ends
    -- in such a state again. Then the cursor of the client is the number of the last event, and
    -- the table has one more row for each event that was stored, in their order; the subscribers
    -- are the same, each of them was handed the messages of all the events in their order, each
    -- under the number of its row if that is positive and that of the event otherwise, and has
    -- those at the end of its buffer for which there was room; and no other channel changed.
    pub frames_reach_subscribers :
        (k : ℕ) (trips : List Trip) (c : PdsClient) (q : Pool p i)
        → All (Becomes c.hostname) trips
        → Ready p i extract l q
        → (x : PdsClient × Pool p i) × (carry_all k c q trips ≡ running x)
          × CarriedAll c.cursor q trips x.0 x.1
    frames_reach_subscribers k [] c q become y = (
      (c, q),
      refl,
      record {
        cursor_then = refl;
        entries = [];
        events = refl;
        facts = tt;
        table = sym (append-nil _);
        same_subscribers = refl;
        reached = λ j. refl;
        ready = y;
      },
    )
    frames_reach_subscribers k (x ∷ rest) c q become y =
        let ((c', t), ran, one) =
          frame_reaches_subscribers p i extract l k x.duration x.at x.now c q x.frame x.event
            become.0.0 become.0.1 y in
        let (end, went, more) =
          frames_reach_subscribers k rest c' t
            (subst (λ h. All (Becomes h) rest) (sym one.same_host) become.1) one.ready in
        (end, rw ran went, first-CarriedAll c.hostname c.cursor q t end.1 c' end.0 x rest one more)

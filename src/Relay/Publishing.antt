-- ===== src/Relay/Publishing.antt =====
-- An event that is stored is published under the sequence number of its row.
use at_protocol_infrastructu.Prelude.{
  ℕ, List, ◌+◌, ◌≡◌, refl, ap, subst, sym, ◌⊎◌, ◌∙◌, true, false, Option, none, some, [], ◌∷◌, ◌++◌,
  String, ltb, length, inl, inr, Bool-cases, if◌then◌else◌,
}
use at_protocol_infrastructu.Prelude.Result.{Result, ok, err}
use at_protocol_infrastructu.Prelude.Int.{ℤ, pos, ltb_ℤ}
use at_protocol_infrastructu.Channel.{Chan, running, try_send_room, try_send_full}
use at_protocol_infrastructu.Ingest.Event.{Event, Time}
use at_protocol_infrastructu.Verify.{Indigo}
use at_protocol_infrastructu.Storage.Database.{DbError, Postgres, Laws, row_of}
use at_protocol_infrastructu.Storage.Stores.{HostIds}
use at_protocol_infrastructu.Storage.Events.{IsCoherent, Stored, store_event-Stored}
use at_protocol_infrastructu.Firehose.Message.{Object, marshal, message_with_seq, event_to_message}
use at_protocol_infrastructu.Firehose.Server.{Server, offer}
use at_protocol_infrastructu.Relay.{
  App, row_for, published, stored, event_handler, publish, store, recorded, seq_after, gauge_after,
  verified,
}

-- `offer` on an open channel with room.
pub offer_room :
    (s : Server) (m : _)
    → s.broadcast.closed ≡ false
    → ltb (length s.broadcast.buffer) s.broadcast.cap ≡ true
    → (t : Server) × (offer s m ≡ running t)
      × (t.broadcast.buffer ≡ s.broadcast.buffer ++ m ∷ [])
      × (t.broadcast.closed ≡ false)
      × (t.broadcast.cap ≡ s.broadcast.cap)
unfolding offer
offer_room s m o room = rw (try_send_room s.broadcast m o room) (_, refl, refl, o, refl)

-- What a broadcast leaves in the channel's buffer: a full channel drops the message.
abbrev pub offered : Chan Object → Object → List Object
offered ch m = if ltb (length ch.buffer) ch.cap then ch.buffer ++ m ∷ [] else ch.buffer

-- `offer` on an open channel.
pub offer_open :
    (s : Server) (m : Object)
    → s.broadcast.closed ≡ false
    → (t : Server) × (offer s m ≡ running t)
      × (t.broadcast.buffer ≡ offered s.broadcast m)
      × (t.broadcast.closed ≡ false)
      × (t.broadcast.cap ≡ s.broadcast.cap)
unfolding offer
offer_open s m o = elim (Bool-cases (ltb (length s.broadcast.buffer) s.broadcast.cap)) [
  | inl room ↦ rw (try_send_room s.broadcast m o room, room) (_, refl, refl, o, refl)
  | inr full ↦ rw (try_send_full s.broadcast m o full, full) (s, refl, refl, o, refl)
]

-- The number under which an event goes out: that of its row, or its own where there is no row.
abbrev pub number : Event → ℤ → ℤ
number event seq = if ltb_ℤ (pos 0) seq then seq else event.seq

pub published_lem :
    (event : Event) (seq : ℤ) (now : String)
    → published event seq now ≡ message_with_seq event (number event seq) now
unfolding published message_with_seq event_to_message
published_lem event seq now = elim (Bool-cases (ltb_ℤ (pos 0) seq)) [
  | inl row ↦ rw row refl
  | inr own ↦ rw own refl
]

module _ (p : Postgres) (i : Indigo) (l : Laws p) where
  -- The store's cache of host ids agrees with the table; without a store there is none.
  abbrev pub Coherent : Option HostIds → p.State → Type 0
  Coherent none db = Unit
  Coherent (some ids) db = IsCoherent p l ids db

  -- One more row for the event, which has the number `seq`; or no row more, and `seq` is 0.
  abbrev pub Persisted : Event → ℤ → p.State → p.State → Type 0
  Persisted event seq s t =
      ((host_id : ℕ) × (at : Time) × (l.id_of t event.host ≡ some host_id)
        × (l.rows t ≡ l.rows s ++ row_of (row_for event host_id) seq at ∷ []))
      ⊎ ((seq ≡ pos 0) × (l.rows t ≡ l.rows s))

  -- What the fourth phase leaves.
  pub record Kept (a : App p i) (event : Event) (x : ℤ × App p i) : Type 0 where
    pub same_firehose : x.1.firehose ≡ a.firehose
    pub same_count : x.1.event_count ≡ a.event_count
    pub persisted : Persisted event x.0 a.db x.1.db
    pub coherent : Coherent x.1.event_store x.1.db

  recorded-Kept :
      (a : App p i) (event : Event)
      → (r : Result DbError ℤ) (ids : HostIds) (t : p.State)
      → Stored p l event.host (row_for event) a.db (r, ids, t)
      → Kept a event (recorded p i a (r, ids, t))
  unfolding recorded seq_after gauge_after
  recorded-Kept a event (ok q) ids t st = record {
    same_firehose = refl;
    same_count = refl;
    persisted = inl (st.added q refl);
    coherent = st.coherent;
  }
  recorded-Kept a event (err e) ids t st = record {
    same_firehose = refl;
    same_count = refl;
    persisted = inr (refl, st.unchanged e refl);
    coherent = st.coherent;
  }

  store-Kept :
      (a : App p i) (event : Event) (cache : Option HostIds)
      → a.event_store ≡ cache
      → Coherent cache a.db
      → Kept a event (store p i a event cache)
  unfolding store
  store-Kept a event none e c = record {
    same_firehose = refl;
    same_count = refl;
    persisted = inr (refl, refl);
    coherent = subst (λ o. Coherent o a.db) (sym e) c;
  }
  store-Kept a event (some ids) e c =
      recorded-Kept a event _ _ _ (store_event-Stored p l event.host (row_for event) ids a.db c)

  -- The state in which the fourth phase begins.
  abbrev pub checked : App p i → Event → Time → App p i
  checked a event duration = record a {
    event_count = a.event_count + 1;
    pipeline = verified p i a.pipeline event duration;
  }

  pub stored-Kept :
      (a : App p i) (event : Event) (duration : Time)
      → Coherent a.event_store a.db
      → Kept (checked a event duration) event (stored p i a event duration)
  unfolding stored
  stored-Kept a event duration c = store-Kept (checked a event duration) event a.event_store refl c

  -- What the handler leaves: the row if there is one, and the message that carries its number at
  -- the end of the channel to the subscribers.
  pub record Published (a : App p i) (event : Event) (now : String) (b : App p i) : Type 0 where
    pub seq : ℤ
    pub persisted : Persisted event seq a.db b.db
    pub queued :
        b.firehose.broadcast.buffer
        ≡ offered a.firehose.broadcast (marshal (message_with_seq event (number event seq) now))
    pub offered_by :
        offer a.firehose (marshal (message_with_seq event (number event seq) now))
        ≡ running b.firehose
    pub still_open : b.firehose.broadcast.closed ≡ false
    pub same_cap : b.firehose.broadcast.cap ≡ a.firehose.broadcast.cap
    pub counted : b.event_count ≡ a.event_count + 1
    pub coherent : Coherent b.event_store b.db

  publish-Published :
      (a : App p i) (event : Event) (now : String) (x : ℤ × App p i) (before : App p i)
      → Kept before event x
      → before.firehose ≡ a.firehose
      → before.event_count ≡ a.event_count + 1
      → before.db ≡ a.db
      → a.firehose.broadcast.closed ≡ false
      → (b : App p i) × (publish p i x.1 event x.0 now ≡ running b) × Published a event now b
  unfolding publish
  publish-Published a event now x before k f c d o =
      let same = k.same_firehose ∙ f in
      let (t, e, q, o', w) =
        offer_open x.1.firehose (marshal (published event x.0 now))
          (ap (λ s. s.broadcast.closed) same ∙ o) in
      (
        record x.1 { firehose = t },
        rw e refl,
        record {
          seq = x.0;
          persisted = subst (λ s. Persisted event x.0 s x.1.db) d k.persisted;
          queued =
              q
              ∙ ap (λ s. offered s.broadcast (marshal (published event x.0 now))) same
              ∙ ap (λ m. offered a.firehose.broadcast (marshal m)) (published_lem event x.0 now);
          offered_by =
              ap (λ s. offer s (marshal (message_with_seq event (number event x.0) now))) (sym same)
              ∙ ap (λ m. offer x.1.firehose (marshal m)) (sym (published_lem event x.0 now))
              ∙ e;
          still_open = o';
          same_cap = w ∙ ap (λ s. s.broadcast.cap) same;
          counted = k.same_count ∙ c;
          coherent = k.coherent;
        },
      )

  -- With a coherent cache of host ids and an open broadcast channel the event handler ends without
  -- a panic, whatever verification and the store answer: it queues one message for the event if
  -- the channel has room and leaves the channel as it is if it is full, and the table has either
  -- one more row, for the event, whose number the message carries if it is positive, or no row
  -- more, and the message carries the number that the event came with.
  pub event_handler-Published :
      (a : App p i) (event : Event) (duration : Time) (now : String)
      → Coherent a.event_store a.db
      → a.firehose.broadcast.closed ≡ false
      → (b : App p i) × (event_handler p i a event duration now ≡ running b)
        × Published a event now b
  unfolding event_handler
  event_handler-Published a event duration now c o =
      publish-Published a event now (stored p i a event duration) (checked a event duration)
        (stored-Kept a event duration c) refl refl refl o

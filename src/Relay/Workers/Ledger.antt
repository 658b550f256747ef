-- ===== src/Relay/Workers/Ledger.antt =====
-- The book that is kept of what the workers took, stored and published.
use mathlib.Core.List.{Perm, append_assoc, append-nil}
use mathlib.Core.List.Perm
use at_protocol_infrastructu.Prelude.{
  ℕ, ◌+◌, ◌≡◌, refl, ap, Option, none, some, List, [], ◌∷◌, ◌++◌, nat_eq, arith, length, map,
  String, inl, inr, subst, false, sym, ◌∙◌, ◌⊎◌, All, length-append, string_eq, Option-cases,
}
use at_protocol_infrastructu.Prelude.Assoc.{lookup, insert, insert-Unique, Unique}
use at_protocol_infrastructu.Prelude.Int.{ℤ, pos}
use at_protocol_infrastructu.Channel.{value, receive_cases}
use at_protocol_infrastructu.Ingest.Event.{Event, Time}
use at_protocol_infrastructu.Verify.{Indigo}
use at_protocol_infrastructu.Storage.Database.{EventRow, Postgres, Laws, row_of}
use at_protocol_infrastructu.Firehose.Message.{Object, marshal, message_with_seq}
use at_protocol_infrastructu.Relay.{row_for}
use at_protocol_infrastructu.Relay.Publishing.{Coherent, number}
use at_protocol_infrastructu.Relay.Workers.{in_hand, Pool, taken, started}
use at_protocol_infrastructu.Relay.Workers.Pending.{
  Item, item_of, event_of, pending, waiting, gather-insert_new,
}

-- What became of an event that a worker put away: its number and its row, if it has one.
pub record Entry : Type 0 where
  pub event : Event
  pub seq : ℤ
  pub row : Option EventRow

abbrev pub item : Entry → Item
item e = (e.event, e.seq)

abbrev pub with_row : Option EventRow → List EventRow → List EventRow
with_row none rest = rest
with_row (some r) rest = r ∷ rest

abbrev pub rows_of : List Entry → List EventRow
rows_of [] = []
rows_of (e ∷ rest) = with_row e.row (rows_of rest)

-- The row is the event's, under the number; without a row the number is 0.
abbrev pub IsEntry : Entry → Type 0
IsEntry e =
    ((host_id : ℕ) × (at : Time) × (e.row ≡ some (row_of (row_for e.event host_id) e.seq at)))
    ⊎ ((e.row ≡ none) × (e.seq ≡ pos 0))

-- The message that goes out for an event at a time.
abbrev pub outgoing : Item × String → Object
outgoing ((event, seq), now) = marshal (message_with_seq event (number event seq) now)

with_row-append :
    (o : Option EventRow) (xs ys : List EventRow) → with_row o xs ++ ys ≡ with_row o (xs ++ ys)
with_row-append none xs ys = refl
with_row-append (some r) xs ys = refl

pub rows_of-append : (xs ys : List Entry) → rows_of (xs ++ ys) ≡ rows_of xs ++ rows_of ys
rows_of-append [] ys = refl
rows_of-append (x ∷ xs) ys =
    ap (with_row x.row) (rows_of-append xs ys)
    ∙ sym (with_row-append x.row (rows_of xs) (rows_of ys))

snoc_front {ℓ} :
    {A : Type ℓ} (xs : List A) (y : A) (ys : List A) → xs ++ (y ∷ ys) ≡ (xs ++ y ∷ []) ++ ys
snoc_front xs y ys = sym (append_assoc xs (y ∷ []) ys)

pub perm-snoc {ℓ} :
    {A : Type ℓ} (xs ys zs : List A) (x : A)
    → Perm xs (ys ++ zs)
    → Perm (xs ++ x ∷ []) (ys ++ (zs ++ x ∷ []))
perm-snoc xs ys zs x h =
    subst (Perm (xs ++ x ∷ [])) (append_assoc ys zs (x ∷ [])) (Perm.append_right (x ∷ []) h)

pub perm-move {ℓ} :
    {A : Type ℓ} (xs ys zs ws : List A) (x : A)
    → Perm xs (ys ++ zs)
    → Perm zs (x ∷ ws)
    → Perm xs ((ys ++ x ∷ []) ++ ws)
perm-move xs ys zs ws x h m =
    Perm.trans h (subst (Perm (ys ++ zs)) (snoc_front ys x ws) (Perm.append_left ys m))

pub All-snoc :
    (es : List Entry) (e : Entry) → All IsEntry es → IsEntry e → All IsEntry (es ++ e ∷ [])
All-snoc [] e a h = (h, tt)
All-snoc (x ∷ es) e a h = (a.0, All-snoc es e a.1 h)

module _ (p : Postgres) (i : Indigo) (l : Laws p) where
  -- Between an idle pool `s` and a later one `t`: what was taken, stored and published since.
  pub record Ledger (s t : Pool p i) : Type 0 where
    pub arrived : List Event
    pub stored_events : List Entry
    pub sent : List (Item × String)
    pub entries : All IsEntry stored_events
    pub queue : s.manager.event_chan.buffer ≡ arrived ++ t.manager.event_chan.buffer
    pub in_hands : Perm arrived (map (λ e. e.event) stored_events ++ waiting t.busy)
    pub size : length arrived ≡ length stored_events + length (waiting t.busy)
    pub table : l.rows t.app.db ≡ l.rows s.app.db ++ rows_of stored_events
    pub messages :
        t.app.firehose.broadcast.buffer ≡ s.app.firehose.broadcast.buffer ++ map outgoing sent
    pub matched : Perm (map item stored_events) (map (λ m. m.0) sent ++ pending t.busy)
    pub balance : length stored_events ≡ length sent + length (pending t.busy)
    pub still_open : t.app.firehose.broadcast.closed ≡ false
    pub same_cap : t.app.firehose.broadcast.cap ≡ s.app.firehose.broadcast.cap
    pub coherent : Coherent p i l t.app.event_store t.app.db
    pub unique : Unique t.busy

  pub start_Ledger :
      (s : Pool p i)
      → s.busy ≡ []
      → s.app.firehose.broadcast.closed ≡ false
      → Coherent p i l s.app.event_store s.app.db
      → Ledger s s
  start_Ledger s idle o c = record {
    arrived = [];
    stored_events = [];
    sent = [];
    entries = tt;
    queue = refl;
    in_hands = rw idle Perm.nil;
    size = rw idle refl;
    table = sym (append-nil _);
    messages = sym (append-nil _);
    matched = rw idle Perm.nil;
    balance = rw idle refl;
    still_open = o;
    same_cap = refl;
    coherent = c;
    unique = rw idle tt;
  }

  taken-Ledger :
      (s q : Pool p i) (k : ℕ) (event : Event) (rest : List Event)
      → Ledger s q
      → lookup k q.busy ≡ none
      → q.manager.event_chan.buffer ≡ event ∷ rest
      → Ledger s (taken p i q k (value event (record q.manager.event_chan { buffer = rest })))
  unfolding taken
  taken-Ledger s q k event rest g idle e =
      let hands : waiting (insert k (in_hand event) q.busy) ≡ waiting q.busy ++ event ∷ [] =
        gather-insert_new event_of k (in_hand event) q.busy idle in
      let held : pending (insert k (in_hand event) q.busy) ≡ pending q.busy =
        gather-insert_new item_of k (in_hand event) q.busy idle ∙ append-nil (pending q.busy) in
      record {
        arrived = g.arrived ++ event ∷ [];
        stored_events = g.stored_events;
        sent = g.sent;
        entries = g.entries;
        queue = g.queue ∙ ap (λ r. g.arrived ++ r) e ∙ snoc_front g.arrived event rest;
        in_hands = rw hands (
            perm-snoc g.arrived (map (λ e. e.event) g.stored_events) (waiting q.busy) event
              g.in_hands);
        size = omega (
          arith,
          g.size,
          ap length hands,
          length-append g.arrived (event ∷ []),
          length-append (waiting q.busy) (event ∷ []),
        );
        table = g.table;
        messages = g.messages;
        matched = rw held g.matched;
        balance = rw held g.balance;
        still_open = g.still_open;
        same_cap = g.same_cap;
        coherent = g.coherent;
        unique = insert-Unique k (in_hand event) q.busy g.unique;
      }

  pub started-Ledger :
      (s q : Pool p i) (k : ℕ) → Ledger s q → Ledger s (started p i q k (lookup k q.busy))
  unfolding started
  started-Ledger s q k g = elim (Option-cases (lookup k q.busy)) [
    | inl idle ↦ rw idle (elim (receive_cases q.manager.event_chan) [
      | inl e ↦ rw e g
      | inr (inl e) ↦ rw e g
      | inr (inr (event, rest, queued, e)) ↦ rw e (taken-Ledger s q k event rest g idle queued)
    ])
    | inr (phase, e) ↦ rw e g
  ]

-- ===== src/Relay/Workers/Unstored.antt =====
-- What becomes of the events that are queued when the relay is told to stop.
use mathlib.Core.List.{
  Perm, Mem, not-mem-nil, mem-cons, mem-cons_self, mem-cons_of_mem, append_cancel_left, append-nil,
  map-map,
}
use mathlib.Core.List.Perm
use mathlib.Core.Logic.Or
use native.Mathlib.Nat.{ℕ_set}
use at_protocol_infrastructu.Prelude.{
  ◌+◌, ◌≤◌, ◌≡◌, refl, ap, List, [], ◌∷◌, ◌++◌, map, arith, length, String, inl, inr, false, sym,
  subst, ◌∙◌, All,
}
use at_protocol_infrastructu.Prelude.Int.{ℤ, pos}
use at_protocol_infrastructu.Channel.{running}
use at_protocol_infrastructu.Ingest.Event.{Event}
use at_protocol_infrastructu.Verify.{Indigo}
use at_protocol_infrastructu.Storage.Database.{Postgres, Laws, EventRow}
use at_protocol_infrastructu.Storage.Cancelled.{IsCancelled}
use at_protocol_infrastructu.Firehose.Message.{Object, marshal, message_with_seq}
use at_protocol_infrastructu.Relay.Publishing.{Coherent}
use at_protocol_infrastructu.Relay.Workers.{Action, Pool, run_all}
use at_protocol_infrastructu.Relay.Workers.Pending.{Item, pending, waiting}
use at_protocol_infrastructu.Relay.Workers.Ledger.{
  Entry, item, rows_of, with_row, IsEntry, outgoing, Ledger,
}
use at_protocol_infrastructu.Relay.Workers.Rounds.{run_all-Ledger}
use at_protocol_infrastructu.Relay.Workers.Cancelled.{run_all_db}

ℤ_set : IsSet ℤ
ℤ_set = hlevel ℕ_set

-- The message that carries the number which the event came with.
abbrev pub own_message : Event × String → Object
own_message (event, now) = marshal (message_with_seq event event.seq now)

abbrev told_of : Item × String → Event × String
told_of m = (m.0.0, m.1)

unstored :
    (e : Entry) (rest : List EventRow)
    → IsEntry e
    → with_row e.row rest ≡ []
    → (e.seq ≡ pos 0) × (rest ≡ [])
unstored e rest (inl (h, at, q)) w = absurd (cc (ap (λ r. with_row r rest) (sym q) ∙ w))
unstored e rest (inr (q, z)) w = (z, ap (λ r. with_row r rest) (sym q) ∙ w)

unstored_item :
    (es : List Entry) (x : Item)
    → All IsEntry es
    → rows_of es ≡ []
    → Mem x (map item es)
    → x.1 ≡ pos 0
unstored_item [] x a w m = absurd (not-mem-nil m)
unstored_item (e ∷ es) x a w m =
    let (z, w') = unstored e (rows_of es) a.0 w in
    Or.elim (ℤ_set x.1 (pos 0)) (mem-cons.0 m) (λ q. ap (λ y. y.1) q ∙ z)
      (unstored_item es x a.1 w')

renumbered :
    (sent : List (Item × String))
    → ((x : Item) → Mem x (map (λ m. m.0) sent) → x.1 ≡ pos 0)
    → map outgoing sent ≡ map own_message (map told_of sent)
renumbered [] h = refl
renumbered (((event, seq), now) ∷ rest) h =
    let z : seq ≡ pos 0 = h (event, seq) mem-cons_self in
    rw z (
      ap (λ ms. own_message (event, now) ∷ ms)
        (renumbered rest (λ x m. h x (mem-cons_of_mem (event, seq) m))))

module _ (p : Postgres) (i : Indigo) (l : Laws p) (d : IsCancelled p) where
  told_unstored :
      (s t : Pool p i)
      → Ledger p i l s t
      → t.app.db ≡ s.app.db
      → t.busy ≡ []
      → t.manager.event_chan.buffer ≡ []
      → (told : List (Event × String)) × Perm s.manager.event_chan.buffer (map (λ m. m.0) told)
        × (t.app.firehose.broadcast.buffer
            ≡ s.app.firehose.broadcast.buffer ++ map own_message told)
  told_unstored s t g same idle empty =
      let none_stored : rows_of g.stored_events ≡ [] =
        append_cancel_left (l.rows s.app.db) (rows_of g.stored_events) []
          (sym g.table ∙ ap l.rows same ∙ sym (append-nil _)) in
      let matched : Perm (map item g.stored_events) (map (λ m. m.0) g.sent) =
        subst (Perm (map item g.stored_events))
          (ap (λ b. map (λ m. m.0) g.sent ++ pending b) idle ∙ append-nil _) g.matched in
      let arrived : s.manager.event_chan.buffer ≡ g.arrived =
        g.queue ∙ ap (λ b. g.arrived ++ b) empty ∙ append-nil g.arrived in
      let put_away : Perm g.arrived (map (λ e. e.event) g.stored_events) =
        subst (Perm g.arrived)
          (ap (λ b. map (λ e. e.event) g.stored_events ++ waiting b) idle ∙ append-nil _)
          g.in_hands in
      let fates : Perm (map (λ e. e.event) g.stored_events) (map (λ m. m.0.0) g.sent) =
        subst (λ xs. Perm xs (map (λ m. m.0.0) g.sent)) (map-map (λ x. x.0) item g.stored_events)
          (subst (Perm (map (λ x. x.0) (map item g.stored_events)))
            (map-map (λ x. x.0) (λ m. m.0) g.sent) (Perm.map (λ x. x.0) matched)) in
      (
        map told_of g.sent,
        rw (arrived, map-map (λ (m : Event × String). m.0) told_of g.sent)
            (Perm.trans put_away fates),
        g.messages
            ∙ ap (λ ms. s.app.firehose.broadcast.buffer ++ ms)
                (renumbered g.sent (λ x m.
                  unstored_item g.stored_events x g.entries none_stored
                    ((Perm.mem_iff matched).1 m))),
      )

  -- While every statement of the database fails with the error of a cancelled context: from a pool
  -- whose workers all wait, with an open channel to the subscribers that has room for what is
  -- queued and a coherent cache of host ids, every interleaving of the steps of the workers that
  -- ends with all of them waiting and the queue empty leaves the database as it was, so that no
  -- event is stored and no cursor saved, and has broadcast each of the queued events once, in some
  -- order, under the number that it came with.
  pub run_all-unstored :
      (s t : Pool p i) (actions : List Action)
      → s.busy ≡ []
      → s.app.firehose.broadcast.closed ≡ false
      → Coherent p i l s.app.event_store s.app.db
      → length s.app.firehose.broadcast.buffer + length s.manager.event_chan.buffer
        ≤ s.app.firehose.broadcast.cap
      → run_all p i s actions ≡ running t
      → t.busy ≡ []
      → t.manager.event_chan.buffer ≡ []
      → (t.app.db ≡ s.app.db)
        × ((told : List (Event × String)) × Perm s.manager.event_chan.buffer (map (λ m. m.0) told)
            × (t.app.firehose.broadcast.buffer
                ≡ s.app.firehose.broadcast.buffer ++ map own_message told))
  run_all-unstored s t actions idle o c room ran idle' empty =
      let same = run_all_db p i d s t actions ran in
      let (t', ran', g) = run_all-Ledger p i l s actions idle o c room in
      (same, told_unstored s t (subst (Ledger p i l s) (equal (sym ran' ∙ ran)) g) same idle' empty)
    where
      equal : {x y : Pool p i} → running x ≡ running y → x ≡ y
      equal w = ground arith

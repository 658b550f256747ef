-- ===== src/Relay/Workers/Overtaking.antt =====
-- What two workers can do to the cursors: one may save a cursor that is past an event which the
-- other still has in hand.
use text.Mathlib.TextEquality.{eq_iff}
use at_protocol_infrastructu.Prelude.{
  ℕ, ◌≡◌, refl, ap, Option, some, List, [], ◌∷◌, ◌++◌, nat_eq, arith, String, ◌==◌, subst, true,
  false, sym, ◌∙◌, string_eq,
}
use at_protocol_infrastructu.Prelude.Assoc.{lookup, insert}
use at_protocol_infrastructu.Prelude.Result.{ok}
use at_protocol_infrastructu.Prelude.Int.{ℤ}
use at_protocol_infrastructu.Channel.{Chan, running, value}
use at_protocol_infrastructu.Ingest.Event.{Event, Time}
use at_protocol_infrastructu.Ingest.Manager.{process_event, save_checkpoint, is_checkpoint}
use at_protocol_infrastructu.Verify.{Indigo}
use at_protocol_infrastructu.Storage.Database.{EventRow, Postgres, Laws}
use at_protocol_infrastructu.Storage.Stores.{HostIds, save_cursor}
use at_protocol_infrastructu.Storage.Saving.{save_cursor-rows}
use at_protocol_infrastructu.Storage.Cursors.{save_cursor_lem}
use at_protocol_infrastructu.Relay.{App, event_handler}
use at_protocol_infrastructu.Relay.Publishing.{Coherent, Published, event_handler-Published}
use at_protocol_infrastructu.Relay.Workers.{
  in_hand, take_event, Pool, taken, run_all, cursors, app_cursors,
}
use at_protocol_infrastructu.Relay.Workers.Alone.{processed, run_all-process_event}
use at_protocol_infrastructu.Relay.Workers.Ledger.{with_row, IsEntry}
use at_protocol_infrastructu.Relay.Workers.Storing.{IsEntry-of}
use at_protocol_infrastructu.Relay.Workers.InTurn.{round}
use at_protocol_infrastructu.Relay.Workers.Taking.{received, run_all-cons, take_step}

module _ (p : Postgres) (i : Indigo) (l : Laws p) where
  handled-Published :
      (a b : App p i) (event : Event) (duration : Time) (now : String)
      → Coherent p i l a.event_store a.db
      → a.firehose.broadcast.closed ≡ false
      → event_handler p i a event duration now ≡ running b
      → Published p i l a event now b
  handled-Published a b event duration now c o ran =
      let (b', ran', out) = event_handler-Published p i l a event duration now c o in
      subst (Published p i l a event now) (same (sym ran' ∙ ran)) out
    where
      same : {x y : App p i} → running x ≡ running y → x ≡ y
      same w = ground arith

  checkpoint_db :
      (b : App p i) (event : Event) (ids : HostIds)
      → b.event_store ≡ some ids
      → is_checkpoint event.seq ≡ true
      → (save_checkpoint (cursors p i b.event_store) event b).db
        ≡ (save_cursor p event.host event.seq b.db).1
  unfolding save_checkpoint cursors app_cursors
  checkpoint_db b event ids on at = rw (on, at) refl

  -- Two workers wait, the channel to the subscribers is open, the cache of host ids is coherent,
  -- and the second queued event has a number at which a cursor is saved: if the first worker takes
  -- an event, and the second then takes the next one and finishes its round, in which the store is
  -- there and the cursor is saved without an error, then the cursor of the host of the second
  -- event is the number of that event, while the first worker still has its event in hand and the
  -- table has at most one row more, for the second event.
  pub cursor_overtakes :
      (q : Pool p i) (k j : ℕ) (d : Time) (now : String) (e f : Event) (rest : List Event)
      → (b : App p i) (ids : HostIds) → q.busy ≡ []
      → (k == j) ≡ false
      → q.manager.event_chan.buffer ≡ e ∷ f ∷ rest
      → q.app.firehose.broadcast.closed ≡ false
      → Coherent p i l q.app.event_store q.app.db
      → event_handler p i q.app f d now ≡ running b
      → b.event_store ≡ some ids
      → is_checkpoint f.seq ≡ true
      → (save_cursor p f.host f.seq b.db).0 ≡ ok tt
      → (t : Pool p i) × (run_all p i q (take_event k ∷ round j d now) ≡ running t)
        × (l.cursor_of t.app.db f.host ≡ some f.seq)
        × (lookup k t.busy ≡ some (in_hand e))
        × ((seq : ℤ) × (row : Option EventRow) × IsEntry
              (record { event = f; seq = seq; row = row })
            × (l.rows t.app.db ≡ l.rows q.app.db ++ with_row row []))
  unfolding lookup insert taken process_event
  cursor_overtakes q k j d now e f rest b ids idle ne queue o c ran on at saves =
      let ch : Chan Event = record q.manager.event_chan { buffer = f ∷ rest } in
      let one : Pool p i = taken p i q k (value e ch) in
      let busy : one.busy ≡ (k, in_hand e) ∷ [] = ap (insert k (in_hand e)) idle in
      let ch' : Chan Event = record ch { buffer = rest } in
      let t : Pool p i = processed p i one f ch' b in
      let out = handled-Published q.app b f d now c o ran in
      let db : t.app.db ≡ (save_cursor p f.host f.seq b.db).1 = checkpoint_db b f ids on at in
      let (row, is, added) = IsEntry-of p i l f out.seq q.app.db b.db out.persisted in
      (
        t,
        run_all-cons p i q one (take_event k) (round j d now)
              (take_step p i q k e (f ∷ rest) (rw idle refl) queue)
            ∙ run_all-process_event p i one j d now f ch' (rw (busy, ne) refl)
                (received one.manager.event_chan f rest refl)
            ∙ rw ran refl,
        ap (λ s. l.cursor_of s f.host) db
            ∙ save_cursor_lem p l f.host f.seq b.db f.host
            ∙ rw (saves, (eq_iff f.host f.host).1 refl) refl,
        ap (lookup k) busy ∙ ground arith,
        (out.seq, row, is, ap l.rows db ∙ save_cursor-rows p l f.host f.seq b.db ∙ added),
      )

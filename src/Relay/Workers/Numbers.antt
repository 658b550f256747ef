-- ===== src/Relay/Workers/Numbers.antt =====
-- Events that are stored one after the other have growing numbers.
use at_protocol_infrastructu.Prelude.{
  ◌≡◌, refl, ap, Option, none, some, List, [], ◌∷◌, ◌++◌, nat_eq, arith, inl, inr, subst, true, ◌∙◌,
  string_eq,
}
use at_protocol_infrastructu.Prelude.Int.{ℤ, pos, ltb_ℤ, ◌<ℤ◌}
use at_protocol_infrastructu.Ingest.Event.{Event, Time}
use at_protocol_infrastructu.Verify.{Indigo}
use at_protocol_infrastructu.Storage.Database.{EventRow, Postgres, Laws, row_of}
use at_protocol_infrastructu.Storage.Stores.{HostIds}
use at_protocol_infrastructu.Storage.Sequence.{IsAscending, store_event-IsAscending}
use at_protocol_infrastructu.Relay.{App, row_for, stored, store, recorded}
use at_protocol_infrastructu.Relay.Publishing.{Coherent, Persisted, stored-Kept, checked}

-- The last of ascending rows has a greater number than the one before it.
last_two :
    (rs : List EventRow) (a b : EventRow) → IsAscending ((rs ++ a ∷ []) ++ b ∷ []) → a.seq <ℤ b.seq
last_two [] a b h = h.0.0
last_two (r ∷ rs) a b h = last_two rs a b h.1

module _ (p : Postgres) (i : Indigo) (l : Laws p) where
  stored-IsAscending :
      (a : App p i) (event : Event) (duration : Time)
      → IsAscending (l.rows a.db)
      → IsAscending (l.rows (stored p i a event duration).1.db)
  unfolding stored store recorded
  stored-IsAscending a event duration h = at_store a.event_store
    where
      at_store :
          (o : Option HostIds)
          → IsAscending (l.rows (store p i (checked p i l a event duration) event o).1.db)
      at_store none = h
      at_store (some ids) = store_event-IsAscending p l event.host (row_for event) ids a.db h

  -- A store that gave a number has added the row.
  added :
      (event : Event) (seq : ℤ) (s t : p.State)
      → Persisted p i l event seq s t
      → ltb_ℤ (pos 0) seq ≡ true
      → (r : EventRow) × (r.seq ≡ seq) × (l.rows t ≡ l.rows s ++ r ∷ [])
  added event seq s t (inl (h, at, e, q)) m = (row_of (row_for event h) seq at, refl, q)
  added event seq s t (inr (z, q)) m = absurd (ground (arith, z))

  -- Two events that are stored one after the other have growing numbers.
  pub stored_twice :
      (a : App p i) (e f : Event) (d d' : Time)
      → Coherent p i l a.event_store a.db
      → IsAscending (l.rows a.db)
      → ltb_ℤ (pos 0) (stored p i a e d).0 ≡ true
      → ltb_ℤ (pos 0) (stored p i (stored p i a e d).1 f d').0 ≡ true
      → (stored p i a e d).0 <ℤ (stored p i (stored p i a e d).1 f d').0
  stored_twice a e f d d' c h m n =
      let x : ℤ × App p i = stored p i a e d in
      let y : ℤ × App p i = stored p i x.1 f d' in
      let kept = stored-Kept p i l a e d c in
      let kept' = stored-Kept p i l x.1 f d' kept.coherent in
      let (r, r_seq, r_rows) = added e x.0 a.db x.1.db kept.persisted m in
      let (r', r'_seq, r'_rows) = added f y.0 x.1.db y.1.db kept'.persisted n in
      let sorted = stored-IsAscending x.1 f d' (stored-IsAscending a e d h) in
      let low : r.seq <ℤ r'.seq =
        last_two (l.rows a.db) r r'
          (subst IsAscending (r'_rows ∙ ap (λ rs. rs ++ r' ∷ []) r_rows) sorted) in
      subst (λ z. z <ℤ y.0) r_seq (subst (λ z. r.seq <ℤ z) r'_seq low)

-- ===== src/Firehose/Replay/FromDatabase.antt =====
-- A replay that queries the database, while the event store adds to it.
use mathlib.Core.List.{map-append}
use at_protocol_infrastructu.Prelude.{
  ℕ, zero, suc, ◌*◌, ◌<◌, ◌≡◌, refl, ap, ◌∙◌, List, [], ◌∷◌, arith, map, String, take, select,
  length, All, map-take,
}
use at_protocol_infrastructu.Prelude.Result.{ok}
use at_protocol_infrastructu.Prelude.Int.{ℤ, pos, negsuc, ltb_ℤ, ◌<ℤ◌}
use at_protocol_infrastructu.Channel.{Chan}
use at_protocol_infrastructu.Firehose.Message.{Object}
use at_protocol_infrastructu.Ingest.Event.{Time}
use at_protocol_infrastructu.Storage.Database.{EventRow, Postgres, Laws}
use at_protocol_infrastructu.Storage.Stores.{StoredEvent, scan_event, get_events_from_seq}
use at_protocol_infrastructu.Storage.Sequence.{IsAscending}
use at_protocol_infrastructu.Firehose.Replay.{replay_from_cursor}
use at_protocol_infrastructu.Firehose.Replay.Batches.{Ascending, after}
use at_protocol_infrastructu.Firehose.Replay.Extending.{Extends}
use at_protocol_infrastructu.Firehose.Replay.Live.{LiveAnswer, live_answer}

-- The events of a table, as the store hands them out.
abbrev pub events_of : List EventRow → List StoredEvent
events_of = map scan_event

after-events_of :
    (c : ℤ) (rs : List EventRow)
    → after c (events_of rs) ≡ events_of (select (λ r. ltb_ℤ c r.seq) rs)
unfolding scan_event
after-events_of c [] = refl
after-events_of c (r ∷ rs) = ground (arith, after-events_of c rs)

below : ℤ → ℤ
below (pos zero) = negsuc 0
below (pos (suc n)) = pos n
below (negsuc n) = negsuc (suc n)

below-lt : (z : ℤ) → below z <ℤ z
unfolding below
below-lt (pos zero) = omega arith
below-lt (pos (suc n)) = omega arith
below-lt (negsuc n) = omega arith

Ascending-events_of :
    (low : ℤ) (rs : List EventRow)
    → All (λ r. low <ℤ r.seq) rs
    → IsAscending rs
    → Ascending low (events_of rs)
unfolding scan_event
Ascending-events_of low [] h a = tt
Ascending-events_of low (r ∷ rs) h a = (h.0, Ascending-events_of r.seq rs a.0 a.1)

lowest : (rs : List EventRow) → IsAscending rs → (low : ℤ) × Ascending low (events_of rs)
unfolding scan_event
lowest [] a = (pos 0, tt)
lowest (r ∷ rs) a = (below r.seq, (below-lt r.seq, Ascending-events_of r.seq rs a.0 a.1))

module _ (p : Postgres) (l : Laws p) (rfc3339 : Time → String) (found : ℕ → Chan Object) where
  fetched :
      (s : p.State) (c : ℤ) (n : ℕ) (rs : List EventRow)
      → p.select_events c n s ≡ ok rs
      → get_events_from_seq p c n s ≡ ok (take n (after c (events_of (l.rows s))))
  unfolding get_events_from_seq
  fetched s c n rs e =
      rw (e, l.select_lem s c n rs e, after-events_of c (l.rows s))
        (ap ok (map-take scan_event n (select (λ r. ltb_ℤ c r.seq) (l.rows s))))

  -- Over a database that keeps the laws and answers every query, with a table that grows between
  -- the queries of a replay up to one in ascending order, and fuel for one round in a hundred owed
  -- events and one more: the replay comes to one of three ends, and has sent a first part, in
  -- order and without a gap, of the events after the cursor in that last table. It is complete,
  -- and these are at least as many as there were after the cursor when it began; or one of its
  -- sends found the channel of the client open and full; or one found it closed, which is a panic.
  pub replay_from_cursor-database :
      (states : ℕ → p.State) (last : p.State) (fuel : ℕ) (cursor : ℤ)
      → ((r : ℕ) (c : ℤ) → (rs : List EventRow) × (p.select_events c 100 (states r) ≡ ok rs))
      → ((r : ℕ) → Extends (l.rows (states r)) (l.rows (states (suc r))))
      → ((r : ℕ) → Extends (l.rows (states r)) (l.rows last))
      → IsAscending (l.rows last)
      → length (after cursor (events_of (l.rows last))) < fuel * 100
      → LiveAnswer rfc3339 found
          (after cursor (events_of (l.rows (states 0))))
          (after cursor (events_of (l.rows last)))
          (replay_from_cursor rfc3339 found
            (λ r c n. get_events_from_seq p c n (states r))
            fuel
            0
            cursor
            0)
  replay_from_cursor-database states last fuel cursor answered grows bounded asc enough =
      live_answer rfc3339 found (λ r c n. get_events_from_seq p c n (states r))
        (λ r. events_of (l.rows (states r))) (events_of (l.rows last))
        (λ r c. let (rs, e) = answered r c in fetched (states r) c 100 rs e)
        (λ r. scanned _ _ (grows r)) (λ r. scanned _ _ (bounded r)) fuel 0
        (lowest (l.rows last) asc).0 cursor 0 (lowest (l.rows last) asc).1 enough
    where
      scanned : (xs ys : List EventRow) → Extends xs ys → Extends (events_of xs) (events_of ys)
      scanned xs ys (more, e) = (events_of more, ap events_of e ∙ map-append scan_event xs more)

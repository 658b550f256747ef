-- ===== src/Firehose/Replay/Complete.antt =====
-- What a replay sends: the stored events after the cursor, in order, without a gap.
use mathlib.Core.List.{map-append}
use at_protocol_infrastructu.Prelude.{
  ℕ, zero, suc, ◌+◌, ◌-◌, ◌*◌, ◌≤◌, ◌<◌, ◌≡◌, refl, ap, ◌∙◌, sym, subst, ◌⊎◌, inl, inr, none, some,
  List, [], ◌∷◌, ◌++◌, arith, map, String, take, drop, length, length-take, length-drop,
  take-append-drop, take-take, take_all, take-append, map-take,
}
use at_protocol_infrastructu.Prelude.Result.{Result, ok}
use at_protocol_infrastructu.Prelude.Int.{ℤ}
use at_protocol_infrastructu.Channel.{Chan}
use at_protocol_infrastructu.Ingest.Event.{Time}
use at_protocol_infrastructu.Storage.Database.{DbError}
use at_protocol_infrastructu.Storage.Stores.{StoredEvent}
use at_protocol_infrastructu.Firehose.Message.{Object}
use at_protocol_infrastructu.Firehose.Replay.{
  Replayed, Batch, complete, End, wire, send_batch, after_batch, after_fetch, replay_from_cursor,
}
use at_protocol_infrastructu.Firehose.Replay.Sending.{
  SentBatch, StoppedBySend, send_batch-SentBatch, after_batch_cases,
}
use at_protocol_infrastructu.Firehose.Replay.Batches.{
  Ascending, after, last_seq, after-after, after-Ascending, le-last_seq, after-last_seq,
}

-- The event store at rest: each round is answered from the same table.
abbrev pub at_rest : List StoredEvent → ℕ → ℤ → ℕ → Result DbError (List StoredEvent)
at_rest stored round cursor limit = ok (take limit (after cursor stored))

module _ (rfc3339 : Time → String) (found : ℕ → Chan Object) where
  -- A replay that has sent an initial part of the events that it owes, and all of them unless one
  -- of its sends found the channel full or closed.
  pub record Answer (owed : List Object) (r : Replayed) : Type 0 where
    pub count : ℕ
    pub part : r.sent ≡ take count owed
    pub ends : ((r.ending ≡ complete) × (r.sent ≡ owed)) ⊎ StoppedBySend found r.ending

  -- A batch and the answer to the rest make an answer to the whole.
  prepend-Answer :
      (todo : List StoredEvent) (n : ℕ) (sent : List Object) (r : Replayed)
      → sent ≡ map (wire rfc3339) (take n todo)
      → Answer (map (wire rfc3339) (drop n todo)) r
      → Answer (map (wire rfc3339) todo) (record r { sent = sent ++ r.sent })
  prepend-Answer todo n sent r e a =
      let w = wire rfc3339 in
      let split : map w todo ≡ sent ++ map w (drop n todo) =
        ap (map w) (sym (take-append-drop n todo))
        ∙ map-append w (take n todo) (drop n todo)
        ∙ rw e in
      record {
        count = length sent + a.count;
        part = rw (split, a.part) (sym (take-append sent (map w (drop n todo)) a.count));
        ends = elim a.ends [ inl (c, s) ↦ inl (c, rw (split, s)) | inr f ↦ inr f ];
      }

  module _ (todo events : List StoredEvent) (e : take 100 todo ≡ events) (current : ℤ) (b : Batch)
      (s : SentBatch rfc3339 found events current b) where
    -- A send ended it: a part of the batch went out, so a part of what is owed.
    stopped-Answer :
        (c : ℤ) (ending : End)
        → b.stop ≡ some ending
        → Answer
            (map (wire rfc3339) todo)
            (record { sent = b.sent; current_cursor = c; ending = ending })
    stopped-Answer c ending f =
        let (k, cut) = take-take s.count 100 (map (wire rfc3339) todo) in
        record {
          count = k;
          part =
              s.part
              ∙ ap (λ l. take s.count (map (wire rfc3339) l)) (sym e)
              ∙ ap (take s.count) (map-take (wire rfc3339) 100 todo)
              ∙ cut;
          ends = inr (s.stopped_at ending f);
        }

    -- Short: the batch was all that is owed.
    short-Answer :
        (c : ℤ)
        → b.stop ≡ none
        → length events < 100
        → Answer
            (map (wire rfc3339) todo)
            (record { sent = b.sent; current_cursor = c; ending = complete })
    short-Answer c f short =
        let all : events ≡ todo = sym e ∙ take_all 100 todo (rw e short) in
        let sent : b.sent ≡ map (wire rfc3339) todo = (s.whole f).0 ∙ ap (map (wire rfc3339)) all in
        record {
          count = 100;
          part = (s.whole f).0 ∙ ap (map (wire rfc3339)) (sym e) ∙ map-take (wire rfc3339) 100 todo;
          ends = inl (refl, sent);
        }

    after_batch-Answer :
        (next : ℤ → ℕ → Replayed)
        → (b.stop ≡ none
            → 100 ≤ length events
            → Answer (map (wire rfc3339) (drop 100 todo)) (next b.current_cursor b.sends))
        → Answer (map (wire rfc3339) todo) (after_batch events b next)
    after_batch-Answer next again =
        after_batch_cases (Answer (map (wire rfc3339) todo)) events b next
          (stopped-Answer b.current_cursor) (short-Answer b.current_cursor)
          (λ f long.
            prepend-Answer todo 100 b.sent (next b.current_cursor b.sends)
              ((s.whole f).0 ∙ ap (map (wire rfc3339)) (sym e)) (again f long))

  module _ (stored : List StoredEvent) where
    abbrev replays : ℕ → ℕ → ℤ → ℕ → Replayed
    replays = replay_from_cursor rfc3339 found (at_rest stored)

    abbrev owed : ℤ → List Object
    owed cursor = map (wire rfc3339) (after cursor stored)

    -- With the table at rest, its numbers ascending, and fuel for one round in a hundred owed
    -- events and one more, a replay comes to one of three ends: it is complete and has sent the
    -- stored events after the cursor, all of them in order; or one of its sends found the channel
    -- of the client open and full, or closed, which is a panic, and it has sent a first part of
    -- those events, in order and without a gap.
    pub replay_from_cursor-Answer :
        (fuel round : ℕ) (low cursor : ℤ) (n : ℕ)
        → Ascending low stored
        → length (after cursor stored) < fuel * 100
        → Answer
            (map (wire rfc3339) (after cursor stored))
            (replay_from_cursor rfc3339 found (at_rest stored) fuel round cursor n)
    unfolding replay_from_cursor
    replay_from_cursor-Answer zero round low cursor n asc enough = absurd (omega arith)
    replay_from_cursor-Answer (suc fuel) round low cursor n asc enough =
        round_of (take 100 (after cursor stored)) refl
          (λ c k. replay_from_cursor-Answer fuel (suc round) low c k asc)
      where
        todo_asc : Ascending cursor (after cursor stored)
        todo_asc = after-Ascending low cursor stored asc

        round_of :
            (batch : List StoredEvent)
            → take 100 (after cursor stored) ≡ batch
            → ((c : ℤ) (k : ℕ)
                → length (after c stored) < fuel * 100
                → Answer
                    (map (wire rfc3339) (after c stored))
                    (replay_from_cursor rfc3339 found (at_rest stored) fuel (suc round) c k))
            → Answer (map (wire rfc3339) (after cursor stored)) (
                after_fetch rfc3339 found
                  (ok batch)
                  cursor
                  n
                  (replay_from_cursor rfc3339 found (at_rest stored) fuel (suc round)))
        round_of [] e again =
            let none_left : [] ≡ after cursor stored =
              sym e ∙ take_all 100 (after cursor stored) (rw e (omega arith)) in
            record { count = 0; part = refl; ends = inl (refl, ap (map (wire rfc3339)) none_left) }
        round_of (x ∷ xs) e again =
            let b = send_batch rfc3339 found (x ∷ xs) cursor n in
            let s = send_batch-SentBatch rfc3339 found (x ∷ xs) cursor n in
            after_batch-Answer (after cursor stored) (x ∷ xs) e cursor b s
              (replay_from_cursor rfc3339 found (at_rest stored) fuel (suc round))
              λ f long.
                let seen : b.current_cursor ≡ last_seq cursor (take 100 (after cursor stored)) =
                  (s.whole f).1 ∙ ap (last_seq cursor) (sym e) in
                let left : after b.current_cursor stored ≡ drop 100 (after cursor stored) =
                  ap (λ c. after c stored) seen
                  ∙ sym (
                      after-after cursor _ stored
                        (le-last_seq cursor 100 (after cursor stored) todo_asc))
                  ∙ after-last_seq cursor 100 (after cursor stored) todo_asc in
                let fewer : length (after b.current_cursor stored)
                    ≡ length (after cursor stored) - 100 =
                  ap length left ∙ length-drop 100 (after cursor stored) in
                let many : 100 ≤ length (after cursor stored) =
                  omega (arith, length-take 100 (after cursor stored), ap length e) in
                subst
                  (λ l. Answer (map (wire rfc3339) l) (
                    replay_from_cursor rfc3339 found (at_rest stored) fuel (suc round)
                      b.current_cursor b.sends))
                  left (again b.current_cursor b.sends (omega (arith, fewer, many)))

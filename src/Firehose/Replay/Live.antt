-- ===== src/Firehose/Replay/Live.antt =====
-- A replay while events are still being stored: each query of `replayFromCursor` may find a longer
-- table than the one before.
use mathlib.Core.List.{append_assoc, map-append}
use at_protocol_infrastructu.Prelude.{
  ℕ, zero, suc, ◌+◌, ◌-◌, ◌*◌, ◌≤◌, ◌<◌, ◌≡◌, refl, ap, ◌∙◌, sym, subst, ◌⊎◌, inl, inr, none, some,
  List, [], ◌∷◌, ◌++◌, arith, map, String, take, drop, length, length-take, length-drop,
  length-append, length-map, take-append-drop, take_all,
}
use at_protocol_infrastructu.Prelude.Result.{Result, ok}
use at_protocol_infrastructu.Prelude.Int.{ℤ}
use at_protocol_infrastructu.Channel.{Chan}
use at_protocol_infrastructu.Ingest.Event.{Time}
use at_protocol_infrastructu.Storage.Database.{DbError}
use at_protocol_infrastructu.Storage.Stores.{StoredEvent}
use at_protocol_infrastructu.Firehose.Message.{Object}
use at_protocol_infrastructu.Firehose.Replay.{
  Replayed, Batch, complete, End, wire, send_batch, after_fetch, replay_from_cursor,
}
use at_protocol_infrastructu.Firehose.Replay.Batches.{Ascending, after, last_seq}
use at_protocol_infrastructu.Firehose.Replay.Sending.{
  SentBatch, StoppedBySend, send_batch-SentBatch, after_batch_cases,
}
use at_protocol_infrastructu.Firehose.Replay.Extending.{
  Extends, take-append_short, select-append, Ascending-part, rest_after,
}

-- `ys` is `xs` with more at the end.
module _ (rfc3339 : Time → String) (found : ℕ → Chan Object) where
  -- A replay that owes at least `start`, where `final` is all that it could ever owe: it has sent a
  -- first part of `final`, with all of `start` in it unless a send found the channel full or closed.
  pub record LiveAnswer (start final : List StoredEvent) (r : Replayed) : Type 0 where
    pub part : Extends r.sent (map (wire rfc3339) final)
    pub ends :
        ((r.ending ≡ complete) × (length start ≤ length r.sent)) ⊎ StoppedBySend found r.ending

  prepend_live :
      (start final start' final' : List StoredEvent) (sent : List Object) (r : Replayed)
      → map (wire rfc3339) final ≡ sent ++ map (wire rfc3339) final'
      → length start ≤ length sent + length start'
      → LiveAnswer start' final' r
      → LiveAnswer start final (record r { sent = sent ++ r.sent })
  prepend_live start final start' final' sent r e h a =
      let (more, q) = a.part in
      record {
        part = (more, e ∙ ap (◌++◌ sent) q ∙ sym (append_assoc sent r.sent more));
        ends = elim a.ends [
          | inl (c, long) ↦ inl (c, omega (arith, length-append sent r.sent))
          | inr f ↦ inr f
        ];
      }

  module _ (now total events : List StoredEvent) (owed : Extends now total)
      (e : take 100 now ≡ events) (current : ℤ) (b : Batch)
      (s : SentBatch rfc3339 found events current b) where
    w : List StoredEvent → List Object
    w = map (wire rfc3339)

    batch_first : Extends events total
    batch_first = (
      drop 100 now ++ owed.0,
      owed.1
          ∙ ap (λ l. l ++ owed.0) (sym (take-append-drop 100 now) ∙ ap (λ l. l ++ drop 100 now) e)
          ∙ append_assoc events (drop 100 now) owed.0,
    )

    wired : Extends (w events) (w total)
    unfolding w
    wired = (w batch_first.0, ap w batch_first.1 ∙ map-append (wire rfc3339) events batch_first.0)

    live_stopped :
        (ending : End)
        → b.stop ≡ some ending
        → LiveAnswer now total
            (record { sent = b.sent; current_cursor = b.current_cursor; ending = ending })
    unfolding w
    live_stopped ending f = record {
      part = (
        drop s.count (w events) ++ wired.0,
        wired.1
            ∙ ap (λ l. l ++ wired.0)
                (sym (take-append-drop s.count (w events))
                  ∙ ap (λ l. l ++ drop s.count (w events)) (sym s.part))
            ∙ append_assoc b.sent (drop s.count (w events)) wired.0,
      );
      ends = inr (s.stopped_at ending f);
    }

    live_short :
        b.stop ≡ none
        → length events < 100
        → LiveAnswer now total
            (record { sent = b.sent; current_cursor = b.current_cursor; ending = complete })
    unfolding w
    live_short f short =
        let whole : events ≡ now = sym e ∙ take_all 100 now (rw e short) in
        let sent : b.sent ≡ w events = (s.whole f).0 in
        record {
          part = (wired.0, wired.1 ∙ ap (λ l. l ++ wired.0) (sym sent));
          ends = inl (
            refl,
            omega (arith, ap length sent, ap length whole, length-map (wire rfc3339) events),
          );
        }

  module _ (fetch : ℕ → ℤ → ℕ → Result DbError (List StoredEvent)) (table : ℕ → List StoredEvent)
      (final : List StoredEvent)
      (answers : (r : ℕ) (c : ℤ) → fetch r c 100 ≡ ok (take 100 (after c (table r))))
      (grows : (r : ℕ) → Extends (table r) (table (suc r)))
      (bounded : (r : ℕ) → Extends (table r) final) where
    abbrev replays : ℕ → ℕ → ℤ → ℕ → Replayed
    replays = replay_from_cursor rfc3339 found fetch

    after-Extends :
        (c : ℤ) (xs ys : List StoredEvent) → Extends xs ys → Extends (after c xs) (after c ys)
    after-Extends c xs ys (more, e) = (after c more, ap (after c) e ∙ select-append _ xs more)

    table_asc : (r : ℕ) (low : ℤ) → Ascending low final → Ascending low (table r)
    table_asc r low a =
        Ascending-part low (table r) (bounded r).0 (subst (Ascending low) (bounded r).1 a)

    -- A whole batch: the next round owes what is left, and what was stored meanwhile.
    module _ (round : ℕ) (low cursor : ℤ) (b : Batch) (asc : Ascending low final)
        (long : 100 ≤ length (after cursor (table round)))
        (sent : b.sent ≡ map (wire rfc3339) (take 100 (after cursor (table round))))
        (moved : b.current_cursor ≡ last_seq cursor (take 100 (after cursor (table round)))) where
      same_head : take 100 (after cursor final) ≡ take 100 (after cursor (table round))
      same_head =
          let owed = after-Extends cursor (table round) final (bounded round) in
          ap (take 100) owed.1 ∙ take-append_short 100 (after cursor (table round)) owed.0 long

      left : after b.current_cursor final ≡ drop 100 (after cursor final)
      left =
          ap (λ c. after c final) (moved ∙ ap (last_seq cursor) (sym same_head))
          ∙ rest_after low cursor final asc

      fewer : length (after b.current_cursor final) ≡ length (after cursor final) - 100
      fewer = ap length left ∙ length-drop 100 (after cursor final)

      live_more :
          (r : Replayed)
          → LiveAnswer (after b.current_cursor (table (suc round))) (after b.current_cursor final) r
          → LiveAnswer
              (after cursor (table round))
              (after cursor final)
              (record r { sent = b.sent ++ r.sent })
      live_more r a =
          let w = map (wire rfc3339) in
          let now : List StoredEvent = after cursor (table round) in
          let total : List StoredEvent = after cursor final in
          let here : after b.current_cursor (table round) ≡ drop 100 now =
            ap (λ c. after c (table round)) moved
            ∙ rest_after low cursor (table round) (table_asc round low asc) in
          let next =
            after-Extends b.current_cursor (table round) (table (suc round)) (grows round) in
          let split : w total ≡ b.sent ++ w (after b.current_cursor final) =
            ap w (sym (take-append-drop 100 total))
            ∙ map-append (wire rfc3339) (take 100 total) (drop 100 total)
            ∙ ap (λ l. w l ++ w (drop 100 total)) same_head
            ∙ ap (λ l. l ++ w (drop 100 total)) (sym sent)
            ∙ ap (λ l. b.sent ++ w l) (sym left) in
          prepend_live now total _ _ b.sent r split
            (omega (
              arith,
              ap length sent,
              length-map (wire rfc3339) (take 100 now),
              length-take 100 now,
              ap length next.1,
              length-append (after b.current_cursor (table round)) next.0,
              ap length here,
              length-drop 100 now,
            ))
            a

    pub live_answer :
        (fuel round : ℕ) (low cursor : ℤ) (n : ℕ)
        → Ascending low final
        → length (after cursor final) < fuel * 100
        → LiveAnswer (after cursor (table round)) (after cursor final) (replays fuel round cursor n)
    unfolding replay_from_cursor
    live_answer zero round low cursor n asc enough = absurd (omega arith)
    live_answer (suc fuel) round low cursor n asc enough = rw (answers round cursor) (
        round_of (take 100 (after cursor (table round))) refl
          (λ c k. live_answer fuel (suc round) low c k asc))
      where
        w : List StoredEvent → List Object
        w = map (wire rfc3339)

        now : List StoredEvent
        now = after cursor (table round)

        owed : Extends now (after cursor final)
        owed = after-Extends cursor (table round) final (bounded round)

        round_of :
            (batch : List StoredEvent)
            → take 100 now ≡ batch
            → ((c : ℤ) (k : ℕ)
                → length (after c final) < fuel * 100
                → LiveAnswer
                    (after c (table (suc round)))
                    (after c final)
                    (replays fuel (suc round) c k))
            → LiveAnswer now
                (after cursor final)
                (after_fetch rfc3339 found (ok batch) cursor n (replays fuel (suc round)))
        round_of [] e again =
            let all : now ≡ [] = sym (take_all 100 now (rw e (omega arith))) ∙ e in
            record {
              part = (w (after cursor final), refl);
              ends = inl (refl, omega (arith, ap length all));
            }
        round_of (x ∷ xs) e again =
            let b = send_batch rfc3339 found (x ∷ xs) cursor n in
            let s = send_batch-SentBatch rfc3339 found (x ∷ xs) cursor n in
            after_batch_cases (LiveAnswer now (after cursor final)) (x ∷ xs) b
              (replays fuel (suc round))
              (live_stopped now (after cursor final) (x ∷ xs) owed e cursor b s)
              (live_short now (after cursor final) (x ∷ xs) owed e cursor b s)
              (λ f long.
                let many : 100 ≤ length now = omega (arith, length-take 100 now, ap length e) in
                let sent = (s.whole f).0 ∙ ap w (sym e) in
                let moved = (s.whole f).1 ∙ ap (last_seq cursor) (sym e) in
                let less = fewer round low cursor b asc many sent moved in
                live_more round low cursor b asc many sent moved _ (
                  again b.current_cursor b.sends
                    (omega (arith, less, ap length owed.1, length-append now owed.0))))

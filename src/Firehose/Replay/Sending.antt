-- ===== src/Firehose/Replay/Sending.antt =====
-- What one batch of a replay sends, and how a round goes on from it.
use at_protocol_infrastructu.Prelude.{
  ℕ, suc, ◌+◌, ◌≤◌, ◌<◌, ◌≡◌, refl, ap, inl, inr, ◌⊎◌, none, some, Option-cases, true, false, arith,
  List, [], ◌∷◌, map, String, ltb, take, length, if_cases, Bool-cases, ltb→lt, ltb→le,
}
use at_protocol_infrastructu.Prelude.Int.{ℤ}
use at_protocol_infrastructu.Channel.{
  running, panicked, Chan, try_send, try_send_room, try_send_full,
}
use at_protocol_infrastructu.Firehose.Message.{Object}
use at_protocol_infrastructu.Ingest.Event.{Time}
use at_protocol_infrastructu.Storage.Stores.{StoredEvent}
use at_protocol_infrastructu.Firehose.Replay.{
  Replayed, Batch, complete, buffer_full, send_panicked, End, wire, send_batch, after_batch,
  prepend,
}
use at_protocol_infrastructu.Firehose.Replay.Batches.{last_seq}

-- The three ways of a send.
try_send_ways :
    (ch : Chan Object) (m : Object)
    → ((t : Chan Object) × (try_send ch m ≡ running (t, true)))
      ⊎ ((try_send ch m ≡ running (ch, false)) × (ch.closed ≡ false) × (ch.cap ≤ length ch.buffer))
      ⊎ ((try_send ch m ≡ panicked) × (ch.closed ≡ true))
unfolding try_send
try_send_ways ch m = elim (Bool-cases ch.closed) [
  | inl c ↦ inr (inr (rw c refl, c))
  | inr o ↦ elim (Bool-cases (ltb (length ch.buffer) ch.cap)) [
    | inl room ↦ inl (_, try_send_room ch m o room)
    | inr full ↦ inr (inl (try_send_full ch m o full, o, ltb→le (length ch.buffer) ch.cap full))
  ]
]

-- A send found the channel open and full, or closed.
abbrev pub StoppedBySend : (ℕ → Chan Object) → End → Type 0
StoppedBySend found ending =
    ((ending ≡ buffer_full)
      × ((i : ℕ) × ((found i).closed ≡ false) × ((found i).cap ≤ length (found i).buffer)))
    ⊎ ((ending ≡ send_panicked) × ((i : ℕ) × ((found i).closed ≡ true)))

module _ (rfc3339 : Time → String) (found : ℕ → Chan Object) where
  -- What one batch sends: all of it, or as many events as went out before a send ended it.
  pub record SentBatch (events : List StoredEvent) (current : ℤ) (b : Batch) : Type 0 where
    pub count : ℕ
    pub part : b.sent ≡ take count (map (wire rfc3339) events)
    pub whole :
        b.stop ≡ none
        → (b.sent ≡ map (wire rfc3339) events) × (b.current_cursor ≡ last_seq current events)
    pub stopped_at : (ending : End) → b.stop ≡ some ending → StoppedBySend found ending

  pub send_batch-SentBatch :
      (events : List StoredEvent) (current : ℤ) (n : ℕ)
      → SentBatch events current (send_batch rfc3339 found events current n)
  unfolding send_batch
  send_batch-SentBatch [] current n = record {
    count = 0;
    part = refl;
    whole = λ h. (refl, refl);
    stopped_at = λ ending h. absurd (cc);
  }
  send_batch-SentBatch (e ∷ rest) current n =
      let more = send_batch-SentBatch rest e.seq (n + 1) in
      elim (try_send_ways (found n) (wire rfc3339 e)) [
        | inl (ch, sent) ↦ rw sent (record {
          count = suc more.count;
          part = ap (◌∷◌ (wire rfc3339 e)) more.part;
          whole = λ h. let (s, c) = more.whole h in (ap (◌∷◌ (wire rfc3339 e)) s, c);
          stopped_at = more.stopped_at;
        })
        | inr (inl (full, o, long)) ↦ rw full (record {
          count = 0;
          part = refl;
          whole = λ h. absurd (cc);
          stopped_at = λ ending h. inl (ground arith, (n, o, long));
        })
        | inr (inr (panics, c)) ↦ rw panics (record {
          count = 0;
          part = refl;
          whole = λ h. absurd (cc);
          stopped_at = λ ending h. inr (ground arith, (n, c));
        })
      ]

-- A property of the three ways on: a send ended it, the batch was short, or another round.
pub after_batch_cases {ℓ} :
    (P : Replayed → Type ℓ) (events : List StoredEvent) (b : Batch) (next : ℤ → ℕ → Replayed)
    → ((ending : End)
        → b.stop ≡ some ending
        → P (record { sent = b.sent; current_cursor = b.current_cursor; ending = ending }))
    → (b.stop ≡ none
        → length events < 100
        → P (record { sent = b.sent; current_cursor = b.current_cursor; ending = complete }))
    → (b.stop ≡ none → 100 ≤ length events → P (prepend b.sent (next b.current_cursor b.sends)))
    → P (after_batch events b next)
after_batch_cases P events b next stops short more = elim (Option-cases b.stop) [
  | inr (ending, e) ↦ rw e (stops ending e)
  | inl e ↦ rw e (
      if_cases P (ltb (length events) 100) _ _ (λ h. short e (ltb→lt (length events) 100 h))
        (λ h. more e (ltb→le (length events) 100 h)))
]

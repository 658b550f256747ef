-- ===== src/GapCheck/Reporting.antt =====
-- What the test client says of the order of the messages.
use at_protocol_infrastructu.Prelude.{
  ℕ, ◌+◌, ◌<◌, ◌≡◌, ◌↔◌, refl, ap, ◌∙◌, sym, Bool, true, false, ◌||◌, Option, none, some, List, [],
  ◌∷◌, ◌++◌, String, map, length, All, arith, nat_eq, Bool-cases, inl, inr,
}
use at_protocol_infrastructu.Prelude.Int.{ℤ}
use at_protocol_infrastructu.Prelude.Result.{Result, ok}
use at_protocol_infrastructu.Ingest.Event.{Bytes}
use at_protocol_infrastructu.GapCheck.{Seen, nothing_seen, check_seq, on_message, on_messages}
use at_protocol_infrastructu.GapCheck.Gaps.{numbered, CountsFrom, IsSeq, on_messages-gaps_iff}
use at_protocol_infrastructu.GapCheck.Client.{
  FirehoseMessage, Line, all_in_order, gap_line, Ending, done, interrupted, timed_out, shown, gaps,
  number_of, read, stopped_by, report, main, url_of,
}

-- Whether a line says that all events were in order.
abbrev pub is_praise : Line → Bool
is_praise all_in_order = true
is_praise _ = false

abbrev pub praised : List Line → Bool
praised [] = false
praised (x ∷ xs) = is_praise x || praised xs

praised-append : (xs ys : List Line) → praised xs ≡ false → praised (xs ++ ys) ≡ praised ys
praised-append [] ys e = refl
praised-append (x ∷ xs) ys e = elim (Bool-cases (is_praise x)) [
  | inl b ↦ absurd (cc (b, e))
  | inr b ↦ rw b (praised-append xs ys (rw b at e))
]

on_message-count : (s : Seen) (m : Option ℤ) → (on_message s m).count ≡ s.count + 1
unfolding on_message check_seq
on_message-count s none = refl
on_message-count s (some z) = refl

on_messages-count :
    (s : Seen) (ms : List (Option ℤ)) → (on_messages s ms).count ≡ s.count + length ms
unfolding on_messages
on_messages-count s [] = omega arith
on_messages-count s (m ∷ rest) =
    omega (arith, on_message-count s m, on_messages-count (on_message s m) rest)

praised-shown :
    (s : Seen) (message : Bytes) (o : Option FirehoseMessage) → praised (shown s message o) ≡ false
unfolding shown
praised-shown s message none = refl
praised-shown s message (some msg) = ground arith

praised-stopped_by : (ending : Ending) (s : Seen) → praised (stopped_by ending s) ≡ false
unfolding stopped_by
praised-stopped_by done s = refl
praised-stopped_by interrupted s = refl
praised-stopped_by timed_out s = refl

praised-gap_line : (es : List (ℤ × ℤ)) → praised (map gap_line es) ≡ false
praised-gap_line [] = refl
praised-gap_line (e ∷ rest) = praised-gap_line rest

praised-gaps_iff :
    (s : Seen) (es : List (ℤ × ℤ)) → 0 < s.count → (praised (gaps s es) ≡ true) ↔ (es ≡ [])
unfolding gaps
praised-gaps_iff s [] h = (λ q. refl, λ q. ground (arith, h))
praised-gaps_iff s (e ∷ rest) h =
    let quiet : praised (map gap_line rest) ≡ false = praised-gap_line rest in
    (λ q. absurd (cc (q, quiet)), λ q. absurd (cc (q)))

praised-report_iff : (s : Seen) → 0 < s.count → (praised (report s) ≡ true) ↔ (s.seq_errors ≡ [])
unfolding report
praised-report_iff s h = praised-gaps_iff s s.seq_errors h

module _ (unmarshal : Bytes → Option FirehoseMessage) where
  abbrev pub numbers : List Bytes → List (Option ℤ)
  numbers = map (λ b. number_of (unmarshal b))

  read-on_messages :
      (s : Seen) (messages : List Bytes)
      → (read unmarshal s messages).0 ≡ on_messages s (numbers messages)
  unfolding read on_messages
  read-on_messages s [] = refl
  read-on_messages s (m ∷ rest) = read-on_messages (on_message s (number_of (unmarshal m))) rest

  praised-read : (s : Seen) (messages : List Bytes) → praised (read unmarshal s messages).1 ≡ false
  unfolding read
  praised-read s [] = refl
  praised-read s (m ∷ rest) =
      let s' = on_message s (number_of (unmarshal m)) in
      praised-append (shown s' m (unmarshal m)) (read unmarshal s' rest).1
        (praised-shown s' m (unmarshal m))
      ∙ praised-read s' rest

  praised-main :
      (args : List String) (dial : String → Result String (Unit {0})) (messages : List Bytes)
      (ending : Ending)
      → dial (url_of args) ≡ ok tt
      → praised (main unmarshal args dial messages ending).0
        ≡ praised (report (on_messages nothing_seen (numbers messages)))
  unfolding main
  praised-main args dial messages ending e =
      let (s, lines) = read unmarshal nothing_seen messages in
      rw (main, e)
        (praised-append lines (stopped_by ending s ++ report s) (praised-read nothing_seen messages)
          ∙ praised-append (stopped_by ending s) (report s) (praised-stopped_by ending s)
          ∙ ap (λ t. praised (report t)) (read-on_messages nothing_seen messages))

  -- If the dial succeeds, and the messages that are read can be parsed, at least one, and have
  -- positive numbers below the largest int64: the test client, whichever way it ends, prints that
  -- all events were in order exactly if their numbers count on by one from the first to the last.
  pub main-praised_iff :
      (args : List String) (dial : String → Result String (Unit {0})) (messages : List Bytes)
      (ending : Ending) (n : ℕ) (ns : List ℕ)
      → dial (url_of args) ≡ ok tt
      → numbers messages ≡ numbered (n ∷ ns)
      → IsSeq n
      → All IsSeq ns
      → (praised (main unmarshal args dial messages ending).0 ≡ true) ↔ CountsFrom n ns
  main-praised_iff args dial messages ending n ns e same a b =
      let s = on_messages nothing_seen (numbered (n ∷ ns)) in
      let said =
        praised-main args dial messages ending e
        ∙ ap (λ ms. praised (report (on_messages nothing_seen ms))) same in
      let (to, from) = on_messages-gaps_iff n ns a b in
      let (clean, says) =
        praised-report_iff s (omega (arith, on_messages-count nothing_seen (numbered (n ∷ ns)))) in
      (λ q. to (clean (sym said ∙ q)), λ c. said ∙ says (from c))

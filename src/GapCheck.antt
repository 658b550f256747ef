-- ===== src/GapCheck.antt =====
-- The sequence check of the firehose's test client (relay/cmd/test-firehose/main.go):
-- what it keeps of the messages that it reads.
pub mod Gaps
pub mod Client
pub mod Reporting
mod Examples
use at_protocol_infrastructu.Prelude.{
  ℕ, zero, suc, ◌+◌, ◌-◌, ◌^◌, Bool, true, false, not, ◌&&◌, Option, none, some, List, [], ◌∷◌,
  ◌++◌, ltb, ◌==◌, if◌then◌else◌,
}
use at_protocol_infrastructu.Prelude.Int.{ℤ, pos, negsuc, ltb_ℤ, int_eq}

-- An error keeps the number that was expected and the one that came.
pub record Seen : Type 0 where
  pub count : ℕ
  pub last_seq : ℤ
  pub seq_errors : List (ℤ × ℤ)

abbrev pub nothing_seen : Seen
nothing_seen = record { count = 0; last_seq = pos 0; seq_errors = [] }

-- `z + 1` in an `int64`.
unfoldable pub next : ℤ → ℤ
next (pos n) = if ltb (n + 1) (2 ^ 63) then pos (n + 1) else negsuc (2 ^ 63 - 1)
next (negsuc zero) = pos 0
next (negsuc (suc n)) = negsuc n

unfoldable pub check_seq : Seen → ℤ → Seen
unfolding next
check_seq s seq = record s {
  seq_errors =
      if ltb_ℤ (pos 0) s.last_seq && not (seq == next s.last_seq) && not (seq == pos 0)
      then s.seq_errors ++ (next s.last_seq, seq) ∷ []
      else s.seq_errors;
  last_seq = if ltb_ℤ (pos 0) seq then seq else s.last_seq;
}

-- One message: its number, if it could be parsed.
unfoldable pub on_message : Seen → Option ℤ → Seen
unfolding check_seq
on_message s none = record s { count = s.count + 1 }
on_message s (some seq) = check_seq (record s { count = s.count + 1 }) seq

unfoldable pub on_messages : Seen → List (Option ℤ) → Seen
unfolding on_message
on_messages s [] = s
on_messages s (m ∷ rest) = on_messages (on_message s m) rest

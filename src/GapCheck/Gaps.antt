-- ===== src/GapCheck/Gaps.antt =====
-- The errors that the test client keeps.
use at_protocol_infrastructu.Prelude.{
  ℕ, ◌+◌, ◌^◌, ◌≤◌, ◌<◌, ◌≡◌, ◌↔◌, refl, Option, none, some, List, [], ◌∷◌, map, length,
  length-append, All, arith,
}
use at_protocol_infrastructu.Prelude.Int.{ℤ, pos, int_eq}
use at_protocol_infrastructu.GapCheck.{Seen, nothing_seen, next, check_seq, on_message, on_messages}

abbrev pub numbered : List ℕ → List (Option ℤ)
numbered = map (λ n. some (pos n))

-- The numbers count on from `p` without a gap.
abbrev pub CountsFrom : ℕ → List ℕ → Type 0
CountsFrom p [] = Unit
CountsFrom p (n ∷ ns) = (n ≡ p + 1) × CountsFrom n ns

-- The numbers of a database: positive, and below the largest `int64`.
abbrev pub IsSeq : ℕ → Type 0
IsSeq n = (0 < n) × (n + 1 < 2 ^ 63)

abbrev errors : Seen → ℕ
errors s = length s.seq_errors

on_message-errors : (s : Seen) (m : Option ℤ) → errors s ≤ errors (on_message s m)
unfolding on_message check_seq
on_message-errors s none = omega arith
on_message-errors s (some z) =
    ground (arith, length-append s.seq_errors ((next s.last_seq, z) ∷ []))

on_messages-errors : (s : Seen) (ms : List (Option ℤ)) → errors s ≤ errors (on_messages s ms)
unfolding on_messages
on_messages-errors s [] = omega arith
on_messages-errors s (m ∷ rest) =
    omega (arith, on_message-errors s m, on_messages-errors (on_message s m) rest)

-- One number after `p`.
one_good :
    (s : Seen) (p n : ℕ)
    → s.last_seq ≡ pos p
    → IsSeq p
    → IsSeq n
    → n ≡ p + 1
    → errors (on_message s (some (pos n))) ≡ errors s
unfolding on_message check_seq next
one_good s p n e a b q = rw (e, q) (ground arith)

one_bad :
    (s : Seen) (p n : ℕ)
    → s.last_seq ≡ pos p
    → IsSeq p
    → IsSeq n
    → errors (on_message s (some (pos n))) ≡ errors s
    → n ≡ p + 1
unfolding on_message check_seq next
one_bad s p n e a b q = ground (arith, length-append s.seq_errors ((next s.last_seq, pos n) ∷ []))

last_seen : (s : Seen) (n : ℕ) → IsSeq n → (on_message s (some (pos n))).last_seq ≡ pos n
unfolding on_message check_seq
last_seen s n b = ground arith

no_more_iff :
    (s : Seen) (p : ℕ) (ns : List ℕ)
    → s.last_seq ≡ pos p
    → IsSeq p
    → All IsSeq ns
    → (errors (on_messages s (numbered ns)) ≡ errors s) ↔ CountsFrom p ns
unfolding on_messages
no_more_iff s p [] e a b = (λ q. tt, λ q. refl)
no_more_iff s p (n ∷ ns) e a b =
    let t = on_message s (some (pos n)) in
    let (to, from) = no_more_iff t n ns (last_seen s n b.0) b.0 b.1 in
    let grows = on_messages-errors t (numbered ns) in
    let grew = on_message-errors s (some (pos n)) in
    (
      λ q. (one_bad s p n e a b.0 (omega arith), to (omega arith)),
      λ c.
          let here : errors t ≡ errors s = one_good s p n e a b.0 c.0 in
          let rest : errors (on_messages t (numbered ns)) ≡ errors t = from c.1 in omega arith,
    )

length_nil : (xs : List (ℤ × ℤ)) → length xs ≡ 0 → xs ≡ []
length_nil [] e = refl
length_nil (x ∷ xs) e = absurd (omega arith)

-- Over messages with positive numbers below the largest int64, the test client ends with no
-- sequence error exactly if the numbers count on by one from the first to the last.
pub on_messages-gaps_iff :
    (n : ℕ) (ns : List ℕ)
    → IsSeq n
    → All IsSeq ns
    → ((on_messages nothing_seen (numbered (n ∷ ns))).seq_errors ≡ []) ↔ CountsFrom n ns
unfolding on_messages
on_messages-gaps_iff n ns a b =
    let t = on_message nothing_seen (some (pos n)) in
    let (to, from) = no_more_iff t n ns (last_seen nothing_seen n a) a b in
    let first : errors t ≡ 0 = first_ok n a in
    (
      λ q. to (rw (q, first) refl),
      λ c. length_nil (on_messages t (numbered ns)).seq_errors (omega (arith, from c)),
    )
  where
    first_ok : (k : ℕ) → IsSeq k → errors (on_message nothing_seen (some (pos k))) ≡ 0
    first_ok k c = unfold on_message in unfold check_seq in ground arith

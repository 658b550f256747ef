-- ===== src/Decimal/RoundTrip.antt =====
-- A cursor that is printed is the one that is parsed.
use at_protocol_infrastructu.Prelude.{
  ℕ, zero, suc, ◌+◌, ◌-◌, ◌*◌, ◌/◌, ◌%◌, ◌≤◌, ◌<◌, ◌≡◌, refl, ap, ◌∙◌, Option, none, some, [], ◌∷◌,
  ◌++◌, ltb, nat_eq, arith, if_cases, ltb→lt, ltb→le,
}
use at_protocol_infrastructu.Prelude.Int.{ℤ, pos, negsuc, IsInt64}
use at_protocol_infrastructu.Ingest.Event.{Bytes}
use at_protocol_infrastructu.Decimal.{
  digits, format_int, parse_digits, parse_uint, positive, parse_int,
}

abbrev then_parse : Option ℕ → Bytes → Option ℕ
then_parse none s = none
then_parse (some n) s = parse_digits s n

parse_digits-append :
    (xs ys : Bytes) (n : ℕ) → parse_digits (xs ++ ys) n ≡ then_parse (parse_digits xs n) ys
unfolding parse_digits
parse_digits-append [] ys n = refl
parse_digits-append (c ∷ xs) ys n = ground (arith, parse_digits-append xs ys (n * 10 + (c - b'0')))

parse_digit : (n d : ℕ) → d < 10 → parse_digits ((b'0' + d) ∷ []) n ≡ some (n * 10 + d)
unfolding parse_digits
parse_digit n d h = ground arith

parse_digits-digits : (fuel n : ℕ) → n < fuel → parse_digits (digits fuel n) 0 ≡ some n
unfolding digits
parse_digits-digits zero n h = absurd (omega arith)
parse_digits-digits (suc fuel) n h =
    if_cases (λ s. parse_digits s 0 ≡ some n) (ltb n 10) _ _
      (λ small. parse_digit 0 n (ltb→lt n 10 small) ∙ ap some (omega arith))
      (λ large.
        let shorter = parse_digits-digits fuel (n / 10) (omega (arith, ltb→le n 10 large)) in
        parse_digits-append (digits fuel (n / 10)) ((b'0' + n % 10) ∷ []) 0
        ∙ rw shorter (parse_digit (n / 10) (n % 10) (omega arith) ∙ ap some (omega arith)))

-- The digits of a number begin with a digit.
pub record Digits (s : Bytes) : Type 0 where
  pub first : ℕ
  pub rest : Bytes
  pub split : s ≡ first ∷ rest
  pub is_digit : b'0' ≤ first

digits-Digits : (fuel n : ℕ) → n < fuel → Digits (digits fuel n)
unfolding digits
digits-Digits zero n h = absurd (omega arith)
digits-Digits (suc fuel) n h =
    if_cases Digits (ltb n 10) _ _
      (λ small. record { first = b'0' + n; rest = []; split = refl; is_digit = omega arith })
      (λ large.
        let d = digits-Digits fuel (n / 10) (omega (arith, ltb→le n 10 large)) in
        record {
          first = d.first;
          rest = d.rest ++ (b'0' + n % 10) ∷ [];
          split = rw d.split;
          is_digit = d.is_digit;
        })

parse_uint-Digits : (s : Bytes) → Digits s → parse_uint s ≡ parse_digits s 0
unfolding parse_uint
parse_uint-Digits [] d = cc
parse_uint-Digits (c ∷ s) d = refl

parse_int-Digits : (s : Bytes) → Digits s → parse_int s ≡ positive (parse_uint s)
unfolding parse_int
parse_int-Digits [] d = cc
parse_int-Digits (c ∷ s) d =
    let e : c ≡ d.first = ground (arith, d.split) in ground (arith, d.is_digit, e)

parse_uint-digits : (n : ℕ) → parse_uint (digits (suc n) n) ≡ some n
parse_uint-digits n =
    parse_uint-Digits (digits (suc n) n) (digits-Digits (suc n) n (omega arith))
    ∙ parse_digits-digits (suc n) n (omega arith)

-- Every `int64` that is printed with `%d` is read back by `ParseInt`.
pub parse_int-format_int : (z : ℤ) → IsInt64 z → parse_int (format_int z) ≡ some z
unfolding format_int
parse_int-format_int (pos n) h =
    parse_int-Digits (digits (suc n) n) (digits-Digits (suc n) n (omega arith))
    ∙ rw (parse_uint-digits n) (ground arith)
parse_int-format_int (negsuc n) h =
    unfold parse_int in rw (parse_uint-digits (suc n)) (ground arith)

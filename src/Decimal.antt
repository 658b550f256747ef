-- ===== src/Decimal.antt =====
-- Decimal numbers in text, as the relay prints them with `%d` (relay/internal/ingest/pds_client.go,
-- relay/internal/config/config.go) and reads them with `strconv.ParseInt(s, 10, 64)`
-- (relay/internal/firehose/server.go).
pub mod RoundTrip
use Prim.Native.Char.{code}
use Prim.Native.String
use at_protocol_infrastructu.Prelude.{
  ℕ, zero, suc, ◌+◌, ◌-◌, ◌*◌, ◌/◌, ◌%◌, ◌^◌, Bool, true, false, ◌&&◌, Option, none, some, List, [],
  ◌∷◌, ◌++◌, String, ltb, leb, ◌==◌, nat_eq, if◌then◌else◌,
}
use at_protocol_infrastructu.Prelude.Int.{ℤ, pos, negsuc}
use at_protocol_infrastructu.Ingest.Event.{Bytes}

-- The code points of a text: its bytes, if it is ASCII.
abbrev pub codes : String → Bytes
codes String.[] = []
codes (String.◌∷◌ c s) = code c ∷ codes s

-- The digits of a number; the fuel is at least the number's digits.
unfoldable pub digits : ℕ → ℕ → Bytes
digits zero n = []
digits (suc fuel) n =
    let shorter = digits fuel (n / 10) in
    if ltb n 10 then (b'0' + n) ∷ [] else shorter ++ (b'0' + n % 10) ∷ []

-- `%d` of an `int64`.
unfoldable pub format_int : ℤ → Bytes
format_int (pos n) = digits (suc n) n
format_int (negsuc n) = b'-' ∷ digits (suc (suc n)) (suc n)

unfoldable pub parse_digits : Bytes → ℕ → Option ℕ
parse_digits [] n = some n
parse_digits (c ∷ s) n =
    let rest = parse_digits s (n * 10 + (c - b'0')) in
    if leb b'0' c && leb c b'9' then rest else none

-- `ParseUint`: at least one digit.
unfoldable pub parse_uint : Bytes → Option ℕ
unfolding parse_digits
parse_uint [] = none
parse_uint (c ∷ s) = parse_digits (c ∷ s) 0

-- The range of an `int64`, for each sign.
abbrev pub positive : Option ℕ → Option ℤ
positive none = none
positive (some n) = if ltb n (2 ^ 63) then some (pos n) else none

abbrev pub negative : Option ℕ → Option ℤ
negative none = none
negative (some zero) = some (pos 0)
negative (some (suc n)) = if ltb n (2 ^ 63) then some (negsuc n) else none

-- `strconv.ParseInt(s, 10, 64)`; `none` for a syntax or a range error.
unfoldable pub parse_int : Bytes → Option ℤ
unfolding parse_uint
parse_int [] = none
parse_int (c ∷ s) =
    if c == b'-'
    then negative (parse_uint s)
    else if c == b'+'
    then positive (parse_uint s)
    else positive (parse_uint (c ∷ s))

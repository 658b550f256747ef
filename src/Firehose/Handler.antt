-- ===== src/Firehose/Handler.antt =====
-- The HTTP handler of the firehose (`Handler` of relay/internal/firehose/server.go). The query, the
-- upgrade of the connection and the clock are arguments.
use at_protocol_infrastructu.Prelude.{
  ◌≡◌, refl, Bool, true, false, Option, none, some, [], ◌∷◌, String, if◌then◌else◌,
}
use at_protocol_infrastructu.Prelude.Int.{ℤ, pos, IsInt64}
use at_protocol_infrastructu.Ingest.Event.{Bytes, Time}
use at_protocol_infrastructu.Decimal.{parse_int, format_int}
use at_protocol_infrastructu.Decimal.RoundTrip.{parse_int-format_int}
use at_protocol_infrastructu.Firehose.Server.{Server, accept}

-- What becomes of a request: a 400, a failed upgrade, or a client, with the cursor that its replay
-- starts from if one is started.
pub data Reply : Type 0 where
  bad_request : Reply
  not_upgraded : Reply
  connected : Option ℤ → Reply

abbrev is_empty : Bytes → Bool
is_empty [] = true
is_empty (_ ∷ _) = false

-- The cursor of a request without an error: 0 for the empty text.
requested_cursor : Bytes → Option ℤ
requested_cursor cursor_str = if is_empty cursor_str then some (pos 0) else parse_int cursor_str

upgraded : Server → Bool → Bytes → Bool → String → Time → Option ℤ → Server × Reply
upgraded s has_store cursor_str upgrades remote now none = (s, bad_request)
upgraded s has_store cursor_str upgrades remote now (some cursor) =
    if upgrades
    then (
      accept s cursor remote now,
      connected (if is_empty cursor_str then none else if has_store then some cursor else none),
    )
    else (s, not_upgraded)

unfoldable pub handler : Server → Bool → Bytes → Bool → String → Time → Server × Reply
unfolding requested_cursor upgraded
handler s has_store cursor_str upgrades remote now =
    upgraded s has_store cursor_str upgrades remote now (requested_cursor cursor_str)

requested :
    (c : Bytes) (z : ℤ)
    → parse_int c ≡ some z
    → (requested_cursor c ≡ some z) × (is_empty c ≡ false)
unfolding requested_cursor parse_int
requested [] z h = cc
requested (x ∷ c) z h = (h, refl)

-- A client that connects with the int64 cursor z, in decimal, is entered with that cursor and gets
-- a replay from it exactly if the relay has a store.
pub handler-format_int :
    (s : Server) (has_store : Bool) (z : ℤ) (remote : String) (now : Time)
    → IsInt64 z
    → handler s has_store (format_int z) true remote now
      ≡ (accept s z remote now, connected (if has_store then some z else none))
unfolding handler upgraded
handler-format_int s has_store z remote now b =
    let (r, e) = requested (format_int z) z (parse_int-format_int z b) in rw (r, e) refl

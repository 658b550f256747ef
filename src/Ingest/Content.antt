-- ===== src/Ingest/Content.antt =====
-- `extractRecordContent` of relay/internal/ingest/pds_client.go: a line of text for a record. The
-- libraries read the CAR file, find the block and decode its CBOR; what they answer, and how `%.0f`
-- prints a number, are arguments.
pub mod Parts
mod Examples
use Prim.Native.String.{◌++◌ as text_append}
use at_protocol_infrastructu.Prelude.{
  ℕ, Bool, true, false, Option, none, some, List, [], ◌∷◌, ◌++◌, String, ◌==◌, string_eq,
  if◌then◌else◌,
}
use at_protocol_infrastructu.Prelude.Assoc.{lookup}
use at_protocol_infrastructu.Prelude.Int.{ℤ}
use at_protocol_infrastructu.Ingest.Event.{Bytes}

infixr 40 ◌+++◌
abbrev pub ◌+++◌ : String → String → String
◌+++◌ = text_append

-- A decoded value inside a map: the code looks at texts and numbers only.
pub data Leaf (F : Type 0) : Type 0 where
  text : String → Leaf F
  float : F → Leaf F
  uint : ℕ → Leaf F
  int : ℤ → Leaf F
  other : Leaf F

-- A value of the record: `any_map` is a `map[interface{}]interface{}`, with its text keys.
pub data Value (F : Type 0) : Type 0 where
  leaf : Leaf F → Value F
  nil : Value F
  string_map : List (String × Leaf F) → Value F
  any_map : List (String × Leaf F) → Value F

abbrev pub Record : Type 0 → Type 0
Record F = List (String × Value F)

-- `strings.Join`
unfoldable pub join : String → List String → String
join sep [] = ""
join sep (x ∷ []) = x
join sep (x ∷ y ∷ rest) = x +++ sep +++ join sep (y ∷ rest)

-- The part of a job card for one of its texts.
abbrev pub part : String → Option String → List String
part label none = []
part label (some t) = (label +++ t) ∷ []

sla_line : List String → List String
unfolding join
sla_line [] = []
sla_line (x ∷ rest) = ("SLA: " +++ join ", " (x ∷ rest)) ∷ []

module _ {F : Type 0} where
  -- `v.(string)`
  abbrev pub leaf_text : Option (Leaf F) → Option String
  leaf_text (some (text t)) = some t
  leaf_text _ = none

  abbrev pub value_text : Option (Value F) → Option String
  value_text (some (leaf (text t))) = some t
  value_text _ = none

  unfoldable pub text_at : String → Record F → Option String
  text_at key rec = value_text (lookup key rec)

  -- `subject.uri`, under a prefix.
  uri_of : String → Option (Value F) → String
  uri_of label (some (string_map subject)) = elim (leaf_text (lookup "uri" subject)) [
    | some uri ↦ label +++ uri
    | none ↦ ""
  ]
  uri_of label _ = ""

  sla_entries : List (String × Leaf F) → List String
  sla_entries sla =
      part "response: " (leaf_text (lookup "maxResponseTime" sla))
      ++ part "availability: " (leaf_text (lookup "availability" sla))

  sla_found : Option (Value F) → List String
  unfolding sla_entries
  sla_found (some (string_map sla)) = sla_entries sla
  sla_found (some (any_map sla)) = sla_entries sla
  sla_found _ = []

  unfoldable pub sla_part : Record F → List String
  unfolding sla_found sla_line
  sla_part rec = sla_line (sla_found (lookup "sla" rec))

abbrev pub or_empty : Option String → String
or_empty none = ""
or_empty (some t) = t

header : String → String
header task_type = if task_type == "" then "[Job Card]" else "[Job Card - " +++ task_type +++ "]"

details : List String → String
unfolding join
details [] = ""
details (x ∷ rest) = " | " +++ join " | " (x ∷ rest)

unfoldable pub first_of : List String → String
first_of [] = ""
first_of (x ∷ rest) = x

is_empty : Bytes → Bool
is_empty [] = true
is_empty (_ ∷ _) = false

module _ {F : Type 0} (of_uint : ℕ → F) (of_int : ℤ → F) (print : F → String) where
  amount_in_any : Option (Leaf F) → Option F
  amount_in_any (some (float x)) = some x
  amount_in_any (some (uint n)) = some (of_uint n)
  amount_in_any (some (int z)) = some (of_int z)
  amount_in_any _ = none

  amount_in_string : Option (Leaf F) → Option F
  amount_in_string (some (float x)) = some x
  amount_in_string _ = none

  price : Option F → Option String → List String
  price (some amount) (some currency) = ("Price: " +++ print amount +++ " " +++ currency) ∷ []
  price (some amount) none = ("Price: " +++ print amount) ∷ []
  price none _ = []

  price_found : Option (Value F) → List String
  unfolding amount_in_any amount_in_string price
  price_found (some (string_map pricing)) =
      price (amount_in_string (lookup "amount" pricing)) (leaf_text (lookup "currency" pricing))
  price_found (some (any_map pricing)) =
      price (amount_in_any (lookup "amount" pricing)) (leaf_text (lookup "currency" pricing))
  price_found _ = []

  unfoldable pub card_parts : Record F → List String
  unfolding price_found
  card_parts rec =
      part "Type: " (text_at "taskType" rec)
      ++ price_found (lookup "pricing" rec)
      ++ part "Deadline: " (text_at "deadline" rec)
      ++ sla_part rec

  unfoldable pub job_card : Record F → String
  unfolding header details
  job_card rec =
      header (or_empty (text_at "taskType" rec))
      +++ " "
      +++ or_empty (text_at "description" rec)
      +++ details (card_parts rec)

  -- The `switch` on the rec type.
  unfoldable pub content_of : String → Record F → String
  unfolding uri_of first_of
  content_of record_type rec =
      if record_type == "app.bsky.feed.post"
      then or_empty (text_at "text" rec)
      else if record_type == "app.bsky.feed.like"
      then uri_of "Liked: " (lookup "subject" rec)
      else if record_type == "app.bsky.feed.repost"
      then uri_of "Reposted: " (lookup "subject" rec)
      else if record_type == "app.bsky.graph.follow"
      then first_of (part "Followed: " (text_at "subject" rec))
      else if record_type == "app.bsky.actor.profile"
      then first_of (part "" (text_at "displayName" rec) ++ part "" (text_at "description" rec))
      else if record_type == "com.dashofextra.marketplace.jobCard"
      then job_card rec
      else ""

  decoded : Option (Record F) → String → String
  decoded none record_type = ""
  decoded (some rec) record_type = content_of record_type rec

  -- `decode` is none if the CAR file, the block or its CBOR cannot be read.
  unfoldable pub extract_record_content :
      (Bytes → String → Option (Record F)) → Bytes → String → String → String
  unfolding decoded is_empty
  extract_record_content decode blocks cid record_type =
      if is_empty blocks then "" else decoded (decode blocks cid) record_type

-- ===== src/Ingest/Event.antt =====
-- The event that the ingest side hands on (relay/internal/ingest/pds_client.go).
use at_protocol_infrastructu.Prelude.{ℕ, String, List}
use at_protocol_infrastructu.Prelude.Int.{ℤ}

-- A moment in nanoseconds; 0 is Go's zero time.
abbrev pub Time : Type 0
Time = ℕ

abbrev pub Bytes : Type 0
Bytes = List ℕ

pub record Event : Type 0 where
  pub type : String
  pub seq : ℤ
  pub did : String
  pub time : Time
  pub commit_cid : String
  pub prev_cid : String
  pub raw_data : Bytes
  pub host : String
  pub record_path : String
  pub record_content : String
  pub record_type : String
  pub action : String

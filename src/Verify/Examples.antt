-- ===== src/Verify/Examples.antt =====
-- The verification theorems with a library whose every answer is a success.
use at_protocol_infrastructu.Prelude.{◌≡◌, ◌↔◌, refl, true, none, [], ◌∷◌, String, string_eq}
use at_protocol_infrastructu.Prelude.Int.{pos}
use at_protocol_infrastructu.Prelude.Result.{ok}
use at_protocol_infrastructu.Ingest.Event.{Event, Bytes}
use at_protocol_infrastructu.Verify.{Indigo, Pipeline, verify, stats}
use at_protocol_infrastructu.Verify.Verdict.{Acceptable, verify-valid_iff}
use at_protocol_infrastructu.Verify.Tally.{tallied, verify-tallied}

abbrev agreeable : Indigo
agreeable = record {
  Did = String;
  Identity = String;
  Key = String;
  Repo = Bytes;
  parse_did = λ d. ok d;
  lookup_did = λ d. ok d;
  handle = λ d. d;
  public_key = λ d. ok d;
  read_car = λ b. ok b;
  sig = λ b. b;
  bytes_for_signing = λ b. ok b;
  hash_and_verify = λ k b s. ok tt;
}

abbrev pub signed_commit : Event
signed_commit = record {
  type = "commit";
  seq = pos 5;
  did = "did:plc:a";
  time = 9;
  commit_cid = "c";
  prev_cid = "";
  raw_data = 1 ∷ 2 ∷ [];
  host = "pds.a";
  record_path = "app/1";
  record_content = "hi";
  record_type = "app";
  action = "create";
}

abbrev idle : Pipeline
idle = record { metrics = none; verified = 3; failed = 1 }

verify-valid_iff_example :
    ((verify agreeable idle signed_commit 5).0.valid ≡ true)
    ↔ Acceptable agreeable idle signed_commit 5
verify-valid_iff_example = verify-valid_iff agreeable idle signed_commit 5

verify-tallied_example :
    stats (verify agreeable idle signed_commit 5).1
    ≡ tallied agreeable (verify agreeable idle signed_commit 5).0.valid idle
verify-tallied_example = verify-tallied agreeable idle signed_commit 5 refl (λ e. cc)

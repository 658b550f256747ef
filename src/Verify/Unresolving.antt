-- ===== src/Verify/Unresolving.antt =====
-- A library that resolves no DID, for tests of what stands on the pipeline.
use at_protocol_infrastructu.Prelude.{String}
use at_protocol_infrastructu.Prelude.Result.{ok, err}
use at_protocol_infrastructu.Ingest.Event.{Bytes}
use at_protocol_infrastructu.Verify.{Indigo}

abbrev pub unresolving : Indigo
unresolving = record {
  Did = String;
  Identity = String;
  Key = String;
  Repo = Bytes;
  parse_did = λ d. ok d;
  lookup_did = λ d. err "not found";
  handle = λ d. d;
  public_key = λ d. ok d;
  read_car = λ b. ok b;
  sig = λ b. b;
  bytes_for_signing = λ b. ok b;
  hash_and_verify = λ k b s. ok tt;
}

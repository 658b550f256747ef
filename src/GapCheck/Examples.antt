-- ===== src/GapCheck/Examples.antt =====
-- A run of the test client over three messages.
use at_protocol_infrastructu.Prelude.{◌≡◌, ◌↔◌, refl, true, Option, none, some, [], ◌∷◌, arith}
use at_protocol_infrastructu.Prelude.Int.{pos}
use at_protocol_infrastructu.Prelude.Result.{ok}
use at_protocol_infrastructu.Ingest.Event.{Bytes}
use at_protocol_infrastructu.GapCheck.Gaps.{CountsFrom}
use at_protocol_infrastructu.GapCheck.Client.{FirehoseMessage, timed_out, main}
use at_protocol_infrastructu.GapCheck.Reporting.{praised, main-praised_iff}

-- The bytes of a number stand for a message with that number.
abbrev parse : Bytes → Option FirehoseMessage
parse [] = none
parse (n ∷ _) = some (record {
  seq = pos n;
  type = "commit";
  did = "did:plc:a";
  commit_cid = "c";
  time = "now";
  host = "pds.a";
})

main-praised_iff_example :
    (praised
        (main parse
          ("test-firehose" ∷ [])
          (λ _. ok tt)
          ((7 ∷ []) ∷ (8 ∷ []) ∷ (9 ∷ []) ∷ [])
          timed_out).0
      ≡ true)
    ↔ CountsFrom 7 (8 ∷ 9 ∷ [])
main-praised_iff_example =
    main-praised_iff parse ("test-firehose" ∷ []) (λ _. ok tt) ((7 ∷ []) ∷ (8 ∷ []) ∷ (9 ∷ []) ∷ [])
      timed_out 7 (8 ∷ 9 ∷ []) refl refl (omega arith, omega arith)
      ((omega arith, omega arith), ((omega arith, omega arith), tt))

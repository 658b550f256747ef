-- ===== src/Firehose/Leaving/Examples.antt =====
-- A client whose connection fails after one message.
use at_protocol_infrastructu.Prelude.{◌≡◌, refl, false, [], ◌∷◌, ◌++◌}
use at_protocol_infrastructu.Prelude.Assoc.{lookup}
use at_protocol_infrastructu.Channel.{running}
use at_protocol_infrastructu.Firehose.Server.{Server, run_unregister, run_all}
use at_protocol_infrastructu.Firehose.Invariant.{Inv}
use at_protocol_infrastructu.Firehose.OneClient.{subscriber, one_client, one_client-Inv}
use at_protocol_infrastructu.Firehose.Leaving.{
  message, failed, read_pump, Left, hung_up, reader_leaves,
}

reader_leaves_example :
    (t : Server) × (run_all one_client
        (read_pump subscriber (message ∷ failed ∷ []) ++ run_unregister ∷ [])
      ≡ running t)
    × Left (hung_up one_client subscriber) t 1
    × ((t.conns 1).is_open ≡ false)
    × Inv t
unfolding lookup
reader_leaves_example =
    reader_leaves one_client subscriber subscriber (message ∷ failed ∷ []) one_client-Inv refl refl
      refl tt

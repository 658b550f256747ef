-- ===== src/Relay/EndToEnd/Examples.antt =====
-- The account frame twice, with one subscriber and tables in memory.
use at_protocol_infrastructu.Prelude.{◌≡◌, refl, none, some, List, [], ◌∷◌, arith}
use at_protocol_infrastructu.Prelude.Assoc.{lookup}
use at_protocol_infrastructu.Prelude.Int.{pos}
use at_protocol_infrastructu.Channel.{running, make}
use at_protocol_infrastructu.Verify.Unresolving.{unresolving}
use at_protocol_infrastructu.Ingest.Client.{PdsClient}
use at_protocol_infrastructu.Ingest.AccountFrame.{client, frame, no_content, moved, frame_event}
use at_protocol_infrastructu.Storage.Memory.{memory, memory-Laws}
use at_protocol_infrastructu.Firehose.OneClient.{one_client, one_client-Inv}
use at_protocol_infrastructu.Relay.Workers.{Pool}
use at_protocol_infrastructu.Relay.EndToEnd.{Ready}
use at_protocol_infrastructu.Relay.EndToEnd.InOrder.{
  Trip, carry_all, CarriedAll, frames_reach_subscribers,
}

abbrev waiting : Pool memory unresolving
waiting = record {
  manager = record {
    reconnect_delay = pos 5;
    max_reconnect_delay = pos 300;
    clients = [];
    event_chan = make 10;
    metrics = none;
  };
  app = record {
    event_count = 0;
    pipeline = none;
    event_store = some [];
    db = record { hosts = ("pds.a", none) ∷ []; events = [] };
    current_sequence = pos 0;
    firehose = one_client;
  };
  busy = [];
}

waiting-Ready : Ready memory unresolving no_content memory-Laws waiting
unfolding lookup
waiting-Ready = record {
  is_open = refl;
  empty = refl;
  room = omega arith;
  idle = refl;
  coherent = λ h i e. cc;
  waiting = record { inv = one_client-Inv; nothing_queued = refl; up = refl };
}

abbrev trips : List Trip
trips =
    record { frame = frame; event = moved; duration = 5; at = 9; now = "now" }
    ∷ record { frame = frame; event = moved; duration = 6; at = 9; now = "later" }
    ∷ []

frames_reach_subscribers_example :
    (x : PdsClient × Pool memory unresolving) × (carry_all memory unresolving no_content 1 client
        waiting trips
      ≡ running x)
    × CarriedAll memory unresolving no_content memory-Laws (pos 0) waiting trips x.0 x.1
frames_reach_subscribers_example =
    frames_reach_subscribers memory unresolving no_content memory-Laws 1 trips client waiting
      ((refl, frame_event), ((refl, frame_event), tt)) waiting-Ready

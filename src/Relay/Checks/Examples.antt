-- ===== src/Relay/Checks/Examples.antt =====
-- A relay with one host that is down, and floats that are whole numbers.
use at_protocol_infrastructu.Prelude.{
  ℕ, ◌*◌, ◌/◌, ◌≡◌, ◌↔◌, true, none, some, [], ◌∷◌, List, String, ltb,
}
use at_protocol_infrastructu.Prelude.Int.{pos}
use at_protocol_infrastructu.Prelude.Result.{Result, err}
use at_protocol_infrastructu.Channel.{make}
use at_protocol_infrastructu.Ingest.Client.{new_pds_client}
use at_protocol_infrastructu.Verify.Unresolving.{unresolving}
use at_protocol_infrastructu.Storage.Memory.{Tables, memory}
use at_protocol_infrastructu.Firehose.Server.{new_server}
use at_protocol_infrastructu.Health.{new, health_handler}
use at_protocol_infrastructu.Relay.Checks.{Floats, Arg, World, register_checks}
use at_protocol_infrastructu.Relay.Checks.Verdict.{Trouble, health_handler-Trouble}

-- Thousandths.
abbrev whole : Floats
whole = record {
  Float = ℕ;
  of_int = λ k. k * 1000;
  quotient = λ a b. a / (b / 1000);
  product = λ a b. a * (b / 1000);
  greater = λ a b. ltb b a;
}

abbrev plain : String → List (Arg ℕ) → String
plain form args = form

abbrev refused : Tables → Result String (Unit {0})
refused t = err "connection refused"

abbrev world : World memory unresolving whole plain refused
world = record {
  manager = record {
    reconnect_delay = pos 5;
    max_reconnect_delay = pos 300;
    clients = ("pds.a", new_pds_client "pds.a" (pos 0) (pos 5) (pos 300)) ∷ [];
    event_chan = make 10;
    metrics = none;
  };
  app = record {
    event_count = 4;
    pipeline = some (record { metrics = none; verified = 1; failed = 3 });
    event_store = some [];
    db = record { hosts = []; events = [] };
    current_sequence = pos 0;
    firehose = new_server none;
  };
}

health_handler-Trouble_example :
    ((health_handler
        (register_checks memory unresolving whole plain refused true true (new "dev" 0))
        world
        9).code
      ≡ 503)
    ↔ Trouble memory unresolving whole plain refused true true world
health_handler-Trouble_example =
    health_handler-Trouble memory unresolving whole plain refused true true world "dev" 0 9

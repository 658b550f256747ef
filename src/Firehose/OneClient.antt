-- ===== src/Firehose/OneClient.antt =====
-- A server with one registered client, whose buffer is empty.
use at_protocol_infrastructu.Prelude.{
  refl, none, [], ◌∷◌, arith, true, false, if◌then◌else◌, ◌==◌, nat_eq,
}
use at_protocol_infrastructu.Prelude.Assoc.{lookup}
use at_protocol_infrastructu.Prelude.Int.{pos}
use at_protocol_infrastructu.Channel.{make}
use at_protocol_infrastructu.Firehose.Server.{Client, Server}
use at_protocol_infrastructu.Firehose.Invariant.{Inv}

abbrev pub subscriber : Client
subscriber = record { id = 1; cursor = pos 0; remote_addr = "10.0.0.1"; connected_at = 7 }

abbrev pub one_client : Server
one_client = record {
  clients = (1, subscriber) ∷ [];
  client_count = 1;
  next_id = 1;
  broadcast = make 1000;
  register = [];
  unregister = [];
  sends = λ k. if k == 1 then make 256 else make 0;
  conns = λ _. record { written = []; is_open = true; pumping = true };
  metrics = none;
  stopped = false;
}

pub one_client-Inv : Inv one_client
unfolding lookup
one_client-Inv = record {
  counted = refl;
  issued = omega arith;
  wraps = omega arith;
  unique = (refl, tt);
  waiting = omega arith;
  registered = λ k c h. ground arith;
  buffers = λ k. ground arith;
  capacities = λ k. ground arith;
  broadcast_open = refl;
  broadcast_cap = refl;
  broadcast_bounded = omega arith;
}

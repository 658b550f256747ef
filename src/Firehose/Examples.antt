-- ===== src/Firehose/Examples.antt =====
-- Runs of the firehose server at concrete schedules.
use mathlib.Core.List.{Sublist}
use at_protocol_infrastructu.Prelude.{
  ℕ, ◌≡◌, ◌≤◌, ◌+◌, length, refl, none, List, [], ◌∷◌, arith, true,
}
use at_protocol_infrastructu.Prelude.{nat_eq}
use at_protocol_infrastructu.Prelude.Assoc.{lookup, insert}
use at_protocol_infrastructu.Prelude.Int.{pos}
use at_protocol_infrastructu.Channel.{Outcome, running, panicked, try_send, receive}
use at_protocol_infrastructu.Firehose.Message.{Object, int}
use at_protocol_infrastructu.Firehose.Server.{
  Server, Action, connect, run_register, run_unregister, run_broadcast, submit, hang_up, write,
  replay, new_server, on_register, on_broadcast, deliver, offer, accept, write_pump, step, run_all,
}
use at_protocol_infrastructu.Firehose.Runs.{Runs, run_all-Runs, new_server-Inv}
use at_protocol_infrastructu.Firehose.Stream.{received}
use at_protocol_infrastructu.Firehose.History.{received-sublist-submissions}
use at_protocol_infrastructu.Firehose.Bounds.{new_server-bounds}
use at_protocol_infrastructu.Firehose.OneClient.{subscriber, one_client, one_client-Inv}
use at_protocol_infrastructu.Firehose.Delivery.{
  late_replay_panics, broadcast_reaches_all, delivered,
}

abbrev event_a : Object
event_a = ("seq", int (pos 1)) ∷ []

abbrev event_b : Object
event_b = ("seq", int (pos 2)) ∷ []

-- One client connects, gets one of two events, and the other waits in its buffer.
abbrev session : List Action
session =
    connect (pos 0) "10.0.0.1" 7
    ∷ run_register
    ∷ submit event_a
    ∷ run_broadcast
    ∷ write 1 true
    ∷ submit event_b
    ∷ run_broadcast
    ∷ []

abbrev after_session : Outcome Server
after_session = run_all (new_server none) session

abbrev state_of : Outcome Server → Server
state_of (running s) = s
state_of panicked = new_server none

session_runs : after_session ≡ running (state_of after_session)
unfolding run_all new_server step accept on_register offer on_broadcast deliver write_pump receive
    try_send insert
session_runs = refl

received-sublist-submissions_example :
    Sublist (received (state_of after_session) 1) (event_a ∷ event_b ∷ [])
received-sublist-submissions_example =
    received-sublist-submissions none session 1 (state_of after_session) (omega arith) (omega arith)
      session_runs

new_server-bounds_example :
    ((k : ℕ) → length ((state_of after_session).sends k).buffer ≤ 256)
    × (length (state_of after_session).broadcast.buffer ≤ 1000)
    × ((state_of after_session).client_count ≡ length (state_of after_session).clients)
    × (length (state_of after_session).clients + length (state_of after_session).register
        ≤ length session)
new_server-bounds_example =
    new_server-bounds none session (state_of after_session) (omega arith) session_runs

session_received : received (state_of after_session) 1 ≡ event_a ∷ event_b ∷ []
unfolding run_all new_server step accept on_register offer on_broadcast deliver write_pump receive
    try_send insert
session_received = refl

run_all-Runs_example : Runs (new_server none) session
unfolding new_server
run_all-Runs_example = run_all-Runs (new_server none) session (omega arith) (new_server-Inv none)

late_replay_panics_example :
    run_all one_client (hang_up subscriber ∷ run_unregister ∷ replay 1 event_a ∷ []) ≡ panicked
unfolding lookup
late_replay_panics_example =
    late_replay_panics one_client subscriber subscriber event_a one_client-Inv refl refl refl

broadcast_reaches_all_example :
    (t : Server) × (on_broadcast one_client event_a ≡ running t)
    × (t.clients ≡ one_client.clients)
    × ((k : ℕ) → t.sends k ≡ delivered event_a one_client.clients one_client.sends k)
broadcast_reaches_all_example = broadcast_reaches_all one_client event_a one_client-Inv

-- ===== src/Ingest/Manager/Examples.antt =====
-- A manager that is made from the defaults, and one tick of its gauges.
use at_protocol_infrastructu.Prelude.{◌≡◌, refl, none, some, [], ◌∷◌, length, string_eq}
use at_protocol_infrastructu.Prelude.Assoc.{lookup}
use at_protocol_infrastructu.Prelude.Int.{pos, negsuc}
use at_protocol_infrastructu.Prelude.Result.{ok}
use at_protocol_infrastructu.Channel.{panicked, make}
use at_protocol_infrastructu.Config.{defaults, validate}
use at_protocol_infrastructu.Ingest.Client.{new_pds_client}
use at_protocol_infrastructu.Ingest.Manager.{Counters, Manager}
use at_protocol_infrastructu.Ingest.Manager.Starting.{
  new_manager, with_buffer, negative_buffer_panics,
}
use at_protocol_infrastructu.Ingest.Manager.Refreshing.{refresh, Shown, refresh-Shown}

negative_buffer_panics_example :
    (validate (with_buffer (negsuc 0) defaults) ≡ ok tt)
    × (new_manager (with_buffer (negsuc 0) defaults).ingest none ≡ panicked)
unfolding validate
negative_buffer_panics_example = negative_buffer_panics defaults none 0 refl

abbrev no_counts : Counters
no_counts = record {
  connected = λ h. 0;
  connecting = λ h. 0;
  lag = λ h. none;
  received = λ h t. 0;
  processed = λ h t. 0;
  dropped = λ h r. 0;
  buffer_size = 0;
  buffer_capacity = 0;
}

abbrev manager : Manager
manager = record {
  reconnect_delay = pos 5;
  max_reconnect_delay = pos 300;
  clients = ("pds.a", new_pds_client "pds.a" (pos 0) (pos 5) (pos 300)) ∷ [];
  event_chan = make 10;
  metrics = some no_counts;
}

refresh-Shown_example :
    (after : Counters) × ((refresh manager 9).metrics ≡ some after)
    × Shown 9 (lookup "pds.a" manager.clients) "pds.a" no_counts after
    × (after.buffer_size ≡ length manager.event_chan.buffer)
    × (after.buffer_capacity ≡ manager.event_chan.cap)
unfolding lookup
refresh-Shown_example = refresh-Shown manager no_counts 9 "pds.a" (refl, tt) refl

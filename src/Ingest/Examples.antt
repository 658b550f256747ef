-- ===== src/Ingest/Examples.antt =====
-- The theorems on the ingest side, at small inputs.
use at_protocol_infrastructu.Prelude.{
  ◌↔◌, ◌*◌, ◌≡◌, refl, true, false, none, some, [], ◌∷◌, string_eq, arith,
}
use at_protocol_infrastructu.Prelude.Int.{pos}
use at_protocol_infrastructu.Prelude.Result.{ok}
use at_protocol_infrastructu.Channel.{running, panicked, make, close}
use at_protocol_infrastructu.Ingest.Stream.{StreamEvent, send_ready, handle_repo_stream_event}
use at_protocol_infrastructu.Ingest.Stream.Handling.{
  IsActionable, to_event-origin, handle_repo_stream_event_lem,
}
use at_protocol_infrastructu.Ingest.Stream.Calm.{Trouble, handle_repo_stream_event-panics_iff}
use at_protocol_infrastructu.Ingest.AccountFrame.{
  second, client, frame, no_content, moved, frame_event,
}
use at_protocol_infrastructu.Ingest.Manager.{Manager, stop}
use at_protocol_infrastructu.Ingest.Manager.Stopping.{late_event_panics}

to_event-origin_example : (moved.host ≡ "pds.a") × (moved.time ≡ 9) × IsActionable frame
to_event-origin_example = to_event-origin no_content "pds.a" 9 frame moved frame_event

handle_repo_stream_event_lem_example :
    handle_repo_stream_event no_content client (make 10) 9 send_ready frame
    ≡ running (
      record client { cursor = pos 5; events_count = 1; last_event_time = 9 },
      record { cap = 10; buffer = moved ∷ []; closed = false },
      ok tt,
    )
handle_repo_stream_event_lem_example =
    handle_repo_stream_event_lem no_content client (make 10) 9 send_ready frame moved refl
      frame_event refl (omega arith)

abbrev bare_frame : StreamEvent
bare_frame = record {
  error = none;
  repo_commit = none;
  repo_identity = none;
  repo_account = none;
  repo_sync = none;
  repo_info = some (record { name = "OutdatedCursor"; message = none });
}

handle_repo_stream_event-panics_iff_example :
    (handle_repo_stream_event no_content client (make 10) 9 send_ready bare_frame ≡ panicked)
    ↔ Trouble no_content client (make 10) 9 send_ready bare_frame
handle_repo_stream_event-panics_iff_example =
    handle_repo_stream_event-panics_iff no_content client (make 10) 9 send_ready bare_frame

abbrev manager : Manager
manager = record {
  reconnect_delay = pos (second * 5);
  max_reconnect_delay = pos (second * 300);
  clients = [];
  event_chan = make 10;
  metrics = none;
}

-- A store whose state is the one cursor that it gives to every host.
abbrev stopped_manager : Manager
stopped_manager = record {
  reconnect_delay = pos (second * 5);
  max_reconnect_delay = pos (second * 300);
  clients = [];
  event_chan = record { cap = 10; buffer = []; closed = true };
  metrics = none;
}

manager_stops : stop manager ≡ running stopped_manager
unfolding stop close
manager_stops = refl

late_event_panics_example :
    handle_repo_stream_event no_content client stopped_manager.event_chan 9 send_ready frame
    ≡ panicked
late_event_panics_example =
    late_event_panics no_content manager stopped_manager client 9 frame moved manager_stops refl
      frame_event

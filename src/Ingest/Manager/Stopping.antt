-- ===== src/Ingest/Manager/Stopping.antt =====
-- `Stop` of relay/internal/ingest/manager.go does not wait for the clients before it closes the
-- channel that they send to.
use at_protocol_infrastructu.Prelude.{◌≡◌, none, some, String, arith}
use at_protocol_infrastructu.Channel.{running, panicked, try_send, close}
use at_protocol_infrastructu.Ingest.Event.{Event, Time, Bytes}
use at_protocol_infrastructu.Ingest.Client.{PdsClient}
use at_protocol_infrastructu.Ingest.Stream.{
  StreamEvent, send_ready, to_event, handle_repo_stream_event,
}
use at_protocol_infrastructu.Ingest.Manager.{Manager, stop}

-- Once a manager has stopped, a client that is still in its handler with a frame that becomes an
-- event panics, if its select takes the send.
pub late_event_panics :
    (extract : Bytes → String → String → String) (m t : Manager) (c : PdsClient) (now : Time)
    (evt : StreamEvent) (event : Event)
    → stop m ≡ running t
    → evt.error ≡ none
    → to_event extract c.hostname now evt ≡ running (some event)
    → handle_repo_stream_event extract c t.event_chan now send_ready evt ≡ panicked
unfolding stop close handle_repo_stream_event try_send
late_event_panics extract m t c now evt event stopped fine h = ground arith

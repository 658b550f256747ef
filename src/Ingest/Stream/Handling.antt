-- ===== src/Ingest/Stream/Handling.antt =====
-- What the stream handler does with each frame.
use at_protocol_infrastructu.Prelude.{
  ◌+◌, ◌<◌, ◌≡◌, ◌≢◌, ◌⊎◌, false, none, some, [], ◌∷◌, ◌++◌, String, string_eq, length, arith,
}
use at_protocol_infrastructu.Prelude.Result.{Result, ok, err}
use at_protocol_infrastructu.Channel.{running, panicked, Chan, try_send}
use at_protocol_infrastructu.Ingest.Event.{Event, Time, Bytes}
use at_protocol_infrastructu.Ingest.Client.{PdsClient}
use at_protocol_infrastructu.Ingest.Stream.{
  Info, StreamEvent, Select, send_ready, timed_out, ctx_done, StreamError, ctx_error, commit_event,
  account_event, sync_event, to_event, note_event, handle_repo_stream_event, with_ops,
}

-- Which frames are handed on: those with a commit, an identity, an account or a sync.
abbrev pub IsActionable : StreamEvent → Type 0
IsActionable evt =
    (evt.repo_commit ≢ none)
    ⊎ (evt.repo_identity ≢ none)
    ⊎ (evt.repo_account ≢ none)
    ⊎ (evt.repo_sync ≢ none)

-- An info frame that nothing else in the switch comes before, and that has no message.
pub record IsBareInfo (evt : StreamEvent) : Type 0 where
  pub info : Info
  pub no_commit : evt.repo_commit ≡ none
  pub no_identity : evt.repo_identity ≡ none
  pub no_account : evt.repo_account ≡ none
  pub no_sync : evt.repo_sync ≡ none
  pub is_info : evt.repo_info ≡ some info
  pub no_message : info.message ≡ none

abbrev pub after_select : Select → Chan Event → Event → Chan Event × Result StreamError (Unit {0})
after_select send_ready ch event = (record ch { buffer = ch.buffer ++ event ∷ [] }, ok tt)
after_select timed_out ch event = (ch, ok tt)
after_select ctx_done ch event = (ch, err ctx_error)

module _ (extract : Bytes → String → String → String) where
  -- Every frame that is handed on becomes an event of the client's host, at the time it came in,
  -- and has a commit, an identity, an account or a sync.
  pub to_event-origin :
      (host : String) (now : Time) (evt : StreamEvent) (event : Event)
      → to_event extract host now evt ≡ running (some event)
      → (event.host ≡ host) × (event.time ≡ now) × IsActionable evt
  unfolding to_event commit_event account_event sync_event with_ops
  to_event-origin host now evt event h = ground arith

  -- The stream handler panics on a frame without an error that is an info frame without a message.
  pub bare_info_panics :
      (c : PdsClient) (ch : Chan Event) (now : Time) (choice : Select) (evt : StreamEvent)
      → evt.error ≡ none
      → IsBareInfo evt
      → handle_repo_stream_event extract c ch now choice evt ≡ panicked
  unfolding handle_repo_stream_event to_event
  bare_info_panics c ch now choice evt e b =
      ground (arith, b.no_commit, b.no_identity, b.no_account, b.no_sync, b.is_info, b.no_message)

  -- For a frame without an error that becomes an event, on an open channel with room: in every
  -- case of the last select the cursor, the count and the time of the client move to the event,
  -- the channel gets the event in the send case alone, and only the end of the context is an
  -- error.
  pub handle_repo_stream_event_lem :
      (c : PdsClient) (ch : Chan Event) (now : Time) (choice : Select) (evt : StreamEvent)
      (event : Event)
      → evt.error ≡ none
      → to_event extract c.hostname now evt ≡ running (some event)
      → ch.closed ≡ false
      → length ch.buffer < ch.cap
      → handle_repo_stream_event extract c ch now choice evt
        ≡ running (
          record c {
            cursor = event.seq;
            events_count = c.events_count + 1;
            last_event_time = event.time;
          },
          (after_select choice ch event).0,
          (after_select choice ch event).1,
        )
  unfolding handle_repo_stream_event try_send note_event
  handle_repo_stream_event_lem c ch now send_ready evt event e h o room = ground arith
  handle_repo_stream_event_lem c ch now timed_out evt event e h o room = ground arith
  handle_repo_stream_event_lem c ch now ctx_done evt event e h o room = ground arith

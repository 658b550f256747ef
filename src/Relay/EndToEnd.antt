-- ===== src/Relay/EndToEnd.antt =====
-- The way of one frame through the relay: from the handler of a PDS client over the channel of
-- events, a worker, the store and the firehose server to the subscribers.
pub mod InOrder
mod Examples
use mathlib.Core.List.{append-nil}
use at_protocol_infrastructu.Prelude.{
  ℕ, ◌+◌, ◌<◌, ◌≡◌, none, some, refl, ap, ◌∙◌, sym, subst, false, true, Option, List, [], ◌∷◌, ◌++◌,
  String, length, ltb, arith, nat_eq, if◌then◌else◌,
}
use at_protocol_infrastructu.Prelude.Assoc.{lookup}
use at_protocol_infrastructu.Prelude.Int.{ℤ}
use at_protocol_infrastructu.Channel.{
  Ensures, >>=-eq-running, Outcome, running, ◌>>=◌, Chan, value, receive, try_send_room,
}
use at_protocol_infrastructu.Ingest.Event.{Event, Time, Bytes}
use at_protocol_infrastructu.Ingest.Client.{PdsClient}
use at_protocol_infrastructu.Ingest.Stream.{
  StreamEvent, send_ready, to_event, handle_repo_stream_event,
}
use at_protocol_infrastructu.Ingest.Stream.Handling.{handle_repo_stream_event_lem}
use at_protocol_infrastructu.Ingest.Manager.{process_event}
use at_protocol_infrastructu.Verify.{Indigo}
use at_protocol_infrastructu.Storage.Database.{EventRow, Postgres, Laws}
use at_protocol_infrastructu.Firehose.Message.{Object, marshal, message_with_seq}
use at_protocol_infrastructu.Firehose.Server
use at_protocol_infrastructu.Firehose.Server.{
  Server, run_broadcast, offer, inc_broadcast, serve_broadcast, on_broadcast, deliver,
}
use at_protocol_infrastructu.Firehose.Invariant.{Inv}
use at_protocol_infrastructu.Firehose.Steps.{channel-Inv, broadcast-Inv}
use at_protocol_infrastructu.Firehose.Delivery.{delivered, broadcast_reaches_all}
use at_protocol_infrastructu.Firehose.Waiting.{
  Waiting, submitted, submitted_by, first_received, broadcast_one,
}
use at_protocol_infrastructu.Relay.{App, event_handler}
use at_protocol_infrastructu.Relay.Publishing.{Coherent, number, event_handler-Published}
use at_protocol_infrastructu.Relay.Workers.{Pool, cursors, run_all}
use at_protocol_infrastructu.Relay.Workers.Alone.{processed, run_all-process_event}
use at_protocol_infrastructu.Relay.Workers.Ledger.{with_row, IsEntry}
use at_protocol_infrastructu.Relay.Workers.Storing.{IsEntry-of}
use at_protocol_infrastructu.Relay.Workers.InTurn.{round}
use at_protocol_infrastructu.Relay.Workers.Taking.{received}
use at_protocol_infrastructu.Relay.Workers.Rounds.{after_handler-Untouched}

module _ (p : Postgres) (i : Indigo) (extract : Bytes → String → String → String) where
  -- The client handles a frame, its event is sent on, worker `k` runs a round, and `run` one too.
  abbrev pub carry :
      ℕ → Time → Time → String → PdsClient → Pool p i → StreamEvent → Outcome (PdsClient × Pool p i)
  carry k duration at now c q evt = do
    (c', ch, r) ← handle_repo_stream_event extract c q.manager.event_chan at send_ready evt
    t ←
        run_all p i (record q { manager = record q.manager { event_chan = ch } })
          (round k duration now)
    f ← Server.step t.app.firehose run_broadcast
    running (c', record t { app = record t.app { firehose = f } })

  module _ (l : Laws p) where
    -- Between two frames: the channel of events is open and empty and has a capacity, the workers
    -- wait, the cache of host ids is coherent, and the firehose server waits.
    pub record Ready (q : Pool p i) : Type 0 where
      pub is_open : q.manager.event_chan.closed ≡ false
      pub empty : q.manager.event_chan.buffer ≡ []
      pub room : 0 < q.manager.event_chan.cap
      pub idle : q.busy ≡ []
      pub coherent : Coherent p i l q.app.event_store q.app.db
      pub waiting : Waiting q.app.firehose

    -- What became of the event of a frame.
    pub record Carried (host : String) (q : Pool p i) (event : Event) (now : String) (c : PdsClient)
        (t : Pool p i) : Type 0 where
      pub cursor_then : c.cursor ≡ event.seq
      pub same_subscribers : t.app.firehose.clients ≡ q.app.firehose.clients
      pub same_host : c.hostname ≡ host
      pub ready : Ready t
      pub seq : ℤ
      pub row : Option EventRow
      pub entered : IsEntry (record { event = event; seq = seq; row = row })
      pub table : l.rows t.app.db ≡ l.rows q.app.db ++ with_row row []
      pub reached :
          (j : ℕ)
          → t.app.firehose.sends j
            ≡ delivered
                (marshal (message_with_seq event (number event seq) now))
                q.app.firehose.clients
                q.app.firehose.sends
                j

    -- One frame.
    pub frame_reaches_subscribers :
        (k : ℕ) (duration at : Time) (now : String) (c : PdsClient) (q : Pool p i)
        (evt : StreamEvent) (event : Event)
        → evt.error ≡ none
        → to_event extract c.hostname at evt ≡ running (some event)
        → Ready q
        → (x : PdsClient × Pool p i) × (carry k duration at now c q evt ≡ running x)
          × Carried c.hostname q event now x.0 x.1
    unfolding lookup process_event
    frame_reaches_subscribers k duration at now c q evt event e h y =
        let ch : Chan Event = record q.manager.event_chan { buffer = [] } in
        let full : Chan Event = record q.manager.event_chan {
          buffer = q.manager.event_chan.buffer ++ event ∷ [];
        } in
        let given : Pool p i = record q { manager = record q.manager { event_chan = full } } in
        let handled =
          handle_repo_stream_event_lem extract c q.manager.event_chan at send_ready evt event e h
            y.is_open (omega (arith, ap length y.empty, y.room)) in
        let v = y.waiting.inv in
        let (b, ran, out) =
          event_handler-Published p i l q.app event duration now y.coherent v.broadcast_open in
        let m : Object = marshal (message_with_seq event (number event out.seq) now) in
        let alone =
          run_all-process_event p i given k duration now event ch (rw y.idle refl)
            (first_received q.manager.event_chan.buffer event full y.empty refl) in
        let u =
          after_handler-Untouched p i l (record (processed p i given event ch b) { app = b }) event
            b.event_store refl out.coherent in
        let (row, is, added) = IsEntry-of p i l event out.seq q.app.db b.db out.persisted in
        let (f, sent, same, w, all) =
          broadcast_one q.app.firehose m v y.waiting.nothing_queued y.waiting.up in
        let put : b.firehose ≡ submitted q.app.firehose m =
          submitted_by q.app.firehose b.firehose m v y.waiting.nothing_queued out.offered_by in
        (
          (
            record c {
              cursor = event.seq;
              events_count = c.events_count + 1;
              last_event_time = event.time;
            },
            record (processed p i given event ch b) {
              app = record (processed p i given event ch b).app { firehose = f };
            },
          ),
          rw (handled, alone, ran, u.same_firehose, put, sent) refl,
          record {
            cursor_then = refl;
            same_subscribers = same;
            same_host = refl;
            ready = record {
              is_open = y.is_open;
              empty = refl;
              room = y.room;
              idle = y.idle;
              coherent = u.coherent;
              waiting = w;
            };
            seq = out.seq;
            row = row;
            entered = is;
            table = u.same_rows ∙ added;
            reached = all;
          },
        )

-- ===== src/Ingest/Serving.antt =====
-- A PDS client at work: `connect`, `eventLoop` and the loop over both
-- (relay/internal/ingest/pds_client.go). The dialer and the reader of the stream, from gorilla's
-- websocket package and the indigo library, are arguments: their answers come with each round.
pub mod Pace
pub mod Sessions
pub mod Pacing
mod Examples
use at_protocol_infrastructu.Prelude.{
  ℕ, ◌*◌, Bool, true, false, Option, List, [], ◌∷◌, String, ltb, if◌then◌else◌,
}
use at_protocol_infrastructu.Prelude.Int.{pos}
use at_protocol_infrastructu.Prelude.Result.{Result, ok, err}
use at_protocol_infrastructu.Channel.{Outcome, running, ◌>>=◌, Chan}
use at_protocol_infrastructu.Ingest.Event.{Event, Time, Bytes}
use at_protocol_infrastructu.Ingest.Client.{
  Duration, PdsClient, subscribe_query, back_off, session_ended,
}
use at_protocol_infrastructu.Ingest.Stream.{Select, StreamEvent, Handled, handle_repo_stream_event}

-- What is dialled: the URL in its parts, the header and the timeout.
pub record Address : Type 0 where
  pub scheme : String
  pub host : String
  pub path : String
  pub raw_query : Bytes
  pub user_agent : String
  pub handshake_timeout : Duration

-- `websocket dial failed`, with the status and the body of the response if there is one.
pub record DialError : Type 0 where
  pub cause : String
  pub response : Option (ℕ × String)

-- What `DialContext` comes to: a connection, or an error with or without a response.
pub data Dial : Type 0 where
  upgraded : Dial
  failed : String → Option (ℕ × String) → Dial

unfoldable pub address : PdsClient → Address
unfolding subscribe_query
address c = record {
  scheme = "wss";
  host = c.hostname;
  path = "/xrpc/com.atproto.sync.subscribeRepos";
  raw_query = subscribe_query c;
  user_agent = "ATProto-Relay/1.0";
  handshake_timeout = pos (30 * 1000000000);
}

unfoldable pub connected : PdsClient → Dial → PdsClient × Result DialError (Unit {0})
connected c upgraded = (record c { has_conn = true; connected = true }, ok tt)
connected c (failed cause response) = (c, err (record { cause = cause; response = response }))

-- The dialer is asked for the address of the client.
unfoldable pub connect : (Address → Dial) → PdsClient → PdsClient × Result DialError (Unit {0})
unfolding address connected
connect dial c = connected c (dial (address c))

-- A frame that the library hands over, with what others have done to the channel of events until
-- then, the time, and the case of the handler's last `select`.
pub record Frame : Type 0 where
  pub meanwhile : Chan Event → Chan Event
  pub at : Time
  pub choice : Select
  pub body : StreamEvent

-- What the handler of the frames works on.
abbrev pub Held : Type 0
Held = PdsClient × Chan Event

abbrev pub Handler : Type 0
Handler = Frame → Held → Outcome Handled

-- `events.HandleRepoStream` on one connection, with a scheduler for the handler.
abbrev pub RepoStream : Type 0
RepoStream = Handler → Held → Outcome (Held × Result String (Unit {0}))

-- What a round of the loop meets: the client was stopped before it, or the dialer and the stream
-- answer, and the flag says whether a wait is cut short by a stop.
pub data Round : Type 0 where
  stopped : Round
  round : (Address → Dial) → Bool → RepoStream → Round

-- What the loop has done: it dialled an address, or it waited.
pub data Deed : Type 0 where
  dialled : Address → Deed
  waited : Duration → Deed

module _ (extract : Bytes → String → String → String) where
  unfoldable pub handler : Handler
  handler f (c, ch) = handle_repo_stream_event extract c (f.meanwhile ch) f.at f.choice f.body

  unfoldable pub event_loop : RepoStream → Held → Outcome (Held × Result String (Unit {0}))
  unfolding handler
  event_loop stream h = stream handler h

  -- `connectionLoop`, which `Start` runs: what it leaves and what it did, the first deed first.
  unfoldable pub serve : PdsClient → Chan Event → List Round → Outcome (Held × List Deed)
  unfolding back_off session_ended
  serve c ch [] = running ((c, ch), [])
  serve c ch (stopped ∷ rest) = running ((c, ch), [])
  serve c ch (round dial cut stream ∷ rest) =
      let (c', r) = connect dial c in
      elim r [
        | err e ↦ elim cut [
          | true ↦ running ((c', ch), dialled (address c) ∷ [])
          | false ↦ do
            (h, deeds) ← serve (back_off c') ch rest
            running (h, dialled (address c) ∷ waited c'.current_delay ∷ deeds)
        ]
        | ok _ ↦ do
          ((c1, ch1), ended) ←
              event_loop stream (record c' { current_delay = c'.reconnect_delay }, ch)
          (h, deeds) ← serve (session_ended c1) ch1 rest
          running (h, dialled (address c) ∷ deeds)
      ]

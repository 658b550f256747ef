-- ===== src/Lib.antt =====
-- The relay of the AT Protocol infrastructure, as a verified model of its Go program under relay/.
--
-- The program. The relay connects to Personal Data Servers (PDSs), turns the frames of their event
-- streams into events, verifies and stores them, and sends them to its own subscribers over
-- WebSockets. One goroutine for each PDS puts events into a shared channel; workers take them out
-- and call the event handler of `main`, which verifies, stores and broadcasts; the firehose server
-- has one goroutine for its map of clients, two for each client, and one for each replay.
--
-- The files and the code they are about:
--   Prelude and its modules: shared names, Boolean tests, lists, maps as association lists, signed
--     integers over the native naturals, results.
--   Channel: a buffered Go channel. A send on a closed channel and a second close panic, and a
--     panic ends the process (`Outcome`).
--   Decimal: decimal text, as `%d` prints it and `strconv.ParseInt` reads it.
--   Config, Config/Bounds: relay/internal/config/config.go. `load` is `Load`, `validate` is
--     `Validate`, `defaults` is `setDefaults`; the answers of Viper are arguments.
--   Health, Health/Worst: relay/pkg/health/handler.go. `check_all` is the loop of `runChecks`, over
--     the entries of the map in any order.
--   Ingest/Event, Ingest/RecordPath, Ingest/Client, Ingest/Stream:
--     relay/internal/ingest/pds_client.go. `connection_loop` is `connectionLoop` over the rounds that
--     the network brings about; `handle_repo_stream_event` is `handleRepoStreamEvent`, where nil
--     pointers are `none` and the case of the last `select` is an argument.
--   Ingest/Serving: `connect`, `eventLoop` and, with them, `connectionLoop` again, of the same file;
--     the dialer and the library's reader of a stream are arguments of each round.
--   Ingest/Content: `extractRecordContent` of the same file, over decoded CBOR; the frame handler
--     takes it as an argument.
--   Ingest/Manager: relay/internal/ingest/manager.go. `add_host`, `get_host_status`,
--     `stop` are the methods of those names, `process_event` is a round of `processEvents` that
--     nobody interrupts. The cursor store is an interface.
--     Ingest/Manager/Starting has `NewManager` and `Start`, Ingest/Manager/Refreshing one tick of
--     `updateMetrics`.
--   Metrics: `New` of relay/internal/metrics/prometheus.go, over a registry that is an argument.
--   Storage: relay/internal/storage/postgres.go. `Storage/Database` has the interface `Postgres`,
--     one operation for each SQL statement, and `Laws`, what PostgreSQL documents of them;
--     `Storage/Stores` the methods of `DB`, `CursorStore` and `EventStore`; `Storage/Memory` an
--     implementation of the interface that has the laws. `Storage/Opening` has `NewDB` and `Migrate`
--     over an interface of `database/sql`; Storage/Opening/Laws has `DriverLaws`, what PostgreSQL
--     documents of the statements of the migrations, with their columns, keys and `IF NOT EXISTS`.
--   Verify: relay/internal/verify/pipeline.go and identity.go. `verify` is `Verify`; the indigo
--     library is the argument `Indigo`.
--   Firehose/Message: the wire format of relay/internal/firehose/server.go, as JSON objects.
--   Firehose/Server: the same file's `Server`, `Client`, `run` and pumps. The state is shared; what a
--     goroutine does between two meetings on a channel or under the mutex is one `Action`, `step`
--     runs it, and `run_all` runs a schedule, which may be any list of actions. Firehose/Invariant,
--     Channels, Steps, Safety, Runs, Delivery, Waiting, Stream, Writing, Order, History and Bounds are
--     about it.
--   Firehose/Handler: the HTTP handler. Firehose/Leaving: `readPump`.
--   Firehose/Replay: `replayFromCursor`.
--   Relay: relay/cmd/relay/main.go, the event handler, the cursor store and `requestCrawl`, over the
--     components above. Relay/Checks has the health checks that `main` registers, Relay/Stats the
--     statistics page. Relay/Workers has several workers of the manager at once, with the event
--     handler cut where another worker may come in between: `take_event` is the receive and its
--     counter, `store_taken` goes from there to the end of the store, `publish_event` to the end of
--     the handler, `settle` to the end of the round.
--     Relay/Boot has `main` up to its wait for a signal, with the early exits, over all the
--     constructors above. The goroutines that it starts on the way run at once; the model has the
--     state that they are given, before any of them has taken a step. Relay/Shutdown has the rest of
--     `main`, where the steps of the workers and of the clients that are still in their handlers,
--     before and after `Manager.Stop` closes the channel, are arguments. Relay/EndToEnd follows
--     frames from a client to the subscribers.
--   GapCheck: the sequence check of relay/cmd/test-firehose/main.go; GapCheck/Client has its `main`,
--     with the lines that it prints.
--   The Examples modules apply the theorems at concrete inputs; Firehose/OneClient and
--   Ingest/AccountFrame are data for them.
--
-- Bounds and fuel. Client ids and the client count are 64-bit and wrap; the firehose theorems ask
-- for fewer than 2 ^ 64 steps. Delays are int64 nanoseconds, and their doubling wraps; the theorem
-- on waits asks for a maximum below 2 ^ 62 (146 years), under which nothing wraps. `digits` has fuel
-- for one digit more than a number has. The replay runs on fuel, one unit for each query: a round
-- that does not end the replay has sent a hundred events, so one unit in a hundred owed events and
-- one more is enough. The other loops are over lists.
--
-- Not modelled. Logging; the HTTP servers and the parsing of the flags; the text that JSON
-- encoding makes of an object; transactions of PostgreSQL that overlap, since each statement is
-- one step; the data races of Go; what goroutines that `main` has started do before it is up.
-- The events of a stream, the clock, the network, Viper, PostgreSQL, `database/sql`, the
-- Prometheus registry, floating-point numbers, `fmt.Sprintf` of the health checks, indigo and
-- the CBOR decoder are arguments.
pub mod Prelude
pub mod Channel
pub mod Config
pub mod Metrics
pub mod Verify
pub mod Decimal
pub mod Health
pub mod Ingest
pub mod Storage
pub mod Firehose
pub mod Relay
pub mod GapCheck

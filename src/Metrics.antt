-- ===== src/Metrics.antt =====
-- The collectors of relay/internal/metrics/prometheus.go. The registry of the Prometheus client
-- library is a parameter.
pub mod Names
pub mod Listed
mod Examples
use at_protocol_infrastructu.Prelude.{ℕ, Option, none, some, List, [], ◌∷◌, String}
use at_protocol_infrastructu.Prelude.Result.{Result, ok, err}
use at_protocol_infrastructu.Channel.{Outcome, running, panicked, ◌>>=◌}

-- What a collector is made of. The bounds of a histogram are exponential: the first in thousandths,
-- the factor from one to the next, and their number.
pub data Kind : Type 0 where
  counter gauge : Kind
  counter_vec gauge_vec : List String → Kind
  histogram : ℕ → ℕ → ℕ → Kind

pub record Desc : Type 0 where
  pub kind : Kind
  pub name : String
  pub help : String

abbrev desc : Kind → String → String → Desc
desc kind name help = record { kind = kind; name = name; help = help }

-- The fields of `Metrics` in the order in which `New` fills them.
abbrev pub fields : List (String × Desc)
fields =
    (
      "EventsReceived",
      desc (counter_vec ("pds" ∷ "event_type" ∷ [])) "relay_events_received_total"
          "Total number of events received from PDSs",
    )
    ∷ (
      "EventsProcessed",
      desc (counter_vec ("pds" ∷ "event_type" ∷ [])) "relay_events_processed_total"
          "Total number of events successfully processed",
    )
    ∷ (
      "EventsDropped",
      desc (counter_vec ("pds" ∷ "reason" ∷ [])) "relay_events_dropped_total"
          "Total number of events dropped",
    )
    ∷ (
      "IngestLag",
      desc (gauge_vec ("pds" ∷ [])) "relay_ingest_lag_seconds"
          "Lag between event time and processing time",
    )
    ∷ (
      "PDSConnections",
      desc (gauge_vec ("pds" ∷ "status" ∷ [])) "relay_pds_connections"
          "Number of active PDS connections",
    )
    ∷ (
      "PDSReconnects",
      desc (counter_vec ("pds" ∷ [])) "relay_pds_reconnects_total"
          "Total number of PDS reconnection attempts",
    )
    ∷ ("BufferSize", desc gauge "relay_buffer_size" "Current number of events in the buffer")
    ∷ ("BufferCapacity", desc gauge "relay_buffer_capacity" "Maximum buffer capacity")
    ∷ (
      "VerificationTotal",
      desc (counter_vec ("result" ∷ [])) "relay_verification_total"
          "Total number of verification attempts",
    )
    ∷ (
      "VerificationDuration",
      desc (histogram 1 2 10) "relay_verification_duration_seconds"
          "Duration of verification operations",
    )
    ∷ ("DIDCacheHits", desc counter "relay_did_cache_hits_total" "Total number of DID cache hits")
    ∷ (
      "DIDCacheMisses",
      desc counter "relay_did_cache_misses_total" "Total number of DID cache misses",
    )
    ∷ ("DIDCacheSize", desc gauge "relay_did_cache_size" "Current number of entries in DID cache")
    ∷ (
      "FirehoseClients",
      desc gauge "relay_firehose_clients" "Number of connected firehose clients",
    )
    ∷ (
      "FirehoseEventsSent",
      desc (counter_vec ("event_type" ∷ [])) "relay_firehose_events_sent_total"
          "Total number of events sent to firehose clients",
    )
    ∷ (
      "FirehoseEventsBroadcast",
      desc counter "relay_firehose_events_broadcast_total"
          "Total number of events broadcast to firehose",
    )
    ∷ (
      "FirehoseSlowClients",
      desc counter "relay_firehose_slow_clients_total" "Total number of slow clients disconnected",
    )
    ∷ ("CurrentSequence", desc gauge "relay_current_sequence" "Current sequence number")
    ∷ (
      "SequenceRate",
      desc gauge "relay_sequence_rate" "Rate of sequence number increases per second",
    )
    ∷ ("CarFilesTotal", desc gauge "relay_car_files_total" "Total number of CAR files")
    ∷ ("CarBytesTotal", desc gauge "relay_car_bytes_total" "Total bytes used by CAR files")
    ∷ []

-- The default registry: `register` is `Register`, whose error `promauto` turns into a panic.
pub record Registry : Type 1 where
  pub State : Type 0
  pub Collector : Type 0
  pub register : Desc → State → Result String Collector × State

module _ (r : Registry) where
  -- `promauto.NewCounter` and its kin.
  promauto : Result String r.Collector × r.State → Outcome (r.Collector × r.State)
  promauto (ok c, s) = running (c, s)
  promauto (err e, s) = panicked

  unfoldable pub register_fields :
      List (String × Desc) → r.State → Outcome (List (String × r.Collector) × r.State)
  unfolding promauto
  register_fields [] s = running ([], s)
  register_fields ((field, d) ∷ rest) s = do
    (c, s') ← promauto (r.register d s)
    (m, s'') ← register_fields rest s'
    running ((field, c) ∷ m, s'')

  -- `New`: the struct as its fields by name.
  unfoldable pub new : r.State → Outcome (List (String × r.Collector) × r.State)
  unfolding register_fields
  new s = register_fields fields s

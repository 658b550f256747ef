-- ===== src/Relay/Stats.antt =====
-- The statistics page of relay/cmd/relay/main.go, as the values that it encodes.
use text.Mathlib.TextEquality.{eq_iff}
use at_protocol_infrastructu.Prelude.{
  ℕ, ◌≡◌, refl, ap, Bool, Option, none, some, List, [], ◌∷◌, String, string_eq, arith,
}
use at_protocol_infrastructu.Prelude.Assoc.{lookup, insert, keys, lookup-insert}
use at_protocol_infrastructu.Prelude.Int.{ℤ}
use at_protocol_infrastructu.Ingest.Event.{Time}
use at_protocol_infrastructu.Ingest.Manager.{Manager, get_hosts, get_host_status, buffer_stats}
use at_protocol_infrastructu.Verify.{Indigo, Pipeline, stats}
use at_protocol_infrastructu.Storage.Database.{Postgres}
use at_protocol_infrastructu.Storage.Stores.{HostIds, get_current_seq}
use at_protocol_infrastructu.Firehose.Server.{client_count, get_client_info}
use at_protocol_infrastructu.Relay.{App}
use at_protocol_infrastructu.Relay.Checks.{seq_or_zero}

-- Connected, cursor, number of events and time of the last event.
abbrev pub HostStats : Type 0
HostStats = Bool × ℤ × ℕ × Time

-- `enabled` is false where an option is `none`. The number of stored events is the current one.
pub record Stats : Type 0 where
  pub total_events : ℕ
  pub hosts : List (String × HostStats)
  pub buffer : ℕ × ℕ
  pub verification : Option (ℕ × ℕ)
  pub database : Option ℤ
  pub clients : ℕ
  pub client_info : List (ℕ × String × ℤ × Time × Time)

-- The loop over the hosts.
unfoldable pub host_stats :
    Manager → List String → List (String × HostStats) → List (String × HostStats)
host_stats m [] shown = shown
host_stats m (host ∷ rest) shown = host_stats m rest (insert host (get_host_status m host) shown)

module _ (p : Postgres) (i : Indigo) where
  verification_stats : Option Pipeline → Option (ℕ × ℕ)
  verification_stats none = none
  verification_stats (some pipeline) = some (stats pipeline)

  -- The error of the query is dropped.
  database_stats : Option HostIds → p.State → Option ℤ
  database_stats none db = none
  database_stats (some ids) db = some (seq_or_zero (get_current_seq p db))

  unfoldable pub stats_page : Manager → App p i → Time → Stats
  unfolding host_stats verification_stats database_stats
  stats_page m a now = record {
    total_events = a.event_count;
    hosts = host_stats m (get_hosts m) [];
    buffer = buffer_stats m;
    verification = verification_stats a.pipeline;
    database = database_stats a.event_store a.db;
    clients = client_count a.firehose;
    client_info = get_client_info a.firehose now;
  }

host_stats-lookup :
    {V : Type 0} (m : Manager) (clients : List (String × V)) (shown : List (String × HostStats))
    (host : String)
    → lookup host (host_stats m (keys clients) shown) ≡ elim (lookup host clients) [
      | none ↦ lookup host shown
      | some _ ↦ some (get_host_status m host)
    ]
unfolding host_stats lookup
host_stats-lookup m [] shown host = refl
host_stats-lookup m ((h, c) ∷ rest) shown host = ground (
  arith,
  host_stats-lookup m rest (insert h (get_host_status m h) shown) host,
  lookup-insert h host (get_host_status m h) shown,
  eq_iff h host,
  ap (get_host_status m),
)

-- The page shows under each host that the manager has the status that `GetHostStatus` gives, and no
-- other host.
pub stats_page-hosts :
    (p : Postgres) (i : Indigo) (m : Manager) (a : App p i) (now : Time) (host : String)
    → lookup host (stats_page p i m a now).hosts
      ≡ elim (lookup host m.clients) [ none ↦ none | some _ ↦ some (get_host_status m host) ]
unfolding stats_page get_hosts lookup
stats_page-hosts p i m a now host = host_stats-lookup m m.clients [] host

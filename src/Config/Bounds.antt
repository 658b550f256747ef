-- ===== src/Config/Bounds.antt =====
-- Which configurations the relay starts with.
use at_protocol_infrastructu.Prelude.{◌≡◌, ◌≢◌, ◌↔◌, String, arith, string_eq}
use text.Mathlib.TextEquality.{eq_iff}
use at_protocol_infrastructu.Prelude.Result.{Result, ok, err}
use at_protocol_infrastructu.Prelude.Int.{pos, ◌<ℤ◌, ◌≤ℤ◌}
use at_protocol_infrastructu.Config.{
  Config, ReadIn, read, not_found, read_failed, validate, load, unmarshaled, check_config,
}

pub record IsValid (c : Config) : Type 0 where
  pub port_positive : pos 0 <ℤ c.server.port
  pub port_bound : c.server.port ≤ℤ pos 65535
  pub has_url : c.database.postgres_url ≢ ""
  pub has_workers : pos 0 <ℤ c.ingest.worker_count
  pub has_cache : pos 0 <ℤ c.identity.cache_size

-- A configuration is accepted exactly when its port is in 1 to 65535, it has a database URL, and
-- its worker count and its cache size are positive.
pub validate_iff : (c : Config) → (validate c ≡ ok tt) ↔ IsValid c
unfolding validate
validate_iff c = (
  λ h. record {
    port_positive = ground arith;
    port_bound = ground arith;
    has_url = λ e. ground (arith, eq_iff c.database.postgres_url "");
    has_workers = ground arith;
    has_cache = ground arith;
  },
  λ v. ground (arith, v.has_url, eq_iff c.database.postgres_url ""),
)

unmarshaled-ok :
    (u : Result String Config) (c : Config)
    → unmarshaled u ≡ ok c
    → (u ≡ ok c) × (validate c ≡ ok tt)
unfolding unmarshaled check_config
unmarshaled-ok (err x) c h = cc
unmarshaled-ok (ok cfg) c h = ground arith

-- Whatever Viper answers, a configuration that is loaded is valid, is the one that Viper
-- unmarshaled, and was read without an error other than a missing file.
pub load-IsValid :
    (r : ReadIn) (u : Result String Config) (c : Config)
    → load r u ≡ ok c
    → IsValid c × (u ≡ ok c) × (((x : String) → r ≢ read_failed x))
unfolding load
load-IsValid (read_failed x) u c h = cc
load-IsValid read u c h = let (e, v) = unmarshaled-ok u c h in ((validate_iff c).0 v, e, λ x q. cc)
load-IsValid not_found u c h =
    let (e, v) = unmarshaled-ok u c h in ((validate_iff c).0 v, e, λ x q. cc)

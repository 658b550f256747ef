-- ===== src/Verify/Directory.antt =====
-- `NewIdentityResolver` and `NewPipeline` (relay/internal/verify). The directory itself is the
-- library's; what it is made with is computed here.
use at_protocol_infrastructu.Prelude.{Option, String}
use at_protocol_infrastructu.Prelude.Int.{ℤ, pos}
use at_protocol_infrastructu.Config.{IdentityConfig}
use at_protocol_infrastructu.Verify.{Metrics, Pipeline}

-- The arguments of `BaseDirectory` and `NewCacheDirectory`; durations in nanoseconds.
pub record Directory : Type 0 where
  pub plc_url : String
  pub capacity : ℤ
  pub hit_ttl : ℤ
  pub error_ttl : ℤ
  pub invalid_handle_ttl : ℤ

-- The error TTL is five minutes, that of an invalid handle thirty.
unfoldable pub new_identity_resolver : IdentityConfig → Directory
new_identity_resolver cfg = record {
  plc_url = cfg.plc_url;
  capacity = cfg.cache_size;
  hit_ttl = cfg.cache_ttl;
  error_ttl = pos 300000000000;
  invalid_handle_ttl = pos 1800000000000;
}

unfoldable pub new_pipeline : IdentityConfig → Option Metrics → Directory × Pipeline
unfolding new_identity_resolver
new_pipeline cfg m = (new_identity_resolver cfg, record { metrics = m; verified = 0; failed = 0 })

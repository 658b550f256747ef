-- ===== src/Config/Examples.antt =====
-- The configuration theorems at the defaults.
use at_protocol_infrastructu.Prelude.{◌≡◌, ◌≢◌, refl, String, string_eq}
use at_protocol_infrastructu.Prelude.Result.{Result, ok}
use at_protocol_infrastructu.Config.{Config, not_found, read_failed, validate, load, defaults}
use at_protocol_infrastructu.Config.Bounds.{IsValid, load-IsValid}

load-defaults : load not_found (ok defaults) ≡ ok defaults
unfolding load validate
load-defaults = refl

load-IsValid_example :
    IsValid defaults
    × (◌≡◌ {A = Result String Config} (ok defaults) (ok defaults))
    × ((x : String) → not_found ≢ read_failed x)
load-IsValid_example = load-IsValid not_found (ok defaults) defaults load-defaults

-- ===== src/Health/Examples.antt =====
-- The health theorems at a relay with three checks.
use at_protocol_infrastructu.Prelude.{◌≡◌, Bool, true, false, [], ◌∷◌, string_eq}
use at_protocol_infrastructu.Health.{Status, healthy, degraded, unhealthy, Handler, run_checks}
use at_protocol_infrastructu.Health.Worst.{severity, run_checks-worst}

abbrev if_up : Bool → Status
if_up true = healthy
if_up false = unhealthy

-- The state is whether the database answers.
abbrev three : Handler Bool
three = record {
  version = "dev";
  start_time = 0;
  checks =
      ("ingest", λ _. record { status = degraded; message = "1/2 PDSs connected" })
      ∷ ("database", λ up. record { status = if_up up; message = "" })
      ∷ ("firehose", λ _. record { status = healthy; message = "0 clients connected" })
      ∷ [];
  ready = true;
}

run_checks-worst_example : severity (run_checks three true 9).status ≡ 1
run_checks-worst_example = run_checks-worst true three 9

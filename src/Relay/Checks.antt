-- ===== src/Relay/Checks.antt =====
-- The health checks that relay/cmd/relay/main.go registers. What they read of the database service,
-- `float64` and `fmt.Sprintf` are arguments.
pub mod Verdict
mod Examples
use at_protocol_infrastructu.Prelude.{
  ℕ, ◌+◌, ◌≤◌, ◌≡◌, Bool, true, false, ◌&&◌, Option, none, some, List, [], ◌∷◌, String, ◌==◌,
  nat_eq, string_eq, ltb, length, if◌then◌else◌,
}
use at_protocol_infrastructu.Prelude.Result.{Result, ok, err}
use at_protocol_infrastructu.Prelude.Int.{ℤ, pos}
use at_protocol_infrastructu.Ingest.Event.{Time}
use at_protocol_infrastructu.Ingest.Manager.{Manager, get_hosts}
use at_protocol_infrastructu.Verify.{Indigo, Pipeline, stats}
use at_protocol_infrastructu.Storage.Database.{DbError, Postgres}
use at_protocol_infrastructu.Storage.Stores.{get_current_seq}
use at_protocol_infrastructu.Firehose.Server.{client_count}
use at_protocol_infrastructu.Health.{
  Status, healthy, degraded, unhealthy, CheckResult, Handler, register_check,
}
use at_protocol_infrastructu.Relay.{App, count_connected, ingest_status}

-- What the checks use of Go's `float64`; `of_int` is the conversion.
pub record Floats : Type 1 where
  pub Float : Type 0
  pub of_int : ℕ → Float
  pub quotient : Float → Float → Float
  pub product : Float → Float → Float
  pub greater : Float → Float → Bool

-- An argument of `fmt.Sprintf`.
pub data Arg (F : Type 0) : Type 0 where
  int : ℤ → Arg F
  text : String → Arg F
  float : F → Arg F

-- The number that `GetCurrentSeq` returns; its error is dropped.
abbrev pub seq_or_zero : Result DbError ℤ → ℤ
seq_or_zero (ok seq) = seq
seq_or_zero (err _) = pos 0

-- `Stats` of the pipeline. The relay asks for it only if there is one.
unfoldable pub counts : Option Pipeline → ℕ × ℕ
unfolding stats
counts none = (0, 0)
counts (some pipeline) = stats pipeline

module _ (p : Postgres) (i : Indigo) (n : Floats) (sprintf : String → List (Arg n.Float) → String)
    (ping : p.State → Result String (Unit {0})) where
  -- What the checks read.
  pub record World : Type 0 where
    pub manager : Manager
    pub app : App p i

  -- The check `ingest`.
  unfoldable pub ingest_check : World → CheckResult
  ingest_check w =
      let hosts = get_hosts w.manager in
      let connected_count = count_connected w.manager hosts in
      let total = int (pos (length hosts)) in
      let connected = int (pos connected_count) in
      if connected_count == 0 && ltb 0 (length hosts)
      then record { status = unhealthy; message = sprintf "0/%d PDSs connected" (total ∷ []) }
      else if ltb connected_count (length hosts)
      then record {
        status = degraded;
        message = sprintf "%d/%d PDSs connected" (connected ∷ total ∷ []);
      }
      else record { status = healthy; message = sprintf "%d PDSs connected" (connected ∷ []) }

  -- The check `database`.
  pinged : World → Result String (Unit {0}) → CheckResult
  pinged w (err e) = record {
    status = unhealthy;
    message = sprintf "Database ping failed: %v" (text e ∷ []);
  }
  pinged w (ok _) = record {
    status = healthy;
    message = sprintf "Connected, seq: %d" (int (seq_or_zero (get_current_seq p w.app.db)) ∷ []);
  }

  unfoldable pub database_check : World → CheckResult
  unfolding pinged
  database_check w = pinged w (ping w.app.db)

  -- The check `firehose`.
  unfoldable pub firehose_check : World → CheckResult
  firehose_check w = record {
    status = healthy;
    message = sprintf "%d clients connected" (int (pos (client_count w.app.firehose)) ∷ []);
  }

  -- The check `verification`: the failure rate in per cent.
  unfoldable pub fail_rate : ℕ → ℕ → n.Float
  fail_rate failed total = n.product (n.quotient (n.of_int failed) (n.of_int total)) (n.of_int 100)

  unfoldable pub rate_check : ℕ → ℕ → CheckResult
  unfolding fail_rate
  rate_check verified failed =
      let total = verified + failed in
      let rate = fail_rate failed total in
      let shown = float rate ∷ int (pos failed) ∷ int (pos total) ∷ [] in
      if total == 0
      then record { status = healthy; message = "No events verified yet" }
      else if n.greater rate (n.of_int 50)
      then record {
        status = unhealthy;
        message = sprintf "%.1f%% verification failure rate (%d/%d)" shown;
      }
      else if n.greater rate (n.of_int 10)
      then record {
        status = degraded;
        message = sprintf "%.1f%% verification failure rate (%d/%d)" shown;
      }
      else record {
        status = healthy;
        message = sprintf "%d verified, %d failed" (int (pos verified) ∷ int (pos failed) ∷ []);
      }

  unfoldable pub verification_check : World → CheckResult
  unfolding counts rate_check
  verification_check w =
      let (verified, failed) = counts w.app.pipeline in rate_check verified failed

  -- A check that is registered only if its part is enabled.
  unfoldable pub register_if : Bool → Handler World → String → (World → CheckResult) → Handler World
  register_if enabled h name checker = if enabled then register_check h name checker else h

  -- The registrations of `main`, with `--db` and `--verify`.
  unfoldable pub register_checks : Bool → Bool → Handler World → Handler World
  unfolding register_if
  register_checks enable_db enable_verify h =
      let with_ingest = register_check h "ingest" ingest_check in
      let with_db = register_if enable_db with_ingest "database" database_check in
      let with_firehose = register_check with_db "firehose" firehose_check in
      register_if enable_verify with_firehose "verification" verification_check

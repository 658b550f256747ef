-- ===== src/Health.antt =====
-- The health handler (relay/pkg/health/handler.go). A checker reads the state of the relay, `W`.
pub mod Worst
mod Examples
use at_protocol_infrastructu.Prelude.{
  ℕ, ◌+◌, ◌-◌, ◌*◌, ◌/◌, Bool, true, false, not, ◌&&◌, List, [], ◌∷◌, String, string_eq,
  if◌then◌else◌,
}
use at_protocol_infrastructu.Prelude.Assoc.{insert}
use at_protocol_infrastructu.Ingest.Event.{Time}

pub data Status : Type 0 where
  healthy degraded unhealthy : Status

abbrev pub is_unhealthy : Status → Bool
is_unhealthy unhealthy = true
is_unhealthy _ = false

abbrev pub is_degraded : Status → Bool
is_degraded degraded = true
is_degraded _ = false

pub record CheckResult : Type 0 where
  pub status : Status
  pub message : String

-- `uptime` in nanoseconds, rounded to seconds as the program does before it prints it.
pub record Response : Type 0 where
  pub status : Status
  pub version : String
  pub uptime : Time
  pub checks : List (String × CheckResult)
  pub timestamp : Time

pub record Handler (W : Type 0) : Type 0 where
  pub version : String
  pub start_time : Time
  pub checks : List (String × (W → CheckResult))
  pub ready : Bool

-- What an HTTP handler writes: the status code and the body.
pub record Http {ℓ} (B : Type ℓ) : Type ℓ where
  pub code : ℕ
  pub body : B

-- `d.Round(time.Second)`, for a duration that is not negative.
abbrev round_second : Time → Time
round_second d = (d + 500000000) / 1000000000 * 1000000000

-- One round of the loop of `runChecks`: the worst status wins.
unfoldable pub worsen : Status → Status → Status
worsen overall status =
    if is_unhealthy status
    then unhealthy
    else if is_degraded status && not (is_unhealthy overall)
    then degraded
    else overall

module _ {W : Type 0} where
  unfoldable pub new : String → Time → Handler W
  new version now = record { version = version; start_time = now; checks = []; ready = false }

  unfoldable pub register_check : Handler W → String → (W → CheckResult) → Handler W
  register_check h name checker = record h { checks = insert name checker h.checks }

  unfoldable pub set_ready : Handler W → Bool → Handler W
  set_ready h ready = record h { ready = ready }

  unfoldable pub is_ready : Handler W → Bool
  is_ready h = h.ready

  -- The loop of `runChecks`, with the map's entries in the order in which it meets them.
  unfoldable pub check_all :
      W
      → List (String × (W → CheckResult))
      → List (String × CheckResult)
      → Status
      → List (String × CheckResult) × Status
  unfolding worsen
  check_all w [] results overall = (results, overall)
  check_all w ((name, checker) ∷ rest) results overall =
      let result = checker w in
      check_all w rest (insert name result results) (worsen overall result.status)

  unfoldable pub run_checks : Handler W → W → Time → Response
  unfolding check_all
  run_checks h w now =
      let (results, overall) = check_all w h.checks [] healthy in
      record {
        status = overall;
        version = h.version;
        uptime = round_second (now - h.start_time);
        checks = results;
        timestamp = now;
      }

  unfoldable pub health_handler : Handler W → W → Time → Http Response
  health_handler h w now =
      let response = run_checks h w now in
      if is_unhealthy response.status
      then record { code = 503; body = response }
      else if is_degraded response.status
      then record { code = 200; body = response }
      else record { code = 200; body = response }

  unfoldable pub ready_handler : Handler W → Http String
  unfolding is_ready
  ready_handler h =
      if is_ready h
      then record { code = 200; body = "ready" }
      else record { code = 503; body = "not ready" }

  unfoldable pub live_handler : Handler W → Http String
  live_handler h = record { code = 200; body = "alive" }

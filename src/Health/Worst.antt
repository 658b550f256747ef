-- ===== src/Health/Worst.antt =====
-- The overall status is the worst of the checks, in whatever order the map is walked.
use text.Mathlib.TextEquality.{eq_iff}
use at_protocol_infrastructu.Prelude.{
  string_eq, none, some, ℕ, ◌≤◌, ◌≡◌, ◌↔◌, refl, ap, ◌⊎◌, inl, inr, List, [], ◌∷◌, String, arith,
  max,
}
use at_protocol_infrastructu.Prelude.Assoc.{insert, lookup, Unique, lookup-insert}
use at_protocol_infrastructu.Ingest.Event.{Time}
use at_protocol_infrastructu.Health.{
  Status, healthy, degraded, unhealthy, CheckResult, Handler, worsen, check_all, run_checks,
  health_handler,
}

abbrev pub severity : Status → ℕ
severity healthy = 0
severity degraded = 1
severity unhealthy = 2

-- The highest severity that a list of checks reports.
abbrev pub worst : {W : Type 0} → W → List (String × (W → CheckResult)) → ℕ
worst w [] = 0
worst w ((name, checker) ∷ rest) = max (severity (checker w).status) (worst w rest)

severity-worsen : (a b : Status) → severity (worsen a b) ≡ max (severity a) (severity b)
unfolding worsen
severity-worsen a b = ground arith

unhealthy_or_less : (s : Status) → (s ≡ unhealthy) ⊎ (severity s ≤ 1)
unhealthy_or_less healthy = inr (omega arith)
unhealthy_or_less degraded = inr (omega arith)
unhealthy_or_less unhealthy = inl refl

module _ {W : Type 0} (w : W) where
  check_all-worst :
      (cs : List (String × (W → CheckResult))) (results : List (String × CheckResult))
      (overall : Status)
      → severity (check_all w cs results overall).1 ≡ max (severity overall) (worst w cs)
  unfolding check_all
  check_all-worst [] results overall = omega arith
  check_all-worst ((name, checker) ∷ rest) results overall = omega (
    arith,
    check_all-worst rest (insert name (checker w) results) (worsen overall (checker w).status),
    severity-worsen overall (checker w).status,
  )

  -- The status of the response is the highest severity among the registered checks.
  pub run_checks-worst :
      (h : Handler W) (now : Time) → severity (run_checks h w now).status ≡ worst w h.checks
  unfolding run_checks
  run_checks-worst h now = omega (arith, check_all-worst h.checks [] healthy)

  abbrev pub HasUnhealthy : List (String × (W → CheckResult)) → Type 0
  HasUnhealthy [] = ⊥
  HasUnhealthy ((name, checker) ∷ rest) = ((checker w).status ≡ unhealthy) ⊎ HasUnhealthy rest

  unhealthy_worst : (cs : List (String × (W → CheckResult))) → HasUnhealthy cs → 2 ≤ worst w cs
  unhealthy_worst [] h = absurd h
  unhealthy_worst ((name, checker) ∷ rest) (inl e) = omega (arith, ap severity e)
  unhealthy_worst ((name, checker) ∷ rest) (inr h) = omega (arith, unhealthy_worst rest h)

  worst_unhealthy : (cs : List (String × (W → CheckResult))) → 2 ≤ worst w cs → HasUnhealthy cs
  worst_unhealthy [] h = absurd (omega arith)
  worst_unhealthy ((name, checker) ∷ rest) h = elim (unhealthy_or_less (checker w).status) [
    | inl e ↦ inl e
    | inr less ↦ inr (worst_unhealthy rest (omega arith))
  ]

  two : (h : Handler W) (now : Time) → (health_handler h w now).code ≡ 503 → 2 ≤ worst w h.checks
  unfolding health_handler
  two h now c = ground (arith, run_checks-worst h now)

  -- The health endpoint answers 503 exactly when some check is unhealthy, and otherwise 200.
  pub health_handler-code :
      (h : Handler W) (now : Time)
      → (((health_handler h w now).code ≡ 503) ↔ HasUnhealthy h.checks)
        × (((health_handler h w now).code ≡ 200) ⊎ ((health_handler h w now).code ≡ 503))
  unfolding health_handler
  health_handler-code h now =
      let worst_lem = run_checks-worst h now in
      let to = worst_unhealthy h.checks in
      let from = unhealthy_worst h.checks in
      ((λ c. to (two h now c), λ u. ground (arith, from u, worst_lem)), ground arith)

  check_all-lookup :
      (cs : List (String × (W → CheckResult))) (results : List (String × CheckResult))
      (overall : Status) (name : String)
      → Unique cs
      → lookup name (check_all w cs results overall).0
        ≡ elim (lookup name cs) [ none ↦ lookup name results | some checker ↦ some (checker w) ]
  unfolding check_all lookup
  check_all-lookup [] results overall name u = refl
  check_all-lookup ((k, checker) ∷ rest) results overall name u = ground (
    arith,
    check_all-lookup rest (insert k (checker w) results) (worsen overall (checker w).status) name
        u.1,
    lookup-insert k name (checker w) results,
    eq_iff k name,
    u.0,
    ap (λ j. lookup j rest),
  )

  -- With no name registered twice, the response has under each name the result of the check that
  -- is registered under it.
  run_checks-lookup :
      (h : Handler W) (now : Time) (name : String)
      → Unique h.checks
      → lookup name (run_checks h w now).checks
        ≡ elim (lookup name h.checks) [ none ↦ none | some checker ↦ some (checker w) ]
  unfolding run_checks lookup
  run_checks-lookup h now name u = check_all-lookup h.checks [] healthy name u

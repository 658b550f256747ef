-- ===== src/Relay/Checks/Verdict.antt =====
-- What makes the health endpoint answer 503, and how the verification check follows the failures.
use at_protocol_infrastructu.Prelude.{
  ℕ, ◌+◌, ◌≤◌, ◌<◌, ◌≡◌, ◌≢◌, ◌↔◌, refl, ◌∙◌, sym, Bool, true, false, ◌⊎◌, inl, inr, List, [],
  String, string_eq, nat_eq, arith, All,
}
use at_protocol_infrastructu.Prelude.Result.{Result, ok, err}
use at_protocol_infrastructu.Prelude.Assoc.{insert}
use at_protocol_infrastructu.Ingest.Event.{Time}
use at_protocol_infrastructu.Ingest.Manager.{get_hosts}
use at_protocol_infrastructu.Verify.{Indigo}
use at_protocol_infrastructu.Storage.Database.{Postgres}
use at_protocol_infrastructu.Health.{unhealthy, new, register_check, health_handler}
use at_protocol_infrastructu.Health.Worst.{severity, HasUnhealthy, health_handler-code}
use at_protocol_infrastructu.Relay.{ingest_status}
use at_protocol_infrastructu.Relay.Ingesting.{IsDown, ingest_status_iff}
use at_protocol_infrastructu.Relay.Checks.{
  Floats, Arg, World, counts, ingest_check, database_check, pinged, firehose_check, fail_rate,
  rate_check, verification_check, register_checks,
}

-- Rounding is monotone: so are the conversion, a quotient in its dividend and a product in its
-- first factor, for operands that are not negative; and a comparison is kept by greater operands.
pub record FloatLaws (n : Floats) : Type 1 where
  pub AtMost : n.Float → n.Float → Type 0
  pub of_int_mono : (a b : ℕ) → a ≤ b → AtMost (n.of_int a) (n.of_int b)
  pub quotient_mono :
      (a b : n.Float) (d : ℕ)
      → 0 < d
      → AtMost a b
      → AtMost (n.quotient a (n.of_int d)) (n.quotient b (n.of_int d))
  pub product_mono :
      (a b : n.Float) (k : ℕ)
      → AtMost a b
      → AtMost (n.product a (n.of_int k)) (n.product b (n.of_int k))
  pub greater_mono :
      (a b limit : n.Float) → AtMost a b → n.greater a limit ≡ true → n.greater b limit ≡ true

module _ (p : Postgres) (i : Indigo) (n : Floats) (sprintf : String → List (Arg n.Float) → String)
    (ping : p.State → Result String (Unit {0})) where
  ingest_check-status :
      (w : World p i n sprintf ping)
      → (ingest_check p i n sprintf ping w).status ≡ ingest_status w.manager
  unfolding ingest_check ingest_status
  ingest_check-status w = ground arith

  -- There are hosts, and none is connected.
  abbrev pub NoneUp : World p i n sprintf ping → Type 0
  NoneUp w = (get_hosts w.manager ≢ []) × All (IsDown w.manager) (get_hosts w.manager)

  abbrev pub PingFails : World p i n sprintf ping → Type 0
  PingFails w = (e : String) × (ping w.app.db ≡ err e)

  -- Something was verified, and more than half of it failed.
  abbrev pub MostlyFailing : World p i n sprintf ping → Type 0
  MostlyFailing w =
      ((counts w.app.pipeline).0 + (counts w.app.pipeline).1 ≢ 0)
      × (n.greater
            (fail_rate p i n sprintf ping (counts w.app.pipeline).1
              ((counts w.app.pipeline).0 + (counts w.app.pipeline).1))
            (n.of_int 50)
          ≡ true)

  ingest_lem :
      (w : World p i n sprintf ping)
      → ((ingest_check p i n sprintf ping w).status ≡ unhealthy) ↔ NoneUp w
  ingest_lem w = (
    λ e. ((ingest_status_iff w.manager).1).0 (sym (ingest_check-status w) ∙ e),
    λ d. ingest_check-status w ∙ ((ingest_status_iff w.manager).1).1 d,
  )

  pinged_lem :
      (w : World p i n sprintf ping) (r : Result String (Unit {0}))
      → ((pinged p i n sprintf ping w r).status ≡ unhealthy) ↔ ((e : String) × (r ≡ err e))
  unfolding pinged
  pinged_lem w (ok x) = (λ u. absurd (cc), λ f. absurd (cc f.1))
  pinged_lem w (err x) = (λ u. (x, refl), λ f. refl)

  database_lem :
      (w : World p i n sprintf ping)
      → ((database_check p i n sprintf ping w).status ≡ unhealthy) ↔ PingFails w
  unfolding database_check
  database_lem w = pinged_lem w (ping w.app.db)

  rate_lem :
      (verified failed : ℕ)
      → ((rate_check p i n sprintf ping verified failed).status ≡ unhealthy) ↔ (
          (verified + failed ≢ 0)
          × (n.greater (fail_rate p i n sprintf ping failed (verified + failed)) (n.of_int 50)
              ≡ true))
  unfolding rate_check
  rate_lem verified failed = (λ u. (λ z. ground arith, ground arith), λ h. ground (arith, h.0))

  verification_lem :
      (w : World p i n sprintf ping)
      → ((verification_check p i n sprintf ping w).status ≡ unhealthy) ↔ MostlyFailing w
  unfolding verification_check
  verification_lem w = rate_lem (counts w.app.pipeline).0 (counts w.app.pipeline).1

  firehose_lem :
      (w : World p i n sprintf ping) → (firehose_check p i n sprintf ping w).status ≢ unhealthy
  unfolding firehose_check
  firehose_lem w e = cc

  -- What an unhealthy relay suffers from.
  abbrev pub Trouble : Bool → Bool → World p i n sprintf ping → Type 0
  Trouble enable_db enable_verify w =
      NoneUp w ⊎ ((enable_db ≡ true) × PingFails w) ⊎ ((enable_verify ≡ true) × MostlyFailing w)

  found-Trouble :
      (enable_db enable_verify : Bool) (w : World p i n sprintf ping) (version : String)
      (start : Time)
      → HasUnhealthy w
          (register_checks p i n sprintf ping enable_db enable_verify (new version start)).checks
      → Trouble enable_db enable_verify w
  unfolding register_checks new register_check insert
  found-Trouble true true w version start (inl e) = inl ((ingest_lem w).0 e)
  found-Trouble true true w version start (inr (inl e)) = inr (inl (refl, (database_lem w).0 e))
  found-Trouble true true w version start (inr (inr (inl e))) = absurd (firehose_lem w e)
  found-Trouble true true w version start (inr (inr (inr (inl e)))) =
      inr (inr (refl, (verification_lem w).0 e))
  found-Trouble true false w version start (inl e) = inl ((ingest_lem w).0 e)
  found-Trouble true false w version start (inr (inl e)) = inr (inl (refl, (database_lem w).0 e))
  found-Trouble true false w version start (inr (inr (inl e))) = absurd (firehose_lem w e)
  found-Trouble false true w version start (inl e) = inl ((ingest_lem w).0 e)
  found-Trouble false true w version start (inr (inl e)) = absurd (firehose_lem w e)
  found-Trouble false true w version start (inr (inr (inl e))) =
      inr (inr (refl, (verification_lem w).0 e))
  found-Trouble false false w version start (inl e) = inl ((ingest_lem w).0 e)
  found-Trouble false false w version start (inr (inl e)) = absurd (firehose_lem w e)
  found-Trouble false false w version start (inr (inr none_left)) = absurd none_left
  found-Trouble false true w version start (inr (inr (inr none_left))) = absurd none_left
  found-Trouble true false w version start (inr (inr (inr none_left))) = absurd none_left
  found-Trouble true true w version start (inr (inr (inr (inr none_left)))) = absurd none_left

  suffers :
      (enable_db enable_verify : Bool) (w : World p i n sprintf ping) (version : String)
      (start : Time)
      → Trouble enable_db enable_verify w
      → HasUnhealthy w
          (register_checks p i n sprintf ping enable_db enable_verify (new version start)).checks
  unfolding register_checks new register_check insert
  suffers true true w version start (inl d) = inl ((ingest_lem w).1 d)
  suffers true true w version start (inr (inl (on, f))) = inr (inl ((database_lem w).1 f))
  suffers true true w version start (inr (inr (on, f))) =
      inr (inr (inr (inl ((verification_lem w).1 f))))
  suffers true false w version start (inl d) = inl ((ingest_lem w).1 d)
  suffers true false w version start (inr (inl (on, f))) = inr (inl ((database_lem w).1 f))
  suffers true false w version start (inr (inr (on, f))) = absurd (cc)
  suffers false true w version start (inl d) = inl ((ingest_lem w).1 d)
  suffers false true w version start (inr (inl (on, f))) = absurd (cc)
  suffers false true w version start (inr (inr (on, f))) =
      inr (inr (inl ((verification_lem w).1 f)))
  suffers false false w version start (inl d) = inl ((ingest_lem w).1 d)
  suffers false false w version start (inr (inl (on, f))) = absurd (cc)
  suffers false false w version start (inr (inr (on, f))) = absurd (cc)

  pub health_handler-Trouble :
      (enable_db enable_verify : Bool) (w : World p i n sprintf ping) (version : String)
      (start now : Time)
      → ((health_handler
            (register_checks p i n sprintf ping enable_db enable_verify (new version start))
            w
            now).code
          ≡ 503)
        ↔ Trouble enable_db enable_verify w
  health_handler-Trouble enable_db enable_verify w version start now =
      let (to, from) =
        (health_handler-code w
          (register_checks p i n sprintf ping enable_db enable_verify (new version start)) now).0 in
      (
        λ c. found-Trouble enable_db enable_verify w version start (to c),
        λ t. from (suffers enable_db enable_verify w version start t),
      )

  -- If arithmetic with floats keeps the order, then of the same number of verified events more
  -- failures never give the verification check a better status.
  rate_check_mono :
      (laws : FloatLaws n) (verified failed more : ℕ)
      → severity (rate_check p i n sprintf ping (verified + more) failed).status
        ≤ severity (rate_check p i n sprintf ping verified (failed + more)).status
  unfolding rate_check fail_rate
  rate_check_mono laws verified failed more =
      let total : ℕ = verified + (failed + more) in
      let same : verified + more + failed ≡ total = omega arith in
      let up : (limit : n.Float)
          → 0 < total
          → n.greater (fail_rate p i n sprintf ping failed total) limit ≡ true
          → n.greater (fail_rate p i n sprintf ping (failed + more) total) limit ≡ true =
        λ limit pos_total g.
          laws.greater_mono _ _ limit
            (laws.product_mono _ _ 100 (
              laws.quotient_mono _ _ total pos_total
                (laws.of_int_mono failed (failed + more) (omega arith))))
            g in
      rw same (ground (arith, up (n.of_int 50), up (n.of_int 10)))

-- ===== src/Verify/Tally.antt =====
-- How the pipeline counts what it verifies.
use at_protocol_infrastructu.Prelude.{
  ℕ, ◌+◌, ◌≡◌, ◌≢◌, refl, ap, Bool, not, [], String, ◌==◌, string_eq, if◌then◌else◌, if_cases,
}
use at_protocol_infrastructu.Prelude.Result.{Result, ok, err}
use at_protocol_infrastructu.Ingest.Event.{Event, Time}
use at_protocol_infrastructu.Verify.{
  Indigo, Pipeline, VerificationResult, VerifyError, verify, check_identity, check_repo, check_key,
  check_signature, is_empty, observe, record_success, record_failure, stats,
}
use at_protocol_infrastructu.Verify.Verdict.{nonempty→is_empty}

module _ (i : Indigo) where
  -- The counters of `p` after a check that ended in `valid`.
  unfoldable pub tallied : Bool → Pipeline → ℕ × ℕ
  tallied valid p = if valid then (p.verified + 1, p.failed) else (p.verified, p.failed + 1)

  check_signature-tallied :
      (p : Pipeline) (name : String) (r : Result VerifyError (Unit {0}))
      → (let o = check_signature i p name r in stats o.1 ≡ tallied o.0.valid p)
  unfolding check_signature stats tallied record_success record_failure observe
  check_signature-tallied p name (ok _) = refl
  check_signature-tallied p name (err e) = refl

  check_key-tallied :
      (p : Pipeline) (name : String) (repo : i.Repo) (r : Result String i.Key)
      → (let o = check_key i p name repo r in stats o.1 ≡ tallied o.0.valid p)
  unfolding check_key stats tallied record_failure
  check_key-tallied p name repo (ok key) = check_signature-tallied p name _
  check_key-tallied p name repo (err e) = refl

  check_repo-tallied :
      (p : Pipeline) (ident : i.Identity) (r : Result String i.Repo)
      → (let o = check_repo i p ident r in stats o.1 ≡ tallied o.0.valid p)
  unfolding check_repo stats tallied record_failure
  check_repo-tallied p ident (err e) = refl
  check_repo-tallied p ident (ok repo) =
      if_cases (λ (o : VerificationResult × Pipeline). stats o.1 ≡ tallied o.0.valid p)
        (is_empty (i.sig repo)) _ _ (λ _. refl)
        (λ _. check_key-tallied p (i.handle ident) repo (i.public_key ident))

  check_identity-tallied :
      (p : Pipeline) (event : Event) (r : Result VerifyError i.Identity)
      → (let o = check_identity i p event r in stats o.1 ≡ tallied o.0.valid p)
  unfolding check_identity stats tallied record_failure
  check_identity-tallied p event (err e) = refl
  check_identity-tallied p event (ok ident) = check_repo-tallied p ident (i.read_car event.raw_data)

  -- A commit with blocks is counted once: under the verified ones when it passes, and under the
  -- failed ones when it does not.
  pub verify-tallied :
      (p : Pipeline) (event : Event) (duration : Time)
      → event.type ≡ "commit"
      → event.raw_data ≢ []
      → stats (verify i p event duration).1 ≡ tallied (verify i p event duration).0.valid p
  unfolding verify stats tallied
  verify-tallied p event duration c b =
      rw (ap (λ t. not (t == "commit")) c, nonempty→is_empty event.raw_data b)
        (check_identity-tallied _ event _)

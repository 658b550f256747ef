-- ===== src/Verify.antt =====
-- The verification of commits (relay/internal/verify/pipeline.go and identity.go). The indigo
-- library resolves DIDs, reads CAR files and checks signatures: its answers are an argument.
pub mod Verdict
pub mod Tally
pub mod Directory
pub mod Unresolving
mod Examples
use at_protocol_infrastructu.Prelude.{
  ℕ, ◌+◌, ◌-◌, ◌≡◌, Bool, true, false, not, Option, none, some, List, [], ◌∷◌, String, ltb, ◌==◌,
  string_eq, if◌then◌else◌,
}
use at_protocol_infrastructu.Prelude.Result.{Result, ok, err}
use at_protocol_infrastructu.Ingest.Event.{Event, Time, Bytes}

-- The answers of the library: a parsed DID, its identity with a handle and, perhaps, a key, and a
-- repository with the signature of its commit and the bytes that were signed.
pub record Indigo : Type 1 where
  pub Did : Type 0
  pub Identity : Type 0
  pub Key : Type 0
  pub Repo : Type 0
  pub parse_did : String → Result String Did
  pub lookup_did : Did → Result String Identity
  pub handle : Identity → String
  pub public_key : Identity → Result String Key
  pub read_car : Bytes → Result String Repo
  pub sig : Repo → Bytes
  pub bytes_for_signing : Repo → Result String Bytes
  pub hash_and_verify : Key → Bytes → Bytes → Result String (Unit {0})

pub record Metrics : Type 0 where
  pub did_cache_hits : ℕ
  pub did_cache_misses : ℕ
  pub verification_total : String → ℕ
  pub durations_observed : ℕ

pub record Pipeline : Type 0 where
  pub metrics : Option Metrics
  pub verified : ℕ
  pub failed : ℕ

pub data VerifyError : Type 0 where
  invalid_did : String → VerifyError
  resolve_failed : String → VerifyError
  identity_failed : VerifyError → VerifyError
  car_parse_failed : String → VerifyError
  no_signature : VerifyError
  no_pubkey : String → VerifyError
  signing_bytes_failed : String → VerifyError
  bad_signature : String → VerifyError
  signature_invalid : VerifyError → VerifyError

-- `VerificationResult`, less its event and its duration.
pub record VerificationResult : Type 0 where
  pub valid : Bool
  pub identity : String
  pub error : Option VerifyError

abbrev on_metrics : (Metrics → Metrics) → Option Metrics → Option Metrics
on_metrics f none = none
on_metrics f (some m) = some (f m)

abbrev inc : String → (String → ℕ) → String → ℕ
inc label f j = if label == j then f j + 1 else f j

unfoldable pub record_success : Pipeline → Pipeline
record_success p = record p {
  verified = p.verified + 1;
  metrics =
      on_metrics (λ m. record m { verification_total = inc "success" m.verification_total })
        p.metrics;
}

unfoldable pub record_failure : Pipeline → String → Pipeline
record_failure p reason = record p {
  failed = p.failed + 1;
  metrics =
      on_metrics (λ m. record m { verification_total = inc reason m.verification_total }) p.metrics;
}

unfoldable pub stats : Pipeline → ℕ × ℕ
stats p = (p.verified, p.failed)

unfoldable pub is_empty : Bytes → Bool
is_empty [] = true
is_empty (_ ∷ _) = false

abbrev trusted : VerificationResult
trusted = record { valid = true; identity = ""; error = none }

abbrev rejected : String → VerifyError → VerificationResult
rejected identity e = record { valid = false; identity = identity; error = some e }

module _ (i : Indigo) where
  open i use {
    Did, Identity, Key, Repo, parse_did, lookup_did, handle, public_key, read_car, sig,
    bytes_for_signing, hash_and_verify,
  }

  -- The metrics of a lookup: one that took less than ten milliseconds counts as a cache hit.
  count_lookup : Time → Metrics → Metrics
  count_lookup duration m =
      if ltb duration 10000000
      then record m { did_cache_hits = m.did_cache_hits + 1 }
      else record m { did_cache_misses = m.did_cache_misses + 1 }

  lookup_metrics : Result String Identity → Time → Metrics → Metrics
  unfolding count_lookup
  lookup_metrics (err _) duration m = record m {
    did_cache_misses = m.did_cache_misses + 1;
    verification_total = inc "resolve_failed" m.verification_total;
  }
  lookup_metrics (ok _) duration m = count_lookup duration m

  looked_up : Result String Identity → Result VerifyError Identity
  looked_up (err x) = err (resolve_failed x)
  looked_up (ok ident) = ok ident

  resolve_parsed :
      Result String Did → Time → Option Metrics → Result VerifyError Identity × Option Metrics
  unfolding lookup_metrics looked_up
  resolve_parsed (err x) duration m = (err (invalid_did x), m)
  resolve_parsed (ok did) duration m =
      let r = lookup_did did in (looked_up r, on_metrics (lookup_metrics r duration) m)

  -- `ResolveIdentity`
  unfoldable pub resolve_identity :
      String → Time → Option Metrics → Result VerifyError Identity × Option Metrics
  unfolding resolve_parsed
  resolve_identity did duration m = resolve_parsed (parse_did did) duration m

  verify_bytes : Result String Bytes → Bytes → Key → Result VerifyError (Unit {0})
  verify_bytes (err x) signature key = err (signing_bytes_failed x)
  verify_bytes (ok unsigned) signature key = elim (hash_and_verify key unsigned signature) [
    | err x ↦ err (bad_signature x)
    | ok _ ↦ ok tt
  ]

  unfoldable pub verify_commit_signature : Repo → Key → Result VerifyError (Unit {0})
  unfolding verify_bytes
  verify_commit_signature repo key = verify_bytes (bytes_for_signing repo) (sig repo) key

  observe : Pipeline → Pipeline
  observe p = record p {
    metrics =
        on_metrics (λ m. record m { durations_observed = m.durations_observed + 1 }) p.metrics;
  }

  -- Steps 5, 4, 3 and 2 of `Verify`, each with the answer of the library that it looks at.
  check_signature :
      Pipeline → String → Result VerifyError (Unit {0}) → VerificationResult × Pipeline
  unfolding observe record_success record_failure
  check_signature p name (err e) =
      (rejected name (signature_invalid e), record_failure p "signature_invalid")
  check_signature p name (ok _) =
      (record { valid = true; identity = name; error = none }, observe (record_success p))

  check_key : Pipeline → String → Repo → Result String Key → VerificationResult × Pipeline
  unfolding check_signature verify_commit_signature record_failure
  check_key p name repo (err x) = (rejected name (no_pubkey x), record_failure p "no_pubkey")
  check_key p name repo (ok key) = check_signature p name (verify_commit_signature repo key)

  check_repo : Pipeline → Identity → Result String Repo → VerificationResult × Pipeline
  unfolding check_key record_failure
  check_repo p ident (err x) =
      (rejected (handle ident) (car_parse_failed x), record_failure p "car_parse_failed")
  check_repo p ident (ok repo) =
      if is_empty (sig repo)
      then (rejected (handle ident) no_signature, record_failure p "no_signature")
      else check_key p (handle ident) repo (public_key ident)

  check_identity : Pipeline → Event → Result VerifyError Identity → VerificationResult × Pipeline
  unfolding check_repo record_failure
  check_identity p event (err e) =
      (rejected "" (identity_failed e), record_failure p "identity_failed")
  check_identity p event (ok ident) = check_repo p ident (read_car event.raw_data)

  -- `Verify`; `duration` is how long the resolution takes.
  unfoldable pub verify : Pipeline → Event → Time → VerificationResult × Pipeline
  unfolding check_identity is_empty
  verify p event duration =
      if not (event.type == "commit")
      then (trusted, p)
      else if is_empty event.raw_data
      then (trusted, p)
      else let (r, m) = resolve_identity event.did duration p.metrics in
        check_identity (record p { metrics = m }) event r

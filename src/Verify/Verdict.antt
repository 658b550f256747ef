-- ===== src/Verify/Verdict.antt =====
-- Which events `Verify` of relay/internal/verify/pipeline.go lets pass, and how it counts them.
use at_protocol_infrastructu.Prelude.{
  ◌≡◌, ◌≢◌, refl, ◌⊎◌, ◌↔◌, inl, inr, true, false, not, [], ◌∷◌, String, ◌==◌, string_eq, arith,
  if_cases,
}
use text.Mathlib.TextEquality.{eq_iff}
use at_protocol_infrastructu.Prelude.Result.{Result, ok, err}
use at_protocol_infrastructu.Ingest.Event.{Event, Time, Bytes}
use at_protocol_infrastructu.Verify.{
  Indigo, Pipeline, VerificationResult, VerifyError, resolve_identity, verify_commit_signature,
  verify, check_identity, check_repo, check_key, check_signature, is_empty,
}

not_commit : (s : String) → not (s == "commit") ≡ true → s ≢ "commit"
not_commit s h e = grind (arith, eq_iff s "commit")

commit-test : (s : String) → s ≢ "commit" → not (s == "commit") ≡ true
commit-test s h = grind (arith, eq_iff s "commit")

is_empty→[] : (s : Bytes) → is_empty s ≡ true → s ≡ []
unfolding is_empty
is_empty→[] [] h = refl
is_empty→[] (x ∷ s) h = cc

is_empty-[] : is_empty [] ≡ true
unfolding is_empty
is_empty-[] = refl

[]→is_empty : (s : Bytes) → is_empty s ≡ false → s ≢ []
unfolding is_empty
[]→is_empty [] h = cc
[]→is_empty (x ∷ s) h = λ e. cc

pub nonempty→is_empty : (s : Bytes) → s ≢ [] → is_empty s ≡ false
unfolding is_empty
nonempty→is_empty [] h = elim (h refl) [ ]
nonempty→is_empty (x ∷ s) h = refl

module _ (i : Indigo) where
  -- The evidence for a commit: a resolved identity, a repository with a signature, a key, and the
  -- signature checked under it.
  pub record Proof (p : Pipeline) (event : Event) (duration : Time) : Type 0 where
    pub ident : i.Identity
    pub repo : i.Repo
    pub key : i.Key
    pub resolved : (resolve_identity i event.did duration p.metrics).0 ≡ ok ident
    pub parsed : i.read_car event.raw_data ≡ ok repo
    pub signed : i.sig repo ≢ []
    pub has_key : i.public_key ident ≡ ok key
    pub checked : verify_commit_signature i repo key ≡ ok tt

  check_signature-valid :
      (p : Pipeline) (name : String) (r : Result VerifyError (Unit {0}))
      → (check_signature i p name r).0.valid ≡ true
      → r ≡ ok tt
  unfolding check_signature
  check_signature-valid p name (ok tt) h = refl
  check_signature-valid p name (err e) h = cc

  check_key-valid :
      (p : Pipeline) (name : String) (repo : i.Repo) (r : Result String i.Key)
      → (check_key i p name repo r).0.valid ≡ true
      → (key : i.Key) × (r ≡ ok key) × (verify_commit_signature i repo key ≡ ok tt)
  unfolding check_key
  check_key-valid p name repo (ok key) h = (key, refl, check_signature-valid p name _ h)
  check_key-valid p name repo (err e) h = cc

  check_repo-valid :
      (p : Pipeline) (ident : i.Identity) (r : Result String i.Repo)
      → (check_repo i p ident r).0.valid ≡ true
      → (repo : i.Repo) × (key : i.Key) × (r ≡ ok repo)
        × (i.sig repo ≢ [])
        × (i.public_key ident ≡ ok key)
        × (verify_commit_signature i repo key ≡ ok tt)
  unfolding check_repo
  check_repo-valid p ident (err e) h = cc
  check_repo-valid p ident (ok repo) h =
      if_cases
        (λ (o : VerificationResult × Pipeline).
          o.0.valid ≡ true
          → (repo' : i.Repo) × (key : i.Key) × (◌≡◌ {A = Result String i.Repo} (ok repo) (ok repo'))
            × (i.sig repo' ≢ [])
            × (i.public_key ident ≡ ok key)
            × (verify_commit_signature i repo' key ≡ ok tt))
        (is_empty (i.sig repo)) _ _ (λ e v. cc)
        (λ e v.
          let (key, k, c) = check_key-valid p (i.handle ident) repo (i.public_key ident) v in
          (repo, key, refl, []→is_empty (i.sig repo) e, k, c))
        h

  check_identity-valid :
      (p q : Pipeline) (event : Event) (duration : Time)
      → (r : Result VerifyError i.Identity)
      → (resolve_identity i event.did duration p.metrics).0 ≡ r
      → (check_identity i q event r).0.valid ≡ true
      → Proof p event duration
  unfolding check_identity
  check_identity-valid p q event duration (err e) found h = cc
  check_identity-valid p q event duration (ok ident) found h =
      let (repo, key, read, signed, k, c) =
        check_repo-valid q ident (i.read_car event.raw_data) h in
      record {
        ident = ident;
        repo = repo;
        key = key;
        resolved = found;
        parsed = read;
        signed = signed;
        has_key = k;
        checked = c;
      }

  verify-valid :
      (p : Pipeline) (event : Event) (duration : Time)
      → (verify i p event duration).0.valid ≡ true
      → (event.type ≢ "commit") ⊎ (event.raw_data ≡ []) ⊎ Proof p event duration
  unfolding verify
  verify-valid p event duration =
      if_cases
        (λ (o : VerificationResult × Pipeline).
          o.0.valid ≡ true
          → (event.type ≢ "commit") ⊎ (event.raw_data ≡ []) ⊎ Proof p event duration)
        (not (event.type == "commit")) _ _ (λ e v. inl (not_commit event.type e))
        (λ _.
          if_cases
            (λ (o : VerificationResult × Pipeline).
              o.0.valid ≡ true
              → (event.type ≢ "commit") ⊎ (event.raw_data ≡ []) ⊎ Proof p event duration)
            (is_empty event.raw_data) _ _ (λ e v. inr (inl (is_empty→[] event.raw_data e)))
            (λ _ v. inr (inr (check_identity-valid p _ event duration _ refl v))))

  Proof-check_identity :
      (p q : Pipeline) (event : Event) (duration : Time) (w : Proof p event duration)
      → (check_identity i q event (resolve_identity i event.did duration p.metrics).0).0.valid
        ≡ true
  unfolding check_identity check_repo check_key check_signature
  Proof-check_identity p q event duration w =
      rw (w.resolved, w.parsed, nonempty→is_empty (i.sig w.repo) w.signed, w.has_key, w.checked)
        refl

  -- What `verify` asks of an event.
  unfoldable pub Acceptable : Pipeline → Event → Time → Type 0
  Acceptable p event duration =
      (event.type ≢ "commit") ⊎ (event.raw_data ≡ []) ⊎ Proof p event duration

  Acceptable-valid :
      (p : Pipeline) (event : Event) (duration : Time)
      → Acceptable p event duration
      → (verify i p event duration).0.valid ≡ true
  unfolding Acceptable verify
  Acceptable-valid p event duration (inl n) = rw (commit-test event.type n) refl
  Acceptable-valid p event duration (inr (inl e)) =
      if_cases (λ (o : VerificationResult × Pipeline). o.0.valid ≡ true)
        (not (event.type == "commit")) _ _ (λ _. refl) (λ _. rw (e, is_empty-[]) refl)
  Acceptable-valid p event duration (inr (inr w)) =
      if_cases (λ (o : VerificationResult × Pipeline). o.0.valid ≡ true)
        (not (event.type == "commit")) _ _ (λ _. refl)
        (λ _.
          if_cases (λ (o : VerificationResult × Pipeline). o.0.valid ≡ true)
            (is_empty event.raw_data) _ _ (λ _. refl)
            (λ _. Proof-check_identity p _ event duration w))

  pub verify-valid_iff :
      (p : Pipeline) (event : Event) (duration : Time)
      → ((verify i p event duration).0.valid ≡ true) ↔ Acceptable p event duration
  unfolding Acceptable
  verify-valid_iff p event duration =
      (verify-valid p event duration, Acceptable-valid p event duration)

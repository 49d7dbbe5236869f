-- ===== src/Verify/Lease.antt =====
-- orchestration/verification_lifecycle.py: `VerificationCandidate` and `VerificationLease`, the
-- payload of a lease and its reader. Counts that are never below 0 are natural numbers.

use blackcell.Prelude.{
  ℕ, pos, String, Bool, List, [], ◌∷◌, Option, none, some, ◌||◌, not, ltb, leb, str_eq, all, ok,
  ◌>>=◌, ◌>>◌,
}
use blackcell.Prelude.Patterns.{is_digest}
use blackcell.Json.{Json, text, int, obj, dict, get, is_text}
use blackcell.Host.{Host, DateTime, json_digest}
use blackcell.Verify.{
  Result, refused, refuse, mapping, exact, text_value, is_identifier, identifier, digest,
  positive_integer, nonnegative_integer, verification_id, review_id,
}

pub record VerificationCandidate : Type 0 where
  pub run_id : String
  pub verification_id : String
  pub correlation_id : String
  pub run_event_id : String
  pub run_event_digest : String
  pub state_digest : String
  pub artifact_evidence_digest : String
  pub review_id : String
  pub review_event_id : String
  pub review_event_digest : String
  pub acceptance_digest : String
  pub context_digest : String
  pub proposal_artifact_digest : String
  pub provider_result_artifact_digest : String
  pub admitted_review_digest : String
  pub finding_count : ℕ

pub record VerificationLease : Type 0 where
  pub run_id : String
  pub verification_id : String
  pub attempt : ℕ
  pub fencing_token : ℕ
  pub worker_id : String
  pub run_event_id : String
  pub run_event_digest : String
  pub state_digest : String
  pub artifact_evidence_digest : String
  pub review_id : String
  pub review_event_id : String
  pub review_event_digest : String
  pub acceptance_digest : String
  pub context_digest : String
  pub proposal_artifact_digest : String
  pub provider_result_artifact_digest : String
  pub admitted_review_digest : String
  pub finding_count : ℕ
  pub expires_at : DateTime
  pub schema_version : String

abbrev identifiers : VerificationCandidate → List String
identifiers c =
    c.run_id ∷ c.verification_id ∷ c.correlation_id ∷ c.run_event_id ∷ c.review_id
    ∷ c.review_event_id ∷ []

abbrev digests : VerificationCandidate → List String
digests c =
    c.run_event_digest ∷ c.state_digest ∷ c.artifact_evidence_digest ∷ c.review_event_digest
    ∷ c.acceptance_digest ∷ c.context_digest ∷ c.proposal_artifact_digest
    ∷ c.provider_result_artifact_digest ∷ c.admitted_review_digest ∷ []

-- the checks of the single fields of a candidate
unfoldable pub is_odd_candidate : VerificationCandidate → Bool
is_odd_candidate c =
    not (all is_identifier (identifiers c))
    || not (all is_digest (digests c))
    || not (leb c.finding_count 64)

module _ (host : Host) where
  -- `VerificationCandidate.__post_init__`
  unfoldable pub new_candidate : VerificationCandidate → Result VerificationCandidate
  unfolding is_odd_candidate
  new_candidate c = do
    refuse (is_odd_candidate c)
    review ← review_id host c.run_id c.run_event_digest
    refuse (not (str_eq c.review_id review))
    verification ← verification_id host c.run_id c.review_event_digest
    refuse (not (str_eq c.verification_id verification))
    ok c

-- the candidate that `VerificationLease.__post_init__` makes of its own fields
abbrev pub candidate_of : VerificationLease → VerificationCandidate
candidate_of l = record {
  run_id = l.run_id;
  verification_id = l.verification_id;
  correlation_id = "lease-validation";
  run_event_id = l.run_event_id;
  run_event_digest = l.run_event_digest;
  state_digest = l.state_digest;
  artifact_evidence_digest = l.artifact_evidence_digest;
  review_id = l.review_id;
  review_event_id = l.review_event_id;
  review_event_digest = l.review_event_digest;
  acceptance_digest = l.acceptance_digest;
  context_digest = l.context_digest;
  proposal_artifact_digest = l.proposal_artifact_digest;
  provider_result_artifact_digest = l.provider_result_artifact_digest;
  admitted_review_digest = l.admitted_review_digest;
  finding_count = l.finding_count;
}

-- the fields of a lease that no retry changes: `_immutable_lease_identity`
abbrev pub immutable_identity : VerificationLease → List String × ℕ
immutable_identity l = (
  l.run_id ∷ l.verification_id ∷ l.run_event_id ∷ l.run_event_digest ∷ l.state_digest
      ∷ l.artifact_evidence_digest ∷ l.review_id ∷ l.review_event_id ∷ l.review_event_digest
      ∷ l.acceptance_digest ∷ l.context_digest ∷ l.proposal_artifact_digest
      ∷ l.provider_result_artifact_digest ∷ l.admitted_review_digest ∷ [],
  l.finding_count,
)

-- the checks of the fields that only a lease has
unfoldable pub is_odd_lease : VerificationLease → Bool
is_odd_lease l =
    not (str_eq l.schema_version "verification-lease/v1")
    || not (is_identifier l.worker_id)
    || ltb l.attempt 1
    || ltb l.fencing_token 1
    || not l.expires_at.is_aware

module _ (host : Host) where
  -- `VerificationLease.__post_init__`
  unfoldable pub new_lease : VerificationLease → Result VerificationLease
  unfolding new_candidate is_odd_lease
  new_lease l = do
    candidate ← new_candidate host (candidate_of l)
    refuse (is_odd_lease l || not (str_eq candidate.run_id l.run_id))
    ok l

  -- `verification_lease_payload`
  unfoldable pub lease_payload : VerificationLease → Json
  lease_payload l = obj (
      dict (
        ("schema_version", text l.schema_version)
        ∷ ("run_id", text l.run_id)
        ∷ ("verification_id", text l.verification_id)
        ∷ ("attempt", int (pos l.attempt))
        ∷ ("fencing_token", int (pos l.fencing_token))
        ∷ ("worker_id", text l.worker_id)
        ∷ ("run_event_id", text l.run_event_id)
        ∷ ("run_event_digest", text l.run_event_digest)
        ∷ ("state_digest", text l.state_digest)
        ∷ ("artifact_evidence_digest", text l.artifact_evidence_digest)
        ∷ ("review_id", text l.review_id)
        ∷ ("review_event_id", text l.review_event_id)
        ∷ ("review_event_digest", text l.review_event_digest)
        ∷ ("acceptance_digest", text l.acceptance_digest)
        ∷ ("context_digest", text l.context_digest)
        ∷ ("proposal_artifact_digest", text l.proposal_artifact_digest)
        ∷ ("provider_result_artifact_digest", text l.provider_result_artifact_digest)
        ∷ ("admitted_review_digest", text l.admitted_review_digest)
        ∷ ("finding_count", int (pos l.finding_count))
        ∷ ("expires_at", text (host.isoformat_at l.expires_at))
        ∷ []))

  -- `VerificationLease.digest`
  unfoldable pub lease_digest : VerificationLease → String
  unfolding lease_payload
  lease_digest l = json_digest host (lease_payload l)

  abbrev pub or_refused : Option DateTime → Result DateTime
  or_refused none = refused
  or_refused (some time) = ok time

  -- `verification_lease_from_mapping`
  unfoldable pub lease_from_mapping : Json → Result VerificationLease
  lease_from_mapping value = do
    raw ← mapping value
    exact raw (
        "schema_version" ∷ "run_id" ∷ "verification_id" ∷ "attempt" ∷ "fencing_token" ∷ "worker_id"
        ∷ "run_event_id" ∷ "run_event_digest" ∷ "state_digest" ∷ "artifact_evidence_digest"
        ∷ "review_id" ∷ "review_event_id" ∷ "review_event_digest" ∷ "acceptance_digest"
        ∷ "context_digest" ∷ "proposal_artifact_digest" ∷ "provider_result_artifact_digest"
        ∷ "admitted_review_digest" ∷ "finding_count" ∷ "expires_at" ∷ [])
    refuse (not (is_text (get "schema_version" raw) "verification-lease/v1"))
    expires ← text_value (get "expires_at" raw)
    expires_at ← or_refused (host.fromisoformat expires)
    run_id ← identifier (get "run_id" raw)
    verification ← identifier (get "verification_id" raw)
    attempt ← positive_integer (get "attempt" raw)
    fencing_token ← positive_integer (get "fencing_token" raw)
    worker_id ← identifier (get "worker_id" raw)
    run_event_id ← identifier (get "run_event_id" raw)
    run_event_digest ← digest (get "run_event_digest" raw)
    state_digest ← digest (get "state_digest" raw)
    artifact_evidence_digest ← digest (get "artifact_evidence_digest" raw)
    review ← identifier (get "review_id" raw)
    review_event_id ← identifier (get "review_event_id" raw)
    review_event_digest ← digest (get "review_event_digest" raw)
    acceptance_digest ← digest (get "acceptance_digest" raw)
    context_digest ← digest (get "context_digest" raw)
    proposal_artifact_digest ← digest (get "proposal_artifact_digest" raw)
    provider_result_artifact_digest ← digest (get "provider_result_artifact_digest" raw)
    admitted_review_digest ← digest (get "admitted_review_digest" raw)
    finding_count ← nonnegative_integer (get "finding_count" raw) 64
    new_lease (record {
      run_id = run_id;
      verification_id = verification;
      attempt = attempt;
      fencing_token = fencing_token;
      worker_id = worker_id;
      run_event_id = run_event_id;
      run_event_digest = run_event_digest;
      state_digest = state_digest;
      artifact_evidence_digest = artifact_evidence_digest;
      review_id = review;
      review_event_id = review_event_id;
      review_event_digest = review_event_digest;
      acceptance_digest = acceptance_digest;
      context_digest = context_digest;
      proposal_artifact_digest = proposal_artifact_digest;
      provider_result_artifact_digest = provider_result_artifact_digest;
      admitted_review_digest = admitted_review_digest;
      finding_count = finding_count;
      expires_at = expires_at;
      schema_version = "verification-lease/v1";
    })

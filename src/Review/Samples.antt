-- ===== src/Review/Samples.antt =====
-- A review that is claimed, queued again, claimed once more, sent to the provider, and succeeds.
use blackcell.Prelude.{ℕ, pos, String, true, none, some, List, [], ◌∷◌}
use blackcell.Json.{text, int, Fields, dict}
use blackcell.Samples.{host, digest}
use blackcell.Kernel.Event.{EventEnvelope}
use blackcell.Review.Lease.{ReviewLease, lease_payload}

abbrev pub review : String
review = "review-00112233445566778899aabbccddeeff0011223344556677"

abbrev pub lease : ℕ → ℕ → ReviewLease
lease n expiry = record {
  run_id = "run";
  review_id = review;
  attempt = n;
  fencing_token = n;
  worker_id = "worker";
  run_event_id = "run-end";
  run_event_digest = digest;
  state_digest = digest;
  artifact_evidence_digest = digest;
  expires_at = record { instant = expiry; offset = pos 0; is_aware = true };
  schema_version = "review-lease/v1";
}

abbrev pub event : ℕ → String → String → String → String → Fields → EventEnvelope
event n id kind cause actor payload = record {
  event_id = id;
  stream_id = "review:run";
  stream_sequence = n;
  event_type = kind;
  schema_version = 1;
  recorded_at = n;
  effective_at = n;
  correlation_id = "correlation";
  causation_id = some cause;
  actor = actor;
  source = "blackcell.runtime";
  payload = payload;
  payload_hash = digest;
  idempotency_key = none;
  global_position = none;
}

abbrev pub claim_payload : ℕ → Fields
claim_payload n = dict (
    ("principal_id", text "worker")
    ∷ ("lease_digest", text digest)
    ∷ ("lease", lease_payload host (lease n 1000))
    ∷ ("status", text "claimed")
    ∷ [])

abbrev pub first_claim : EventEnvelope
first_claim = event 1 "e1" "review.claimed" "run-end" "worker" (claim_payload 1)

abbrev pub requeued : EventEnvelope
requeued = event 2 "e2" "review.requeued" "e1" "host" (
    dict (
      ("principal_id", text "host")
      ∷ ("run_id", text "run")
      ∷ ("review_id", text review)
      ∷ ("lease_digest", text digest)
      ∷ ("disposition", text "pre-dispatch")
      ∷ ("status", text "requeued")
      ∷ []))

abbrev pub second_claim : EventEnvelope
second_claim = event 3 "e3" "review.claimed" "e2" "worker" (claim_payload 2)

abbrev pub dispatched : EventEnvelope
dispatched = event 4 "e4" "review.provider-dispatch-started" "e3" "worker" (
    dict (
      ("principal_id", text "worker")
      ∷ ("run_id", text "run")
      ∷ ("review_id", text review)
      ∷ ("lease_digest", text digest)
      ∷ ("provider_request_id", text review)
      ∷ ("acceptance_digest", text digest)
      ∷ ("context_digest", text digest)
      ∷ ("context_artifact_digest", text digest)
      ∷ ("status", text "provider-dispatch-started")
      ∷ []))

abbrev pub succeeded : EventEnvelope
succeeded = event 5 "e5" "review.succeeded" "e4" "worker" (
    dict (
      ("principal_id", text "worker")
      ∷ ("run_id", text "run")
      ∷ ("review_id", text review)
      ∷ ("lease_digest", text digest)
      ∷ ("context_digest", text digest)
      ∷ ("proposal_artifact_digest", text digest)
      ∷ ("provider_result_artifact_digest", text digest)
      ∷ ("admitted_artifact_digest", text digest)
      ∷ ("finding_count", int (pos 2))
      ∷ ("status", text "succeeded")
      ∷ []))

abbrev pub before_success : List EventEnvelope
before_success = first_claim ∷ requeued ∷ second_claim ∷ dispatched ∷ []

abbrev pub history : List EventEnvelope
history = first_claim ∷ requeued ∷ second_claim ∷ dispatched ∷ succeeded ∷ []

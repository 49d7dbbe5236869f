-- ===== src/Verify/Samples.antt =====
-- A verification that is claimed, given back, claimed again and completed.

use blackcell.Prelude.{ℕ, pos, String, true, none, some, [], ◌∷◌}
use blackcell.Json.{text, Fields, dict}
use blackcell.Samples.{host, digest}
use blackcell.Kernel.Event.{EventEnvelope}
use blackcell.Verify.Lease.{VerificationLease, lease_payload}

abbrev pub lease : ℕ → VerificationLease
lease n = record {
  run_id = "run";
  verification_id = "verification-00112233445566778899aabbccddeeff0011223344556677";
  attempt = n;
  fencing_token = n;
  worker_id = "worker";
  run_event_id = "run-end";
  run_event_digest = digest;
  state_digest = digest;
  artifact_evidence_digest = digest;
  review_id = "review-00112233445566778899aabbccddeeff0011223344556677";
  review_event_id = "review-end";
  review_event_digest = digest;
  acceptance_digest = digest;
  context_digest = digest;
  proposal_artifact_digest = digest;
  provider_result_artifact_digest = digest;
  admitted_review_digest = digest;
  finding_count = 0;
  expires_at = record { instant = 1000; offset = pos 0; is_aware = true };
  schema_version = "verification-lease/v1";
}

abbrev pub event : ℕ → String → String → String → String → Fields → EventEnvelope
event n id kind cause actor payload = record {
  event_id = id;
  stream_id = "verification:run";
  stream_sequence = n;
  event_type = kind;
  schema_version = 1;
  recorded_at = n;
  effective_at = n;
  correlation_id = "correlation";
  causation_id = some cause;
  actor = actor;
  source = "blackcell.runtime";
  payload = payload;
  payload_hash = digest;
  idempotency_key = none;
  global_position = none;
}

abbrev pub claim_payload : ℕ → Fields
claim_payload n = dict (
    ("principal_id", text "worker")
    ∷ ("lease_digest", text digest)
    ∷ ("lease", lease_payload host (lease n))
    ∷ ("status", text "claimed")
    ∷ [])

abbrev pub first_claim : EventEnvelope
first_claim = event 1 "e1" "verification.claimed" "review-end" "worker" (claim_payload 1)

abbrev pub requeued : EventEnvelope
requeued = event 2 "e2" "verification.requeued" "e1" "host" (
    dict (
      ("principal_id", text "host")
      ∷ ("run_id", text "run")
      ∷ ("verification_id", text "verification-00112233445566778899aabbccddeeff0011223344556677")
      ∷ ("lease_digest", text digest)
      ∷ ("disposition", text "deterministic-retry")
      ∷ ("status", text "requeued")
      ∷ []))

abbrev pub second_claim : EventEnvelope
second_claim = event 3 "e3" "verification.claimed" "e2" "worker" (claim_payload 2)

abbrev pub completed : EventEnvelope
completed = event 4 "e4" "verification.completed" "e3" "worker" (
    dict (
      ("principal_id", text "worker")
      ∷ ("run_id", text "run")
      ∷ ("verification_id", text "verification-00112233445566778899aabbccddeeff0011223344556677")
      ∷ ("lease_digest", text digest)
      ∷ ("verdict", text "pass")
      ∷ ("report_artifact_digest", text digest)
      ∷ ("matrix_digest", text digest)
      ∷ ("status", text "completed")
      ∷ []))

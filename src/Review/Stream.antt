-- ===== src/Review/Stream.antt =====
-- orchestration/review_lifecycle.py: the checks of a review's stream, the loop over its events and the
-- payload of the state that it ends in.
use blackcell.Prelude.{
  ℕ, suc, pos, String, Bool, true, Option, none, some, List, [], ◌∷◌, ◌&&◌, not, ◌||◌, ◌==◌, str_eq,
  all, is_some, ok, ◌>>=◌, ◌>>◌,
}
use blackcell.Json.{Json, null, text, int, obj, dict, text_or_null}
use blackcell.Host.{Host}
use blackcell.Kernel.Event.{EventEnvelope}
use blackcell.Lifecycle.Fold.{causes_ok, last_event}
use blackcell.Verify.{Result}
use blackcell.Review.{refused, refuse, identifier, review_stream}
use blackcell.Review.Lease.{lease_digest}
use blackcell.Review.State.{Status, ReviewLifecycleState, Fold, start, kind_of}
use blackcell.Review.Fold.{review_event}

-- the loop over `enumerate(ordered, start=1)`, from `sequence`
unfoldable pub envelopes_ok : String → ℕ → List EventEnvelope → Bool
unfolding kind_of
envelopes_ok stream_id sequence [] = true
envelopes_ok stream_id sequence (event ∷ events) =
    str_eq event.stream_id stream_id
    && event.stream_sequence == sequence
    && event.schema_version == 1
    && str_eq event.source "blackcell.runtime"
    && is_some (kind_of event)
    && envelopes_ok stream_id (suc sequence) events

unfoldable pub review_events : Host → String → Fold → List EventEnvelope → Result Fold
unfolding review_event
review_events host run_id state [] = ok state
review_events host run_id state (event ∷ events) = do
  next ← review_event host run_id state event
  review_events host run_id next events

-- what is returned, or the last two checks
unfoldable pub result_of : String → EventEnvelope → Fold → Result ReviewLifecycleState
result_of run_id latest state = elim state.status [
  | none ↦ refused
  | some status ↦ elim state.lease [
    | none ↦ refused
    | some lease ↦ ok (record {
      run_id = run_id;
      review_id = lease.review_id;
      status = status;
      lease = lease;
      acceptance_digest = state.acceptance_digest;
      context_digest = state.context_digest;
      provider_request_id = state.provider_request_id;
      provider_dispatch_event_id = state.provider_dispatch_event_id;
      proposal_artifact_digest = state.proposal_artifact_digest;
      provider_result_artifact_digest = state.provider_result_artifact_digest;
      admitted_artifact_digest = state.admitted_artifact_digest;
      finding_count = state.finding_count;
      failure_code = state.failure_code;
      result_artifact_digest = state.result_artifact_digest;
      latest_event = latest;
    })
  ]
]

-- `fold_review_lifecycle`
unfoldable pub fold_review_lifecycle :
    Host → String → List EventEnvelope → Result ReviewLifecycleState
unfolding identifier review_stream envelopes_ok causes_ok review_events result_of last_event
fold_review_lifecycle host run_id [] = do _ ← identifier (text run_id); refused
fold_review_lifecycle host run_id (event ∷ events) = do
  _ ← identifier (text run_id)
  stream_id ← review_stream run_id
  refuse (not (envelopes_ok stream_id 1 (event ∷ events)))
  refuse (
      not (all (λ e. str_eq e.correlation_id event.correlation_id) (event ∷ events))
      || not (causes_ok event events))
  state ← review_events host run_id start (event ∷ events)
  result_of run_id (last_event event events) state

-- `value.status.value`
unfoldable pub status_text : Status → String
status_text Status.claimed = "claimed"
status_text Status.provider_dispatched = "provider-dispatched"
status_text Status.succeeded = "succeeded"
status_text Status.failed = "failed"
status_text Status.requeued = "requeued"
status_text Status.reconciliation_required = "reconciliation-required"

-- a number, or `None`
unfoldable pub number_or_null : Option ℕ → Json
number_or_null none = null
number_or_null (some n) = int (pos n)

-- `review_lifecycle_payload`
unfoldable pub lifecycle_payload : Host → ReviewLifecycleState → Json
unfolding status_text number_or_null
lifecycle_payload host value =
    let lease = value.lease in
    obj (
      dict (
        ("run_id", text value.run_id)
        ∷ ("review_id", text value.review_id)
        ∷ ("status", text (status_text value.status))
        ∷ ("lease_digest", text (lease_digest host lease))
        ∷ ("attempt", int (pos lease.attempt))
        ∷ ("fencing_token", int (pos lease.fencing_token))
        ∷ ("worker_id", text lease.worker_id)
        ∷ ("run_event_id", text lease.run_event_id)
        ∷ ("run_event_digest", text lease.run_event_digest)
        ∷ ("state_digest", text lease.state_digest)
        ∷ ("artifact_evidence_digest", text lease.artifact_evidence_digest)
        ∷ ("expires_at", text (host.isoformat_at lease.expires_at))
        ∷ ("acceptance_digest", text_or_null value.acceptance_digest)
        ∷ ("context_digest", text_or_null value.context_digest)
        ∷ ("provider_request_id", text_or_null value.provider_request_id)
        ∷ ("provider_dispatch_event_id", text_or_null value.provider_dispatch_event_id)
        ∷ ("proposal_artifact_digest", text_or_null value.proposal_artifact_digest)
        ∷ ("provider_result_artifact_digest", text_or_null value.provider_result_artifact_digest)
        ∷ ("admitted_artifact_digest", text_or_null value.admitted_artifact_digest)
        ∷ ("finding_count", number_or_null value.finding_count)
        ∷ ("failure_code", text_or_null value.failure_code)
        ∷ ("result_artifact_digest", text_or_null value.result_artifact_digest)
        ∷ ("stream_sequence", int (pos value.latest_event.stream_sequence))
        ∷ ("latest_event_id", text value.latest_event.event_id)
        ∷ ("latest_event_digest", text value.latest_event.payload_hash)
        ∷ []))

-- ===== src/Verify/Stream.antt =====
-- orchestration/verification_lifecycle.py: the checks of a verification's stream, the loop over its
-- events and the payload of the state that it ends in.

use blackcell.Prelude.{
  ℕ, suc, pos, String, Bool, true, Option, none, some, List, [], ◌∷◌, ◌&&◌, not, ◌||◌, ◌==◌, str_eq,
  all, is_some, ok, ◌>>=◌, ◌>>◌,
}
use blackcell.Json.{Json, null, text, int, obj, dict, text_or_null}
use blackcell.Host.{Host}
use blackcell.Kernel.Event.{EventEnvelope}
use blackcell.Lifecycle.Fold.{causes_ok, last_event}
use blackcell.Verify.{Result, refused, refuse, identifier, verification_stream}
use blackcell.Verify.Lease.{lease_digest}
use blackcell.Verify.State.{Status, Verdict, VerificationLifecycleState, Fold, start, kind_of}
use blackcell.Verify.Fold.{fold_event}

-- the loop over `enumerate(ordered, start=1)`, from `sequence`
unfoldable pub envelopes_ok : String → ℕ → List EventEnvelope → Bool
unfolding kind_of
envelopes_ok stream_id sequence [] = true
envelopes_ok stream_id sequence (event ∷ events) =
    str_eq event.stream_id stream_id
    && event.stream_sequence == sequence
    && event.schema_version == 1
    && str_eq event.source "blackcell.runtime"
    && is_some (kind_of event)
    && envelopes_ok stream_id (suc sequence) events

unfoldable pub fold_events : Host → String → Fold → List EventEnvelope → Result Fold
unfolding fold_event
fold_events host run_id state [] = ok state
fold_events host run_id state (event ∷ events) = do
  next ← fold_event host run_id state event
  fold_events host run_id next events

-- what is returned, or the last two checks
unfoldable pub result_of : String → EventEnvelope → Fold → Result VerificationLifecycleState
result_of run_id latest state = elim state.status [
  | none ↦ refused
  | some status ↦ elim state.lease [
    | none ↦ refused
    | some lease ↦ ok (record {
      run_id = run_id;
      verification_id = lease.verification_id;
      status = status;
      lease = lease;
      verdict = state.verdict;
      report_artifact_digest = state.report_artifact_digest;
      matrix_digest = state.matrix_digest;
      failure_code = state.failure_code;
      result_artifact_digest = state.result_artifact_digest;
      latest_event = latest;
    })
  ]
]

-- `fold_verification_lifecycle`
unfoldable pub fold_verification_lifecycle :
    Host → String → List EventEnvelope → Result VerificationLifecycleState
unfolding identifier verification_stream envelopes_ok causes_ok fold_events result_of last_event
fold_verification_lifecycle host run_id [] = do _ ← identifier (text run_id); refused
fold_verification_lifecycle host run_id (event ∷ events) = do
  _ ← identifier (text run_id)
  stream_id ← verification_stream run_id
  refuse (not (envelopes_ok stream_id 1 (event ∷ events)))
  refuse (
      not (all (λ e. str_eq e.correlation_id event.correlation_id) (event ∷ events))
      || not (causes_ok event events))
  state ← fold_events host run_id start (event ∷ events)
  result_of run_id (last_event event events) state

-- `value.status.value`
unfoldable pub status_text : Status → String
status_text Status.claimed = "claimed"
status_text Status.completed = "completed"
status_text Status.failed = "failed"
status_text Status.requeued = "requeued"

-- `None if value.verdict is None else value.verdict.value`
unfoldable pub verdict_json : Option Verdict → Json
verdict_json none = null
verdict_json (some Verdict.pass) = text "pass"
verdict_json (some Verdict.fail) = text "fail"
verdict_json (some Verdict.inconclusive) = text "inconclusive"

-- `verification_lifecycle_payload`
unfoldable pub lifecycle_payload : Host → VerificationLifecycleState → Json
lifecycle_payload host value =
    let lease = value.lease in
    obj (
      dict (
        ("run_id", text value.run_id)
        ∷ ("verification_id", text value.verification_id)
        ∷ ("status", text (status_text value.status))
        ∷ ("lease_digest", text (lease_digest host lease))
        ∷ ("attempt", int (pos lease.attempt))
        ∷ ("fencing_token", int (pos lease.fencing_token))
        ∷ ("worker_id", text lease.worker_id)
        ∷ ("run_event_id", text lease.run_event_id)
        ∷ ("run_event_digest", text lease.run_event_digest)
        ∷ ("state_digest", text lease.state_digest)
        ∷ ("artifact_evidence_digest", text lease.artifact_evidence_digest)
        ∷ ("review_id", text lease.review_id)
        ∷ ("review_event_id", text lease.review_event_id)
        ∷ ("review_event_digest", text lease.review_event_digest)
        ∷ ("acceptance_digest", text lease.acceptance_digest)
        ∷ ("context_digest", text lease.context_digest)
        ∷ ("proposal_artifact_digest", text lease.proposal_artifact_digest)
        ∷ ("provider_result_artifact_digest", text lease.provider_result_artifact_digest)
        ∷ ("admitted_review_digest", text lease.admitted_review_digest)
        ∷ ("finding_count", int (pos lease.finding_count))
        ∷ ("expires_at", text (host.isoformat_at lease.expires_at))
        ∷ ("verdict", verdict_json value.verdict)
        ∷ ("report_artifact_digest", text_or_null value.report_artifact_digest)
        ∷ ("matrix_digest", text_or_null value.matrix_digest)
        ∷ ("failure_code", text_or_null value.failure_code)
        ∷ ("result_artifact_digest", text_or_null value.result_artifact_digest)
        ∷ ("stream_sequence", int (pos value.latest_event.stream_sequence))
        ∷ ("latest_event_id", text value.latest_event.event_id)
        ∷ ("latest_event_digest", text value.latest_event.payload_hash)
        ∷ []))

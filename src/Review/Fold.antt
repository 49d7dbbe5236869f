-- ===== src/Review/Fold.antt =====
-- orchestration/review_lifecycle.py: `fold_review_lifecycle`. A step of the loop is one function for
-- each event type.
use blackcell.Prelude.{
  String, true, false, Option, none, some, [], ◌∷◌, ◌||◌, not, str_eq, ok, ◌>>=◌, ◌>>◌,
}
use blackcell.Json.{obj, get, is_text}
use blackcell.Host.{Host}
use blackcell.Kernel.Event.{EventEnvelope}
use blackcell.Lifecycle.Guards.{is_option_text}
use blackcell.Verify.{Result}
use blackcell.Review.{
  refused, refuse, mapping, exact, identifier, digest, failure_code, nonnegative_integer,
  review_provider_request_id,
}
use blackcell.Review.Lease.{ReviewLease, lease_digest, lease_from_mapping}
use blackcell.Review.State.{Status, Fold, Kind, kind_of}
use blackcell.Review.Guards.{
  principal_of, is_claimed, is_dispatched, is_held, is_open, first_of, optional_digest,
  host_transition, active_lease, is_odd_claim, renewable,
}

module _ (host : Host) (run_id : String) (state : Fold) (event : EventEnvelope) where
  -- the assignments of a claim
  abbrev pub claimed_by : ReviewLease → Fold
  claimed_by candidate = record {
    status = some Status.claimed;
    lease = some candidate;
    baseline = some (first_of state.baseline candidate);
    acceptance_digest = none;
    context_digest = none;
    provider_request_id = none;
    provider_dispatch_event_id = none;
    proposal_artifact_digest = none;
    provider_result_artifact_digest = none;
    admitted_artifact_digest = none;
    finding_count = none;
    failure_code = none;
    result_artifact_digest = none;
  }

  -- `event.event_type == REVIEW_CLAIMED`
  unfoldable pub claim : String → Result Fold
  unfolding exact lease_from_mapping is_odd_claim
  claim principal = do
    exact event.payload ("principal_id" ∷ "lease_digest" ∷ "lease" ∷ "status" ∷ [])
    refuse (not (is_open state.status))
    lease ← mapping (get "lease" event.payload)
    candidate ← lease_from_mapping host (obj lease)
    refuse (is_odd_claim host run_id state event principal candidate)
    ok (claimed_by candidate)

  -- `event.event_type == REVIEW_LEASE_RENEWED`
  unfoldable pub renew : String → Result Fold
  unfolding exact lease_from_mapping renewable
  renew principal = do
    exact event.payload
        ("principal_id" ∷ "previous_lease_digest" ∷ "lease_digest" ∷ "lease" ∷ "status" ∷ [])
    lease ← mapping (get "lease" event.payload)
    renewed ← lease_from_mapping host (obj lease)
    _ ← renewable host run_id state event principal renewed
    ok (record state { lease = some renewed })

  -- `event.event_type == REVIEW_PROVIDER_DISPATCH_STARTED`
  unfoldable pub dispatch_provider : String → Result Fold
  unfolding exact active_lease identifier digest review_provider_request_id
  dispatch_provider principal = do
    let payload = event.payload
    exact payload (
        "principal_id" ∷ "run_id" ∷ "review_id" ∷ "lease_digest" ∷ "provider_request_id"
        ∷ "acceptance_digest" ∷ "context_digest" ∷ "context_artifact_digest" ∷ "status" ∷ [])
    active ← active_lease host run_id state event principal is_claimed false
    request_id ← identifier (get "provider_request_id" payload)
    acceptance ← digest (get "acceptance_digest" payload)
    context ← digest (get "context_digest" payload)
    expected ← review_provider_request_id (lease_digest host active)
    refuse (
        not (str_eq request_id expected)
        || not (is_text (get "context_artifact_digest" payload) context)
        || not (is_text (get "status" payload) "provider-dispatch-started"))
    ok (record state {
      acceptance_digest = some acceptance;
      context_digest = some context;
      provider_request_id = some request_id;
      provider_dispatch_event_id = some event.event_id;
      status = some Status.provider_dispatched;
    })

  -- `event.event_type == REVIEW_SUCCEEDED`
  unfoldable pub succeed : String → Result Fold
  unfolding exact active_lease nonnegative_integer digest is_option_text
  succeed principal = do
    let payload = event.payload
    exact payload (
        "principal_id" ∷ "run_id" ∷ "review_id" ∷ "lease_digest" ∷ "context_digest"
        ∷ "proposal_artifact_digest" ∷ "provider_result_artifact_digest"
        ∷ "admitted_artifact_digest" ∷ "finding_count" ∷ "status" ∷ [])
    _ ← active_lease host run_id state event principal is_dispatched false
    count ← nonnegative_integer (get "finding_count" payload) 64
    refuse (
        not (is_option_text (get "context_digest" payload) state.context_digest)
        || not (is_text (get "status" payload) "succeeded"))
    proposal ← digest (get "proposal_artifact_digest" payload)
    provider_result ← digest (get "provider_result_artifact_digest" payload)
    admitted ← digest (get "admitted_artifact_digest" payload)
    ok (record state {
      proposal_artifact_digest = some proposal;
      provider_result_artifact_digest = some provider_result;
      admitted_artifact_digest = some admitted;
      finding_count = some count;
      status = some Status.succeeded;
    })

  -- `event.event_type == REVIEW_FAILED`
  unfoldable pub give_up : String → Result Fold
  unfolding exact active_lease failure_code optional_digest
  give_up principal = do
    let payload = event.payload
    exact payload (
        "principal_id" ∷ "run_id" ∷ "review_id" ∷ "lease_digest" ∷ "failure_code"
        ∷ "result_artifact_digest" ∷ "status" ∷ [])
    _ ← active_lease host run_id state event principal is_held true
    code ← failure_code (get "failure_code" payload)
    result ← optional_digest (get "result_artifact_digest" payload)
    refuse (not (is_text (get "status" payload) "reviewer-error"))
    ok (record state {
      failure_code = some code;
      result_artifact_digest = result;
      status = some Status.failed;
    })

  -- `event.event_type == REVIEW_REQUEUED`
  unfoldable pub requeue : Result Fold
  unfolding exact host_transition
  requeue = do
    let payload = event.payload
    exact payload
        ("principal_id" ∷ "run_id" ∷ "review_id" ∷ "lease_digest" ∷ "disposition" ∷ "status" ∷ [])
    _ ← host_transition host run_id state event is_claimed
    refuse (
        not (is_text (get "disposition" payload) "pre-dispatch")
        || not (is_text (get "status" payload) "requeued"))
    ok (record state { status = some Status.requeued })

  -- `event.event_type == REVIEW_RECONCILIATION_REQUIRED`
  unfoldable pub require_reconciliation : Result Fold
  unfolding exact host_transition failure_code
  require_reconciliation = do
    let payload = event.payload
    exact payload
        ("principal_id" ∷ "run_id" ∷ "review_id" ∷ "lease_digest" ∷ "failure_code" ∷ "status" ∷ [])
    _ ← host_transition host run_id state event is_dispatched
    code ← failure_code (get "failure_code" payload)
    refuse (
        not (str_eq code "review-dispatch-ambiguous")
        || not (is_text (get "status" payload) "reconciliation-required"))
    ok (record state { failure_code = some code; status = some Status.reconciliation_required })

  -- the branches on the event type
  unfoldable pub dispatch : Option Kind → String → Result Fold
  unfolding claim renew dispatch_provider succeed give_up requeue require_reconciliation
  dispatch none principal = refused
  dispatch (some Kind.claimed) principal = claim principal
  dispatch (some Kind.lease_renewed) principal = renew principal
  dispatch (some Kind.provider_dispatch_started) principal = dispatch_provider principal
  dispatch (some Kind.succeeded) principal = succeed principal
  dispatch (some Kind.failed) principal = give_up principal
  dispatch (some Kind.requeued) principal = requeue
  dispatch (some Kind.reconciliation_required) principal = require_reconciliation

  -- one round of the loop over the events
  unfoldable pub review_event : Result Fold
  unfolding principal_of dispatch kind_of
  review_event = do principal ← principal_of event; dispatch (kind_of event) principal

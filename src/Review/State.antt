-- ===== src/Review/State.antt =====
-- orchestration/review_lifecycle.py: the states of a review and the variables of the fold.
use blackcell.Prelude.{ℕ, String, Bool, true, false, Option, none, some, str_eq, if◌then◌else◌}
use blackcell.Kernel.Event.{EventEnvelope}
use blackcell.Review.Lease.{ReviewLease}

pub data Status : Type 0 where
  claimed provider_dispatched succeeded failed requeued reconciliation_required : Status

pub record ReviewLifecycleState : Type 0 where
  pub run_id : String
  pub review_id : String
  pub status : Status
  pub lease : ReviewLease
  pub acceptance_digest : Option String
  pub context_digest : Option String
  pub provider_request_id : Option String
  pub provider_dispatch_event_id : Option String
  pub proposal_artifact_digest : Option String
  pub provider_result_artifact_digest : Option String
  pub admitted_artifact_digest : Option String
  pub finding_count : Option ℕ
  pub failure_code : Option String
  pub result_artifact_digest : Option String
  pub latest_event : EventEnvelope

-- `ReviewLifecycleState.active`
unfoldable pub is_active : ReviewLifecycleState → Bool
is_active state = elim state.status [
  | Status.claimed ↦ true
  | Status.provider_dispatched ↦ true
  | _ ↦ false
]

-- the variables of the loop
pub record Fold : Type 0 where
  pub status : Option Status
  pub lease : Option ReviewLease
  pub baseline : Option ReviewLease
  pub acceptance_digest : Option String
  pub context_digest : Option String
  pub provider_request_id : Option String
  pub provider_dispatch_event_id : Option String
  pub proposal_artifact_digest : Option String
  pub provider_result_artifact_digest : Option String
  pub admitted_artifact_digest : Option String
  pub finding_count : Option ℕ
  pub failure_code : Option String
  pub result_artifact_digest : Option String

abbrev pub start : Fold
start = record {
  status = none;
  lease = none;
  baseline = none;
  acceptance_digest = none;
  context_digest = none;
  provider_request_id = none;
  provider_dispatch_event_id = none;
  proposal_artifact_digest = none;
  provider_result_artifact_digest = none;
  admitted_artifact_digest = none;
  finding_count = none;
  failure_code = none;
  result_artifact_digest = none;
}

-- the events of `REVIEW_EVENT_TYPES`
pub data Kind : Type 0 where
  claimed lease_renewed provider_dispatch_started succeeded : Kind
  failed requeued reconciliation_required : Kind

unfoldable pub kind_of : EventEnvelope → Option Kind
kind_of event =
    if str_eq event.event_type "review.claimed"
    then some Kind.claimed
    else if str_eq event.event_type "review.lease-renewed"
    then some Kind.lease_renewed
    else if str_eq event.event_type "review.provider-dispatch-started"
    then some Kind.provider_dispatch_started
    else if str_eq event.event_type "review.succeeded"
    then some Kind.succeeded
    else if str_eq event.event_type "review.failed"
    then some Kind.failed
    else if str_eq event.event_type "review.requeued"
    then some Kind.requeued
    else if str_eq event.event_type "review.reconciliation-required"
    then some Kind.reconciliation_required
    else none

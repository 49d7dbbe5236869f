-- ===== src/Verify/State.antt =====
-- orchestration/verification_lifecycle.py: the states of a verification and the variables of the fold.
use blackcell.Prelude.{String, Option, none, some, str_eq, if◌then◌else◌}
use blackcell.Kernel.Event.{EventEnvelope}
use blackcell.Verify.Lease.{VerificationLease}

pub data Status : Type 0 where
  claimed completed failed requeued : Status

-- `VerificationStatus` of orchestration/verification.py
pub data Verdict : Type 0 where
  pass fail inconclusive : Verdict

pub record VerificationLifecycleState : Type 0 where
  pub run_id : String
  pub verification_id : String
  pub status : Status
  pub lease : VerificationLease
  pub verdict : Option Verdict
  pub report_artifact_digest : Option String
  pub matrix_digest : Option String
  pub failure_code : Option String
  pub result_artifact_digest : Option String
  pub latest_event : EventEnvelope

-- the variables of the loop
pub record Fold : Type 0 where
  pub status : Option Status
  pub lease : Option VerificationLease
  pub baseline : Option VerificationLease
  pub verdict : Option Verdict
  pub report_artifact_digest : Option String
  pub matrix_digest : Option String
  pub failure_code : Option String
  pub result_artifact_digest : Option String

abbrev pub start : Fold
start = record {
  status = none;
  lease = none;
  baseline = none;
  verdict = none;
  report_artifact_digest = none;
  matrix_digest = none;
  failure_code = none;
  result_artifact_digest = none;
}

-- the events of `VERIFICATION_EVENT_TYPES`
pub data Kind : Type 0 where
  claimed completed failed requeued : Kind

unfoldable pub kind_of : EventEnvelope → Option Kind
kind_of event =
    if str_eq event.event_type "verification.claimed"
    then some Kind.claimed
    else if str_eq event.event_type "verification.completed"
    then some Kind.completed
    else if str_eq event.event_type "verification.failed"
    then some Kind.failed
    else if str_eq event.event_type "verification.requeued"
    then some Kind.requeued
    else none

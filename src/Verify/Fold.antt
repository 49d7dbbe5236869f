-- ===== src/Verify/Fold.antt =====
-- orchestration/verification_lifecycle.py: `fold_verification_lifecycle`. A step of the loop is one
-- function for each event type.

use blackcell.Prelude.{
  ◌+◌, String, Bool, true, false, Option, none, some, [], ◌∷◌, ◌&&◌, ◌||◌, not, ◌==◌, leb, str_eq,
  opt_eq, ok, ◌>>=◌, ◌>>◌, if◌then◌else◌,
}
use blackcell.Json.{Json, obj, get, is_text, is_null}
use blackcell.Prelude.Text.{texts_eq}
use blackcell.Host.{Host}
use blackcell.Kernel.Event.{EventEnvelope}
use blackcell.Verify.{Result, refused, refuse, mapping, exact, identifier, digest, failure_code}
use blackcell.Verify.Lease.{VerificationLease, immutable_identity, lease_digest, lease_from_mapping}
use blackcell.Verify.State.{Status, Verdict, Fold, Kind, kind_of}

-- `_principal`
unfoldable pub principal_of : EventEnvelope → Result String
principal_of event = do
  principal ← identifier (get "principal_id" event.payload)
  refuse (not (str_eq principal event.actor))
  ok principal

abbrev pub is_claimed : Option Status → Bool
is_claimed (some Status.claimed) = true
is_claimed _ = false

-- `status in {None, REQUEUED}`
abbrev pub is_open : Option Status → Bool
is_open none = true
is_open (some Status.requeued) = true
is_open _ = false

-- `_immutable_lease_identity(a) == _immutable_lease_identity(b)`
unfoldable pub same_identity : VerificationLease → VerificationLease → Bool
unfolding texts_eq
same_identity a b =
    texts_eq (immutable_identity a).0 (immutable_identity b).0
    && (immutable_identity a).1 == (immutable_identity b).1

-- the first attempt is 1, and a later one follows the lease's
unfoldable pub follows : Option VerificationLease → VerificationLease → EventEnvelope → Bool
follows none candidate event =
    opt_eq event.causation_id (some candidate.review_event_id)
    && candidate.attempt == 1
    && candidate.fencing_token == 1
follows (some lease) candidate event =
    candidate.attempt == lease.attempt + 1 && candidate.fencing_token == lease.fencing_token + 1

unfoldable pub keeps_identity : Option VerificationLease → VerificationLease → Bool
unfolding same_identity
keeps_identity none candidate = true
keeps_identity (some baseline) candidate = same_identity candidate baseline

-- `candidate if baseline is None else baseline`
abbrev pub first_of : Option VerificationLease → VerificationLease → VerificationLease
first_of none candidate = candidate
first_of (some baseline) candidate = baseline

-- `VerificationStatus(value)`
unfoldable pub verdict_of : Json → Result Verdict
verdict_of value =
    if is_text value "pass"
    then ok Verdict.pass
    else if is_text value "fail"
    then ok Verdict.fail
    else if is_text value "inconclusive"
    then ok Verdict.inconclusive
    else refused

module _ (host : Host) (run_id : String) (state : Fold) (event : EventEnvelope) where
  -- `_host_transition`
  unfoldable pub host_transition : Result VerificationLease
  host_transition = elim state.lease [
    | none ↦ refused
    | some lease ↦ do
      refuse (
          not (is_claimed state.status)
          || not (is_text (get "run_id" event.payload) lease.run_id)
          || not (is_text (get "verification_id" event.payload) lease.verification_id)
          || not (is_text (get "lease_digest" event.payload) (lease_digest host lease)))
      ok lease
  ]

  -- `_active_lease`
  unfoldable pub active_lease : String → Result VerificationLease
  unfolding host_transition
  active_lease principal = do
    lease ← host_transition
    refuse (not (str_eq principal lease.worker_id))
    ok lease

  -- the checks of a claimed lease
  unfoldable pub is_odd_claim : String → VerificationLease → Bool
  unfolding follows keeps_identity
  is_odd_claim principal candidate =
      not (str_eq candidate.run_id run_id)
      || not (str_eq candidate.worker_id principal)
      || not (is_text (get "lease_digest" event.payload) (lease_digest host candidate))
      || not (is_text (get "status" event.payload) "claimed")
      || leb candidate.expires_at.instant event.recorded_at
      || not (follows state.lease candidate event)
      || not (keeps_identity state.baseline candidate)

  -- the assignments of a claim
  abbrev pub claimed_by : VerificationLease → Fold
  claimed_by candidate = record {
    status = some Status.claimed;
    lease = some candidate;
    baseline = some (first_of state.baseline candidate);
    verdict = none;
    report_artifact_digest = none;
    matrix_digest = none;
    failure_code = none;
    result_artifact_digest = none;
  }

  -- `event.event_type == VERIFICATION_CLAIMED`
  unfoldable pub claim : String → Result Fold
  unfolding is_odd_claim
  claim principal = do
    exact event.payload ("principal_id" ∷ "lease_digest" ∷ "lease" ∷ "status" ∷ [])
    refuse (not (is_open state.status))
    lease ← mapping (get "lease" event.payload)
    candidate ← lease_from_mapping host (obj lease)
    refuse (is_odd_claim principal candidate)
    ok (claimed_by candidate)

  -- `event.event_type == VERIFICATION_COMPLETED`
  unfoldable pub complete : String → Result Fold
  unfolding active_lease verdict_of
  complete principal = do
    let payload = event.payload
    exact payload (
        "principal_id" ∷ "run_id" ∷ "verification_id" ∷ "lease_digest" ∷ "verdict"
        ∷ "report_artifact_digest" ∷ "matrix_digest" ∷ "status" ∷ [])
    active ← active_lease principal
    verdict ← verdict_of (get "verdict" payload)
    report ← digest (get "report_artifact_digest" payload)
    matrix ← digest (get "matrix_digest" payload)
    refuse (not (is_text (get "status" payload) "completed"))
    ok (record state {
      lease = some active;
      verdict = some verdict;
      report_artifact_digest = some report;
      matrix_digest = some matrix;
      status = some Status.completed;
    })

  -- `None if result is None else _digest(result)`
  unfoldable pub optional_digest : Json → Result (Option String)
  optional_digest value = if is_null value then ok none else digest value >>= λ d. ok (some d)

  -- `event.event_type == VERIFICATION_FAILED`
  unfoldable pub give_up : String → Result Fold
  unfolding active_lease optional_digest
  give_up principal = do
    let payload = event.payload
    exact payload (
        "principal_id" ∷ "run_id" ∷ "verification_id" ∷ "lease_digest" ∷ "failure_code"
        ∷ "result_artifact_digest" ∷ "status" ∷ [])
    _ ← active_lease principal
    code ← failure_code (get "failure_code" payload)
    result ← optional_digest (get "result_artifact_digest" payload)
    refuse (not (is_text (get "status" payload) "verifier-error"))
    ok (record state {
      failure_code = some code;
      result_artifact_digest = result;
      status = some Status.failed;
    })

  -- the checks of a requeue
  unfoldable pub is_odd_requeue : String → VerificationLease → Bool
  is_odd_requeue principal active =
      str_eq principal active.worker_id
      || not (is_text (get "disposition" event.payload) "deterministic-retry")
      || not (is_text (get "status" event.payload) "requeued")

  -- `event.event_type == VERIFICATION_REQUEUED`
  unfoldable pub requeue : String → Result Fold
  unfolding host_transition is_odd_requeue
  requeue principal = do
    let payload = event.payload
    exact payload (
        "principal_id" ∷ "run_id" ∷ "verification_id" ∷ "lease_digest" ∷ "disposition" ∷ "status"
        ∷ [])
    active ← host_transition
    refuse (is_odd_requeue principal active)
    ok (record state { status = some Status.requeued })

  -- the branches on the event type
  unfoldable pub dispatch : Option Kind → String → Result Fold
  unfolding claim complete give_up requeue
  dispatch none principal = refused
  dispatch (some Kind.claimed) principal = claim principal
  dispatch (some Kind.completed) principal = complete principal
  dispatch (some Kind.failed) principal = give_up principal
  dispatch (some Kind.requeued) principal = requeue principal

  -- one round of the loop over the events
  unfoldable pub fold_event : Result Fold
  unfolding principal_of dispatch kind_of
  fold_event = do principal ← principal_of event; dispatch (kind_of event) principal

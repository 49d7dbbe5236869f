-- ===== src/Verify/Tests.antt =====
-- The theorems on verifications at one history.

use blackcell.Prelude.{List, ◌≡◌, refl, true, none, some, [], ◌∷◌, ok}
use blackcell.Prelude.Text.{texts_eq, take, after_prefix}
use blackcell.Prelude.Patterns.{fullmatch, is_digest}
use blackcell.Json.{find, get, keys, has_exactly, is_text}
use blackcell.Samples.{host, digest}
use blackcell.Host.{json_digest}
use blackcell.Kernel.Event.{EventEnvelope}
use blackcell.Lifecycle.Fields.{suffix_of}
use blackcell.Lifecycle.Fold.{causes_ok, last_event}
use blackcell.Verify.{
  exact, text_value, is_identifier, identifier, digest as read_digest, positive_integer,
  nonnegative_integer, verification_id, review_id, verification_stream,
}
use blackcell.Verify.Lease.{
  immutable_identity, is_odd_candidate, is_odd_lease, new_candidate, new_lease, lease_payload,
  lease_digest, lease_from_mapping,
}
use blackcell.Verify.State.{Status, Verdict, VerificationLifecycleState, kind_of, Kind, start}
use blackcell.Verify.Fold.{
  principal_of, same_identity, follows, keeps_identity, verdict_of, host_transition, active_lease,
  is_odd_claim, claim, complete, is_odd_requeue, requeue, dispatch, fold_event, claimed_by,
}
use blackcell.Verify.Stream.{envelopes_ok, fold_events, result_of, fold_verification_lifecycle}
use blackcell.Verify.Move.{Move}
use blackcell.Verify.Attempts.{fold_event-Move}
use blackcell.Verify.History.{claims_in, fold_verification_lifecycle-attempts}
use blackcell.Verify.Kept.{fold_verification_lifecycle-identity}
use blackcell.Verify.Over.{is_ending, fold_verification_lifecycle-ends}
use blackcell.Verify.Back.{lease_from_mapping-lease_payload}
use blackcell.Verify.Samples.{lease, first_claim, requeued, second_claim, completed}

abbrev claimed_state : VerificationLifecycleState
claimed_state = record {
  run_id = "run";
  verification_id = "verification-00112233445566778899aabbccddeeff0011223344556677";
  status = Status.claimed;
  lease = lease 1;
  verdict = none;
  report_artifact_digest = none;
  matrix_digest = none;
  failure_code = none;
  result_artifact_digest = none;
  latest_event = first_claim;
}

abbrev completed_state : VerificationLifecycleState
completed_state = record claimed_state {
  status = Status.completed;
  lease = lease 2;
  verdict = some Verdict.pass;
  report_artifact_digest = some digest;
  matrix_digest = some digest;
  latest_event = completed;
}

lease_made : new_lease host (lease 1) ≡ ok (lease 1)
unfolding new_lease new_candidate is_odd_candidate is_odd_lease is_identifier fullmatch is_digest
    after_prefix review_id verification_id identifier read_digest text_value take suffix_of
    json_digest
lease_made = refl

folded_once : fold_verification_lifecycle host "run" (first_claim ∷ []) ≡ ok claimed_state
unfolding fold_verification_lifecycle identifier text_value verification_stream envelopes_ok
    causes_ok fold_events result_of last_event fold_event principal_of dispatch kind_of claim
    is_odd_claim exact lease_from_mapping lease_payload lease_digest follows keeps_identity get find
    keys has_exactly is_text positive_integer nonnegative_integer new_lease new_candidate
    is_odd_candidate is_odd_lease is_identifier fullmatch is_digest after_prefix review_id
    verification_id read_digest take suffix_of json_digest
folded_once = refl

folded :
    fold_verification_lifecycle host "run" (first_claim ∷ requeued ∷ second_claim ∷ completed ∷ [])
    ≡ ok completed_state
unfolding fold_verification_lifecycle identifier text_value verification_stream envelopes_ok
    causes_ok fold_events result_of last_event fold_event principal_of dispatch kind_of claim
    is_odd_claim exact requeue is_odd_requeue complete active_lease host_transition verdict_of
    same_identity texts_eq lease_from_mapping lease_payload lease_digest follows keeps_identity get
    find keys has_exactly is_text positive_integer nonnegative_integer new_lease new_candidate
    is_odd_candidate is_odd_lease is_identifier fullmatch is_digest after_prefix review_id
    verification_id read_digest take suffix_of json_digest
folded = refl

moved :
    fold_event host "run" start first_claim ≡ ok (claimed_by host "run" start first_claim (lease 1))
unfolding fold_event principal_of dispatch kind_of claim is_odd_claim exact identifier text_value
    lease_from_mapping lease_payload lease_digest follows keeps_identity get find keys has_exactly
    is_text positive_integer nonnegative_integer new_lease new_candidate is_odd_candidate
    is_odd_lease is_identifier fullmatch is_digest after_prefix review_id verification_id
    read_digest take suffix_of json_digest
moved = refl

fold_event-Move_example :
    (kind : Kind) × (kind_of first_claim ≡ some kind)
    × Move start (claimed_by host "run" start first_claim (lease 1)) "worker" kind
fold_event-Move_example =
    fold_event-Move host "run" start (claimed_by host "run" start first_claim (lease 1)) first_claim
      moved

fold_verification_lifecycle-attempts_example :
    (2 ≡ claims_in (first_claim ∷ requeued ∷ second_claim ∷ completed ∷ []))
    × (2 ≡ claims_in (first_claim ∷ requeued ∷ second_claim ∷ completed ∷ []))
fold_verification_lifecycle-attempts_example =
    fold_verification_lifecycle-attempts host "run"
      (first_claim ∷ requeued ∷ second_claim ∷ completed ∷ []) completed_state folded

fold_verification_lifecycle-identity_example :
    immutable_identity (lease 2) ≡ immutable_identity (lease 1)
fold_verification_lifecycle-identity_example =
    fold_verification_lifecycle-identity host "run" (first_claim ∷ [])
      (requeued ∷ second_claim ∷ completed ∷ []) claimed_state completed_state folded_once folded

ending : is_ending (kind_of completed) ≡ true
unfolding is_ending kind_of
ending = refl

fold_verification_lifecycle-ends_example : ◌≡◌ {A = List EventEnvelope} [] []
fold_verification_lifecycle-ends_example =
    fold_verification_lifecycle-ends host "run" (first_claim ∷ requeued ∷ second_claim ∷ []) []
      completed completed_state folded ending

lease_from_mapping-lease_payload_example :
    lease_from_mapping host (lease_payload host (lease 1)) ≡ ok (lease 1)
lease_from_mapping-lease_payload_example =
    lease_from_mapping-lease_payload host (lease 1) lease_made refl refl

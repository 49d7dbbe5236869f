-- ===== src/Review/Tests.antt =====
-- The theorems on reviews at one history.
use blackcell.Prelude.{List, ◌≡◌, refl, true, none, some, [], ok, leb}
use blackcell.Prelude.Text.{texts_eq, take, after_prefix}
use blackcell.Prelude.Patterns.{fullmatch, is_digest}
use blackcell.Json.{find, get, keys, has_exactly, is_text}
use blackcell.Samples.{host, digest}
use blackcell.Host.{json_digest}
use blackcell.Kernel.Event.{EventEnvelope}
use blackcell.Lifecycle.Fields.{suffix_of}
use blackcell.Lifecycle.Fold.{causes_ok, last_event}
use blackcell.Lifecycle.Guards.{is_option_text}
use blackcell.Verify.{is_identifier}
use blackcell.Review.{
  exact, text_value, identifier, digest as read_digest, positive_integer, nonnegative_integer,
  review_provider_request_id, review_stream,
}
use blackcell.Review.Lease.{
  is_odd_lease, new_lease, lease_payload, lease_digest, lease_from_mapping,
}
use blackcell.Review.State.{Status, ReviewLifecycleState, kind_of, Kind, start}
use blackcell.Review.Guards.{
  principal_of, follows, keeps_identity, names_lease, host_transition, active_lease, is_odd_claim,
}
use blackcell.Review.Fold.{
  claimed_by, claim, dispatch_provider, succeed, requeue, dispatch, review_event,
}
use blackcell.Review.Stream.{envelopes_ok, review_events, result_of, fold_review_lifecycle}
use blackcell.Review.Move.{Move}
use blackcell.Review.Refines.{review_event-Move}
use blackcell.Review.Requests.{claims_in, requests_in, fewest_requests, most_requests}
use blackcell.Review.Accepted.{fold_review_lifecycle-attempts, fold_review_lifecycle-requests}
use blackcell.Review.Over.{is_last, fold_review_lifecycle-ends}
use blackcell.Review.Samples.{review, lease, first_claim, succeeded, before_success, history}

abbrev succeeded_state : ReviewLifecycleState
succeeded_state = record {
  run_id = "run";
  review_id = review;
  status = Status.succeeded;
  lease = lease 2 1000;
  acceptance_digest = some digest;
  context_digest = some digest;
  provider_request_id = some review;
  provider_dispatch_event_id = some "e4";
  proposal_artifact_digest = some digest;
  provider_result_artifact_digest = some digest;
  admitted_artifact_digest = some digest;
  finding_count = some 2;
  failure_code = none;
  result_artifact_digest = none;
  latest_event = succeeded;
}

folded : fold_review_lifecycle host "run" history ≡ ok succeeded_state
unfolding fold_review_lifecycle identifier text_value review_stream envelopes_ok causes_ok
    review_events result_of last_event review_event principal_of dispatch kind_of claim is_odd_claim
    exact requeue host_transition names_lease dispatch_provider active_lease
    review_provider_request_id succeed is_option_text lease_from_mapping lease_payload lease_digest
    follows keeps_identity texts_eq get find keys has_exactly is_text positive_integer
    nonnegative_integer new_lease is_odd_lease is_identifier fullmatch is_digest after_prefix
    read_digest take suffix_of json_digest
folded = refl

moved :
    review_event host "run" start first_claim
    ≡ ok (claimed_by host "run" start first_claim (lease 1 1000))
unfolding review_event principal_of dispatch kind_of claim is_odd_claim exact identifier text_value
    lease_from_mapping lease_payload lease_digest follows keeps_identity get find keys has_exactly
    is_text positive_integer new_lease is_odd_lease is_identifier fullmatch is_digest after_prefix
    read_digest json_digest
moved = refl

review_event-Move_example :
    (kind : Kind) × (kind_of first_claim ≡ some kind)
    × Move start (claimed_by host "run" start first_claim (lease 1 1000)) first_claim kind
review_event-Move_example =
    review_event-Move host "run" start (claimed_by host "run" start first_claim (lease 1 1000))
      first_claim moved

fold_review_lifecycle-attempts_example : (2 ≡ claims_in history) × (2 ≡ claims_in history)
fold_review_lifecycle-attempts_example =
    fold_review_lifecycle-attempts host "run" history succeeded_state folded

fold_review_lifecycle-requests_example :
    (leb (fewest_requests (some Status.succeeded)) (requests_in history) ≡ true)
    × (leb (requests_in history) (most_requests (some Status.succeeded)) ≡ true)
fold_review_lifecycle-requests_example =
    fold_review_lifecycle-requests host "run" history succeeded_state folded

ending : is_last (kind_of succeeded) ≡ true
unfolding is_last kind_of
ending = refl

fold_review_lifecycle-ends_example : ◌≡◌ {A = List EventEnvelope} [] []
fold_review_lifecycle-ends_example =
    fold_review_lifecycle-ends host "run" before_success [] succeeded succeeded_state folded ending

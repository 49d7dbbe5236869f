-- ===== src/Lifecycle/Tests.antt =====
-- The theorems on the fold at the small runs.
use blackcell.Prelude.{All, ◌≡◌, refl, true, false, none, some, [], ◌∷◌, ok}
use blackcell.Host.{json_digest}
use blackcell.Samples.{host}
use blackcell.Lifecycle.State.{Fold, RunStatus, find_node, put_node, update_node, new_node}
use blackcell.Json.{get, find, keys, has_exactly, is_text}
use blackcell.Json.Equality.{equals, is_int, as_number}
use blackcell.Lifecycle.Fields.{positive_integer, text_value, timestamp, identifier}
use blackcell.Lifecycle.Fields
use blackcell.Lifecycle.Guards.{
  exact, principal, run, node_of, active_of, inspection_of, is_unchanged, worktree_spec_digest,
}
use blackcell.Lifecycle.Kind.{Kind, is_known, is_cleanup, public_events, kind_of}
use blackcell.Lifecycle.Lease.{
  claimed, worktree_prepared, lease_matches, dependencies_of, has_succeeded,
}
use blackcell.Lifecycle.Attempt.{cancel_requested, node_succeeded}
use blackcell.Lifecycle.Terminal.{
  run_succeeded, run_canceled, terminal_payload, all_succeeded, any_failed, any_reconciliation,
}
use blackcell.Lifecycle.Fold.{
  RunLifecycleState, fold_run_lifecycle, fold_stream, fold_public, fold_events, fold_event,
  dispatch, validate_queued, dependencies_ok, sorted, envelopes_ok, causes_ok, last_event,
  is_settled,
}
use blackcell.Lifecycle.Step.{Step, is_working}
use blackcell.Lifecycle.Step.Sound.{is_ready, holds}
use blackcell.Lifecycle.Step.Refines.{fold_event-Step}
use blackcell.Lifecycle.Run.{fold_run_lifecycle-ordered, fold_run_lifecycle-lone}
use blackcell.Lifecycle.Finish.{
  fold_run_lifecycle-succeeded, fold_run_lifecycle-canceled, fold_run_lifecycle-open,
}
use blackcell.Lifecycle.Fence.{fold_run_lifecycle-fence, claims_in}
use blackcell.Lifecycle.Stopped.{Stops, fold_run_lifecycle-Stops}
use blackcell.Lifecycle.Fields.{failure}
use blackcell.Lifecycle.Samples.{
  queued, cancel, run_end, claim, lease, claimed_node, one, two, result, working_events,
  working_result, working_run, done_events, done_result, done_run, canceled_events, canceled_result,
  canceled_run, queued_run,
}

found_b : find_node "b" working_result.nodes ≡ some (claimed_node "b" 2)
unfolding find_node
found_b = refl

fold_run_lifecycle-ordered_example : is_ready two working_result.nodes "b" ≡ true
fold_run_lifecycle-ordered_example =
    fold_run_lifecycle-ordered host "r" two working_events working_result "b" (claimed_node "b" 2)
      working_run found_b refl

fold_run_lifecycle-lone_example :
    is_working (claimed_node "b" 2).status ≡ holds working_result.active_lease "b"
fold_run_lifecycle-lone_example =
    fold_run_lifecycle-lone host "r" two working_events working_result "b" (claimed_node "b" 2)
      working_run found_b

fold_run_lifecycle-fence_example :
    (lease "b" 2).fencing_token ≡ claims_in (public_events working_events)
fold_run_lifecycle-fence_example =
    fold_run_lifecycle-fence host "r" two working_events working_result (lease "b" 2) working_run
      refl

fold_run_lifecycle-succeeded_example :
    (all_succeeded done_result.nodes ≡ true)
    × (done_result.active_lease ≡ none)
    × (done_result.cancellation_requested ≡ false)
fold_run_lifecycle-succeeded_example =
    fold_run_lifecycle-succeeded host "r" one done_events done_result done_run refl

fold_run_lifecycle-canceled_example :
    (canceled_result.active_lease ≡ none) × (canceled_result.cancellation_requested ≡ true)
fold_run_lifecycle-canceled_example =
    fold_run_lifecycle-canceled host "r" two canceled_events canceled_result canceled_run refl

abbrev queued_result : RunLifecycleState
queued_result = result queued RunStatus.queued false none (new_node "a" ∷ new_node "b" ∷ [])

fold_run_lifecycle-open_example :
    (queued_result.cancellation_requested ≡ false)
    × (any_failed queued_result.nodes ≡ false)
    × (all_succeeded queued_result.nodes ≡ false)
fold_run_lifecycle-open_example =
    fold_run_lifecycle-open host "r" two (queued ∷ []) queued_result queued_run refl refl

abbrev state : Fold
state = record {
  nodes = new_node "a" ∷ new_node "b" ∷ [];
  status = RunStatus.queued;
  cancellation_requested = false;
  active = none;
  terminal = false;
  reconciliation_recorded = false;
  maximum_fence = 0;
}

abbrev claimed_state : Fold
claimed_state = record state {
  nodes = claimed_node "a" 1 ∷ new_node "b" ∷ [];
  status = RunStatus.running;
  active = some (lease "a" 1);
  maximum_fence = 1;
}

claim_accepted : fold_event host "r" two state (claim 2 "a" 1) Kind.node_claimed ≡ ok claimed_state
unfolding fold_run_lifecycle fold_stream fold_public fold_events fold_event dispatch validate_queued
    dependencies_ok sorted envelopes_ok causes_ok last_event is_settled is_known is_cleanup
    public_events kind_of claimed worktree_prepared cancel_requested node_succeeded run_succeeded
    run_canceled terminal_payload all_succeeded any_failed any_reconciliation lease_matches
    dependencies_of has_succeeded exact principal run node_of active_of inspection_of is_unchanged
    worktree_spec_digest equals positive_integer text_value Fields.digest Fields.commit timestamp
    identifier is_int find_node put_node update_node json_digest get find keys has_exactly is_text
    as_number
claim_accepted = refl

fold_event-Step_example : Step two (claim 2 "a" 1) state claimed_state
fold_event-Step_example =
    fold_event-Step host "r" two state (claim 2 "a" 1) Kind.node_claimed claim_accepted

canceled_public :
    public_events canceled_events
    ≡ (queued, Kind.run_queued)
      ∷ (cancel, Kind.run_cancel_requested)
      ∷ (run_end 3 "run.canceled" "canceled" false, Kind.run_canceled)
      ∷ []
unfolding public_events kind_of
canceled_public = refl

fold_run_lifecycle-Stops_example :
    All Stops ((run_end 3 "run.canceled" "canceled" false, Kind.run_canceled) ∷ [])
fold_run_lifecycle-Stops_example =
    fold_run_lifecycle-Stops host "r" two canceled_events ((queued, Kind.run_queued) ∷ [])
      ((run_end 3 "run.canceled" "canceled" false, Kind.run_canceled) ∷ []) cancel canceled_result
      canceled_run canceled_public

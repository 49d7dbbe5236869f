-- ===== src/Lifecycle/Samples.antt =====
-- Small runs: their events, and what the fold makes of them.
use blackcell.Prelude.{
  ℕ, ◌≡◌, refl, String, Bool, true, false, Option, none, some, List, [], ◌∷◌, pos, ok,
}
use blackcell.Json.{bool, int, text, arr, obj, nil, Fields, end, field}
use blackcell.Host.{json_digest}
use blackcell.Samples.{host, digest, commit}
use blackcell.Kernel.Event.{EventEnvelope}
use blackcell.Lifecycle.State.{
  Node, NodeStatus, RunStatus, CleanupStatus, ActiveLease, find_node, put_node, update_node,
  new_node,
}
use blackcell.Json.{get, find, keys, has_exactly, is_text}
use blackcell.Json.Equality.{equals, is_int, as_number}
use blackcell.Lifecycle.Fields.{positive_integer, text_value, timestamp, identifier}
use blackcell.Lifecycle.Fields
use blackcell.Lifecycle.Guards.{
  exact, principal, run, node_of, active_of, inspection_of, is_unchanged, worktree_spec_digest,
}
use blackcell.Lifecycle.Kind.{is_known, is_cleanup, public_events, kind_of}
use blackcell.Lifecycle.Lease.{
  claimed, worktree_prepared, lease_matches, dependencies_of, has_succeeded,
}
use blackcell.Lifecycle.Attempt.{cancel_requested, node_succeeded}
use blackcell.Lifecycle.Terminal.{
  run_succeeded, run_canceled, terminal_payload, all_succeeded, any_failed, any_reconciliation,
}
use blackcell.Lifecycle.Fold.{
  RunLifecycleState, Dependencies, fold_run_lifecycle, fold_stream, fold_public, fold_events,
  fold_event, dispatch, validate_queued, dependencies_ok, sorted, envelopes_ok, causes_ok,
  last_event, is_settled,
}

abbrev pub event : ℕ → Option String → String → Fields → EventEnvelope
event n cause kind payload = record {
  event_id = "e";
  stream_id = "run:r";
  stream_sequence = n;
  event_type = kind;
  schema_version = 1;
  recorded_at = 5;
  effective_at = 5;
  correlation_id = "c";
  causation_id = cause;
  actor = "w";
  source = "blackcell.runtime";
  payload = field "principal_id" (text "w") payload;
  payload_hash = digest;
  idempotency_key = none;
  global_position = some n;
}

abbrev pub queued : EventEnvelope
queued = event 1 none "run.queued" (
    field "request" (obj (field "run_id" (text "r") end)) (
      field "request_digest" (text digest)
        (field "references" (arr nil) (field "status" (text "queued") end))))

abbrev pub cancel : EventEnvelope
cancel = event 2 (some "e") "run.cancel-requested" (
    field "request"
      (obj (
        field "schema_version" (text "execution-cancel-run-request/v1")
          (field "idempotency_key" (text "k") end)))
      (field "request_digest" (text digest) (field "status" (text "cancel-requested") end)))

abbrev pub run_end : ℕ → String → String → Bool → EventEnvelope
run_end n kind status retained = event n (some "e") kind (
    field "run_id" (text "r")
      (field "status" (text status) (field "retained_worktree" (bool retained) end)))

-- the fields of an event on a node
abbrev pub at_node : String → Fields → Fields
at_node node rest =
    field "run_id" (text "r")
      (field "node_id" (text node) (field "lease_digest" (text digest) rest))

abbrev pub spec : String → ℕ → Fields
spec node fence = field "schema_version" (text "v1") (
    field "lease_digest" (text digest) (
      field "lease"
        (obj (
          field "run_id" (text "r") (
            field "node_id" (text node) (
              field "attempt" (int (pos 1))
                (field "fencing_token" (int (pos fence)) (field "worker_id" (text "w") end))))))
        (field "repository_root" (text "/r") (
          field "isolation_root" (text "/w") (
            field "base_commit" (text commit)
              (field "allowed_paths" (arr nil) (field "max_changed_paths" (int (pos 1)) end)))))))

abbrev pub claim : ℕ → String → ℕ → EventEnvelope
claim n node fence = event n (some "e") "node.claimed" (
    at_node node (
      field "attempt" (int (pos 1)) (
        field "fencing_token" (int (pos fence)) (
          field "worker_id" (text "w") (
            field "expires_at" (text "1970-01-01T00:00:01+00:00") (
              field "worktree_spec_digest" (text digest) (
                field "worktree_spec" (obj (spec node fence))
                  (field "status" (text "claimed") end))))))))

abbrev pub inspection : Fields → Fields
inspection rest =
    field "inspection"
      (obj (
        field "spec_digest" (text digest) (
          field "lease_digest" (text digest) (
            field "head_commit" (text commit) (
              field "base_commit" (text commit) (
                field "changed_paths" (arr nil) (
                  field "uncommitted_paths" (arr nil) (
                    field "out_of_scope_paths" (arr nil)
                      (field "changed_path_limit_exceeded" (bool false) end)))))))))
      (field "inspection_digest" (text digest) rest)

abbrev pub prepare : ℕ → String → EventEnvelope
prepare n node =
    event n (some "e") "node.worktree-prepared"
      (at_node node (inspection (field "status" (text "worktree-prepared") end)))

abbrev pub succeed : ℕ → String → EventEnvelope
succeed n node = event n (some "e") "node.succeeded" (
    at_node node (
      inspection (
        field "result_digest" (text digest) (
          field "head_commit" (text commit)
            (field "retained_worktree" (bool true) (field "status" (text "succeeded") end))))))

abbrev pub two : Dependencies
two = ("b", "a" ∷ []) ∷ ("a", []) ∷ []

abbrev pub one : Dependencies
one = ("a", []) ∷ []

abbrev pub done_node : Node
done_node = record {
  node_id = "a";
  status = NodeStatus.succeeded;
  attempts = 1;
  fencing_token = 1;
  result_digest = some digest;
  head_commit = some commit;
  failure_code = none;
  retained_worktree = true;
  lease_digest = some digest;
  worktree_spec_digest = some digest;
  worktree_spec = some (spec "a" 1);
  cleanup_status = some CleanupStatus.eligible;
  cleanup_failure_code = none;
}

abbrev pub claimed_node : String → ℕ → Node
claimed_node k fence = record {
  node_id = k;
  status = NodeStatus.claimed;
  attempts = 1;
  fencing_token = fence;
  result_digest = none;
  head_commit = none;
  failure_code = none;
  retained_worktree = false;
  lease_digest = some digest;
  worktree_spec_digest = some digest;
  worktree_spec = some (spec k fence);
  cleanup_status = none;
  cleanup_failure_code = none;
}

abbrev pub lease : String → ℕ → ActiveLease
lease k fence = record {
  node_id = k;
  attempt = 1;
  fencing_token = fence;
  worker_id = "w";
  lease_digest = digest;
  worktree_spec_digest = digest;
  worktree_spec = spec k fence;
  expires_at = 1000;
  prepared = false;
  provider_request_id = none;
  provider_context_digest = none;
  provider_dispatch_event_id = none;
}

abbrev pub result :
    EventEnvelope → RunStatus → Bool → Option ActiveLease → List Node → RunLifecycleState
result last status asked active nodes = record {
  run_id = "r";
  status = status;
  nodes = nodes;
  cancellation_requested = asked;
  active_lease = active;
  queued_event = queued;
  latest_event = last;
  last_stream_sequence = last.stream_sequence;
}

abbrev pub canceled_events : List EventEnvelope
canceled_events = queued ∷ cancel ∷ run_end 3 "run.canceled" "canceled" false ∷ []

abbrev pub canceled_result : RunLifecycleState
canceled_result =
    result (run_end 3 "run.canceled" "canceled" false) RunStatus.canceled true none
      (new_node "a" ∷ new_node "b" ∷ [])

abbrev pub working_events : List EventEnvelope
working_events = queued ∷ claim 2 "a" 1 ∷ prepare 3 "a" ∷ succeed 4 "a" ∷ claim 5 "b" 2 ∷ []

abbrev pub working_result : RunLifecycleState
working_result =
    result (claim 5 "b" 2) RunStatus.running false (some (lease "b" 2))
      (done_node ∷ claimed_node "b" 2 ∷ [])

abbrev pub done_events : List EventEnvelope
done_events =
    queued
    ∷ claim 2 "a" 1
    ∷ prepare 3 "a"
    ∷ succeed 4 "a"
    ∷ run_end 5 "run.succeeded" "succeeded" true
    ∷ []

abbrev pub done_result : RunLifecycleState
done_result =
    result (run_end 5 "run.succeeded" "succeeded" true) RunStatus.succeeded false none
      (done_node ∷ [])

pub canceled_run : fold_run_lifecycle host "r" two canceled_events ≡ ok canceled_result
unfolding fold_run_lifecycle fold_stream fold_public fold_events fold_event dispatch validate_queued
    dependencies_ok sorted envelopes_ok causes_ok last_event is_settled is_known is_cleanup
    public_events kind_of claimed worktree_prepared cancel_requested node_succeeded run_succeeded
    run_canceled terminal_payload all_succeeded any_failed any_reconciliation lease_matches
    dependencies_of has_succeeded exact principal run node_of active_of inspection_of is_unchanged
    worktree_spec_digest equals positive_integer text_value Fields.digest Fields.commit timestamp
    identifier is_int find_node put_node update_node json_digest get find keys has_exactly is_text
    as_number
canceled_run = refl

pub working_run : fold_run_lifecycle host "r" two working_events ≡ ok working_result
unfolding fold_run_lifecycle fold_stream fold_public fold_events fold_event dispatch validate_queued
    dependencies_ok sorted envelopes_ok causes_ok last_event is_settled is_known is_cleanup
    public_events kind_of claimed worktree_prepared cancel_requested node_succeeded run_succeeded
    run_canceled terminal_payload all_succeeded any_failed any_reconciliation lease_matches
    dependencies_of has_succeeded exact principal run node_of active_of inspection_of is_unchanged
    worktree_spec_digest equals positive_integer text_value Fields.digest Fields.commit timestamp
    identifier is_int find_node put_node update_node json_digest get find keys has_exactly is_text
    as_number
working_run = refl

pub done_run : fold_run_lifecycle host "r" one done_events ≡ ok done_result
unfolding fold_run_lifecycle fold_stream fold_public fold_events fold_event dispatch validate_queued
    dependencies_ok sorted envelopes_ok causes_ok last_event is_settled is_known is_cleanup
    public_events kind_of claimed worktree_prepared cancel_requested node_succeeded run_succeeded
    run_canceled terminal_payload all_succeeded any_failed any_reconciliation lease_matches
    dependencies_of has_succeeded exact principal run node_of active_of inspection_of is_unchanged
    worktree_spec_digest equals positive_integer text_value Fields.digest Fields.commit timestamp
    identifier is_int find_node put_node update_node json_digest get find keys has_exactly is_text
    as_number
done_run = refl

pub queued_run :
    fold_run_lifecycle host "r" two (queued ∷ [])
    ≡ ok (result queued RunStatus.queued false none (new_node "a" ∷ new_node "b" ∷ []))
unfolding fold_run_lifecycle fold_stream fold_public fold_events fold_event dispatch validate_queued
    dependencies_ok sorted envelopes_ok causes_ok last_event is_settled is_known is_cleanup
    public_events kind_of claimed worktree_prepared cancel_requested node_succeeded run_succeeded
    run_canceled terminal_payload all_succeeded any_failed any_reconciliation lease_matches
    dependencies_of has_succeeded exact principal run node_of active_of inspection_of is_unchanged
    worktree_spec_digest equals positive_integer text_value Fields.digest Fields.commit timestamp
    identifier is_int find_node put_node update_node json_digest get find keys has_exactly is_text
    as_number
queued_run = refl

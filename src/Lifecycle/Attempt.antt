-- ===== src/Lifecycle/Attempt.antt =====
-- The handlers that end an attempt or the run's wish to go on: `run.cancel-requested`,
-- `node.succeeded`, `node.failed`, `node.requeued`, `node.canceled` and
-- `node.reconciliation-required`.
use blackcell.Prelude.{
  String, Bool, true, false, Option, none, some, [], ◌∷◌, ◌||◌, not, ltb, is_some, ok, err, ◌>>=◌,
  ◌>>◌, if◌then◌else◌,
}
use blackcell.Json.{
  Json, null, bool, obj, Fields, get, is_text, is_null, is_true, is_false, is_empty_tuple,
}
use blackcell.Host.{Host, json_digest}
use blackcell.Kernel.Event.{EventEnvelope}
use blackcell.Lifecycle.State.{
  Result, Fold, NodeStatus, RunStatus, CleanupStatus, ActiveLease, update_node,
}
use blackcell.Lifecycle.Fields.{failure, reject, mapping, identifier, digest, commit}
use blackcell.Lifecycle.Guards.{exact, run, active_of, inspection_of, has_inspection}

abbrev map_some : Result String → Result (Option String)
map_some (ok s) = ok (some s)
map_some (err e) = err e

-- `None if value is None else reader(value)`
abbrev pub optional : (Json → Result String) → Json → Result (Option String)
optional reader null = ok none
optional reader v = map_some (reader v)

-- `retained_worktree` with the inspection that it calls for: True with one, False with none
unfoldable pub retained_of : Host → Fields → ActiveLease → Result Bool
retained_of host payload active = elim (get "retained_worktree" payload) [
  | bool true ↦ do inspection ← inspection_of host payload active false; ok true
  | bool false ↦ do reject (has_inspection payload); ok false
  | _ ↦ failure
]

module _ (host : Host) (run_id : String) (state : Fold) (event : EventEnvelope) where
  -- `event.event_type == RUN_CANCEL_REQUESTED`
  unfoldable pub cancel_requested : Result Fold
  cancel_requested = do
    let payload = event.payload
    exact payload ("principal_id" ∷ "request" ∷ "request_digest" ∷ "status" ∷ [])
    request ← mapping (get "request" payload)
    reject (
        state.cancellation_requested
        || not (is_text (get "schema_version" request) "execution-cancel-run-request/v1")
        || not (is_text (get "request_digest" payload) (json_digest host (obj request)))
        || not (is_text (get "status" payload) "cancel-requested"))
    key ← identifier (get "idempotency_key" request)
    ok (record state { cancellation_requested = true; status = RunStatus.canceling })

  -- `event.event_type == NODE_SUCCEEDED`
  unfoldable pub node_succeeded : Result Fold
  node_succeeded = do
    let payload = event.payload
    exact payload (
        "principal_id" ∷ "run_id" ∷ "node_id" ∷ "lease_digest" ∷ "result_digest" ∷ "head_commit"
        ∷ "inspection_digest" ∷ "inspection" ∷ "retained_worktree" ∷ "status" ∷ [])
    run payload run_id
    active ← active_of payload state.active state.nodes true true
    reject (state.cancellation_requested || ltb active.expires_at event.recorded_at)
    inspection ← inspection_of host payload active false
    head_commit ← commit host (get "head_commit" payload)
    reject (
        not (is_text (get "head_commit" inspection) head_commit)
        || not (is_empty_tuple (get "uncommitted_paths" inspection))
        || not (is_empty_tuple (get "out_of_scope_paths" inspection))
        || not (is_false (get "changed_path_limit_exceeded" inspection))
        || not (is_true (get "retained_worktree" payload)))
    result_digest ← digest host (get "result_digest" payload)
    reject (not (is_text (get "status" payload) "succeeded"))
    ok (record state {
      nodes = update_node state.nodes active.node_id (λ node. record node {
        status = NodeStatus.succeeded;
        result_digest = some result_digest;
        head_commit = some head_commit;
        retained_worktree = true;
        cleanup_status = some CleanupStatus.eligible;
        cleanup_failure_code = none;
      });
      active = none;
      status = RunStatus.queued;
    })

  -- `event.event_type == NODE_FAILED`; a worktree that is not retained leaves the flag as it was
  unfoldable pub node_failed : Result Fold
  node_failed = do
    let payload = event.payload
    exact payload (
        "principal_id" ∷ "run_id" ∷ "node_id" ∷ "lease_digest" ∷ "failure_code" ∷ "result_digest"
        ∷ "inspection_digest" ∷ "inspection" ∷ "retained_worktree" ∷ "status" ∷ [])
    run payload run_id
    active ← active_of payload state.active state.nodes false true
    reject (ltb active.expires_at event.recorded_at)
    failure_code ← identifier (get "failure_code" payload)
    result_digest ← optional (digest host) (get "result_digest" payload)
    retained ← retained_of host payload active
    reject (not (is_text (get "status" payload) "failed"))
    ok (record state {
      nodes = update_node state.nodes active.node_id (λ node. record node {
        status = NodeStatus.failed;
        failure_code = some failure_code;
        result_digest = result_digest;
        retained_worktree = if retained then true else node.retained_worktree;
      });
      active = none;
      status = RunStatus.failed;
    })

  -- the inspection that a disposition calls for
  unfoldable pub disposition_ok : Fields → ActiveLease → Result (Unit {0})
  disposition_ok payload active =
      if is_text (get "disposition" payload) "missing"
      then reject (has_inspection payload)
      else if is_text (get "disposition" payload) "unchanged"
      then (do inspection ← inspection_of host payload active true; ok tt)
      else failure

  -- `event.event_type == NODE_REQUEUED`
  unfoldable pub node_requeued : Result Fold
  node_requeued = do
    let payload = event.payload
    exact payload (
        "principal_id" ∷ "run_id" ∷ "node_id" ∷ "lease_digest" ∷ "disposition" ∷ "inspection_digest"
        ∷ "inspection" ∷ "status" ∷ [])
    run payload run_id
    active ← active_of payload state.active state.nodes false false
    reject (is_some active.provider_dispatch_event_id)
    disposition_ok payload active
    reject (state.cancellation_requested || not (is_text (get "status" payload) "requeued"))
    ok (record state {
      nodes =
          update_node state.nodes active.node_id
            (λ node. record node { status = NodeStatus.pending });
      active = none;
      status = RunStatus.queued;
    })

  -- `event.event_type == NODE_CANCELED`
  unfoldable pub node_canceled : Result Fold
  node_canceled = do
    let payload = event.payload
    exact payload (
        "principal_id" ∷ "run_id" ∷ "node_id" ∷ "lease_digest" ∷ "result_digest"
        ∷ "inspection_digest" ∷ "inspection" ∷ "retained_worktree" ∷ "status" ∷ [])
    run payload run_id
    active ← active_of payload state.active state.nodes false false
    retained ← retained_of host payload active
    reject (not state.cancellation_requested)
    reject (not (is_text (get "status" payload) "canceled"))
    result_digest ← optional (digest host) (get "result_digest" payload)
    ok (record state {
      nodes = update_node state.nodes active.node_id (λ node. record node {
        status = NodeStatus.canceled;
        result_digest = result_digest;
        retained_worktree = retained;
      });
      active = none;
      status = RunStatus.canceling;
    })

  -- whether a worktree is kept, and why the node cannot go on
  unfoldable pub reconciliation_of : Fields → ActiveLease → Result Bool
  reconciliation_of payload active =
      if is_null (get "inspection" payload)
      then (do
        reject (
            not (is_null (get "inspection_digest" payload))
            || is_null (get "failure_code" payload)
            || not (is_false (get "retained_worktree" payload)))
        ok false)
      else (do
        inspection ← inspection_of host payload active false
        reject (not (is_true (get "retained_worktree" payload)))
        ok true)

  -- `event.event_type == NODE_RECONCILIATION_REQUIRED`
  unfoldable pub node_reconciliation_required : Result Fold
  node_reconciliation_required = do
    let payload = event.payload
    exact payload (
        "principal_id" ∷ "run_id" ∷ "node_id" ∷ "lease_digest" ∷ "failure_code"
        ∷ "inspection_digest" ∷ "inspection" ∷ "retained_worktree" ∷ "status" ∷ [])
    run payload run_id
    active ← active_of payload state.active state.nodes false false
    retained ← reconciliation_of payload active
    failure_code ← optional identifier (get "failure_code" payload)
    reject (not (is_text (get "status" payload) "reconciliation-required"))
    ok (record state {
      nodes = update_node state.nodes active.node_id (λ node. record node {
        status = NodeStatus.reconciliation_required;
        failure_code = failure_code;
        retained_worktree = retained;
      });
      active = none;
      status = RunStatus.reconciliation_required;
    })

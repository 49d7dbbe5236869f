-- ===== src/Lifecycle/Lease.antt =====
-- The handlers of `node.claimed`, `node.worktree-prepared` and `node.provider-dispatch-started`.
use blackcell.Prelude.{
  ℕ, pos, ◌+◌, String, Bool, true, false, Option, none, some, List, [], ◌∷◌, ◌&&◌, ◌||◌, not, ◌==◌,
  ltb, leb, str_eq, is_some, all, ok, err, ◌>>=◌, ◌>>◌, if◌then◌else◌,
}
use blackcell.Json.{obj, Fields, get, is_text}
use blackcell.Json.Equality.{is_int}
use blackcell.Host.{Host, json_digest}
use blackcell.Kernel.Event.{EventEnvelope}
use blackcell.Lifecycle.State.{
  Result, Fold, Node, NodeStatus, RunStatus, find_node, put_node, update_node, is_pending,
  is_succeeded, is_claimable,
}
use blackcell.Lifecycle.Fields.{
  reject, mapping, positive_integer, text_value, identifier, digest, timestamp, provider_request_id,
}
use blackcell.Lifecycle.Guards.{exact, run, node_of, active_of, inspection_of, worktree_spec_digest}

-- `node_dependencies[node_id]`
unfoldable pub dependencies_of : String → List (String × List String) → List String
dependencies_of k [] = []
dependencies_of k ((j, names) ∷ rest) = if str_eq j k then names else dependencies_of k rest

abbrev node_succeeded : Option Node → Bool
node_succeeded none = false
node_succeeded (some node) = is_succeeded node.status

-- `nodes[dependency].status is SUCCEEDED`
unfoldable pub has_succeeded : List Node → String → Bool
has_succeeded nodes k = node_succeeded (find_node k nodes)

module _ (host : Host) (run_id : String) (state : Fold) (event : EventEnvelope) where
  -- the lease in the worktree specification is the claim's
  unfoldable pub lease_matches : Fields → String → ℕ → ℕ → String → String → Bool
  lease_matches spec node_id attempt fencing_token worker_id lease_digest =
      elim (mapping (get "lease" spec)) [
        | err _ ↦ false
        | ok lease ↦
            is_text (get "run_id" lease) run_id
            && is_text (get "node_id" lease) node_id
            && is_int (get "attempt" lease) (pos attempt)
            && is_int (get "fencing_token" lease) (pos fencing_token)
            && is_text (get "worker_id" lease) worker_id
            && str_eq (json_digest host (obj lease)) lease_digest
            && is_text (get "lease_digest" spec) lease_digest
      ]

  -- `event.event_type == NODE_CLAIMED`
  unfoldable pub claimed : List (String × List String) → Result Fold
  claimed node_dependencies = do
    let payload = event.payload
    reject (state.cancellation_requested || is_some state.active || not (is_claimable state.status))
    exact payload (
        "principal_id" ∷ "run_id" ∷ "node_id" ∷ "attempt" ∷ "fencing_token" ∷ "worker_id"
        ∷ "lease_digest" ∷ "expires_at" ∷ "worktree_spec_digest" ∷ "worktree_spec" ∷ "status" ∷ [])
    run payload run_id
    node ← node_of payload state.nodes
    reject (
        not (is_pending node.status)
        || not (all (has_succeeded state.nodes) (dependencies_of node.node_id node_dependencies)))
    attempt ← positive_integer (get "attempt" payload)
    fencing_token ← positive_integer (get "fencing_token" payload)
    worker_id ← text_value (get "worker_id" payload)
    lease_digest ← digest host (get "lease_digest" payload)
    spec_digest ← digest host (get "worktree_spec_digest" payload)
    expires_at ← timestamp host (get "expires_at" payload)
    spec ← mapping (get "worktree_spec" payload)
    exact spec (
        "schema_version" ∷ "lease_digest" ∷ "lease" ∷ "repository_root" ∷ "isolation_root"
        ∷ "base_commit" ∷ "allowed_paths" ∷ "max_changed_paths" ∷ [])
    reject (
        not (attempt == node.attempts + 1)
        || not (fencing_token == state.maximum_fence + 1)
        || leb expires_at event.recorded_at
        || not (str_eq (worktree_spec_digest host spec lease_digest) spec_digest)
        || not (is_text (get "status" payload) "claimed"))
    reject (not (lease_matches spec node.node_id attempt fencing_token worker_id lease_digest))
    ok (record state {
      nodes =
          put_node
            (record node {
              status = NodeStatus.claimed;
              attempts = attempt;
              fencing_token = fencing_token;
              lease_digest = some lease_digest;
              worktree_spec_digest = some spec_digest;
              worktree_spec = some spec;
              cleanup_status = none;
              cleanup_failure_code = none;
            })
            state.nodes;
      maximum_fence = fencing_token;
      active = some (record {
        node_id = node.node_id;
        attempt = attempt;
        fencing_token = fencing_token;
        worker_id = worker_id;
        lease_digest = lease_digest;
        worktree_spec_digest = spec_digest;
        worktree_spec = spec;
        expires_at = expires_at;
        prepared = false;
        provider_request_id = none;
        provider_context_digest = none;
        provider_dispatch_event_id = none;
      });
      status = RunStatus.running;
    })

  -- `event.event_type == NODE_WORKTREE_PREPARED`
  unfoldable pub worktree_prepared : Result Fold
  worktree_prepared = do
    let payload = event.payload
    exact payload (
        "principal_id" ∷ "run_id" ∷ "node_id" ∷ "lease_digest" ∷ "inspection_digest" ∷ "inspection"
        ∷ "status" ∷ [])
    run payload run_id
    active ← active_of payload state.active state.nodes false true
    reject (active.prepared || ltb active.expires_at event.recorded_at)
    inspection ← inspection_of host payload active true
    reject (not (is_text (get "status" payload) "worktree-prepared"))
    ok (record state {
      nodes =
          update_node state.nodes active.node_id
            (λ node. record node { status = NodeStatus.running });
      active = some (record active { prepared = true });
    })

  -- `event.event_type == NODE_PROVIDER_DISPATCH_STARTED`
  unfoldable pub provider_dispatch_started : Result Fold
  provider_dispatch_started = do
    let payload = event.payload
    exact payload (
        "principal_id" ∷ "run_id" ∷ "node_id" ∷ "lease_digest" ∷ "provider_request_id"
        ∷ "context_digest" ∷ "context_artifact_digest" ∷ "status" ∷ [])
    run payload run_id
    active ← active_of payload state.active state.nodes true true
    request_id ← identifier (get "provider_request_id" payload)
    context_digest ← digest host (get "context_digest" payload)
    artifact_digest ← digest host (get "context_artifact_digest" payload)
    wanted ← provider_request_id host active.lease_digest
    reject (
        state.cancellation_requested
        || ltb active.expires_at event.recorded_at
        || is_some active.provider_dispatch_event_id
        || not (str_eq request_id wanted)
        || not (str_eq artifact_digest context_digest)
        || not (is_text (get "status" payload) "provider-dispatch-started"))
    ok (record state {
      active = some (record active {
        prepared = true;
        provider_request_id = some request_id;
        provider_context_digest = some context_digest;
        provider_dispatch_event_id = some event.event_id;
      });
    })

-- ===== src/Lifecycle/Cleanup.antt =====
-- The handlers of `node.worktree-cleanup-requested`, `node.worktree-cleaned` and
-- `node.worktree-cleanup-failed`.
use Prim.Native.String
use blackcell.Prelude.{String, Bool, false, Option, none, some, [], ◌∷◌, ◌||◌, not, ok, ◌>>=◌, ◌>>◌}
use blackcell.Json.{Json, null, bool, obj, text, Fields, get, is_text, is_null, is_true, is_false}
use blackcell.Host.{Host, json_digest}
use blackcell.Kernel.Event.{EventEnvelope}
use blackcell.Lifecycle.State.{Result, Fold, Node, CleanupStatus, put_node}
use blackcell.Lifecycle.Fields.{failure, reject, mapping, identifier, digest, commit, suffix_of}
use blackcell.Lifecycle.Guards.{exact, run, cleanup_node, or_failure}

abbrev option_text : Option String → Json
option_text none = null
option_text (some s) = text s

-- `removal.get("worktree_path")` is the checkout's path, or None if there is no root
unfoldable pub is_worktree_path : Host → Json → Json → String → Bool
is_worktree_path host path (text root) suffix =
    is_text path (host.join_path root (String.◌++◌ "worktree-" suffix))
is_worktree_path host path _ suffix = is_null path

-- `isinstance(value, bool)`
abbrev pub bool_value : Json → Result Bool
bool_value (bool b) = ok b
bool_value _ = failure

module _ (host : Host) (run_id : String) (state : Fold) (event : EventEnvelope) where
  -- `event.event_type == NODE_WORKTREE_CLEANUP_REQUESTED`
  unfoldable pub cleanup_requested : Result Fold
  cleanup_requested = do
    let payload = event.payload
    exact payload (
        "principal_id" ∷ "run_id" ∷ "node_id" ∷ "lease_digest" ∷ "worktree_spec_digest"
        ∷ "head_commit" ∷ "retained_worktree" ∷ "status" ∷ [])
    run payload run_id
    node ← cleanup_node payload state.nodes state.active CleanupStatus.eligible
    reject (
        not (is_true (get "retained_worktree" payload))
        || not (is_text (get "status" payload) "worktree-cleanup-requested"))
    ok (record state {
      nodes = put_node (record node { cleanup_status = some CleanupStatus.requested }) state.nodes;
    })

  -- the removal that `node.worktree-cleaned` reports is that of the node's checkout
  unfoldable pub removal_matches : Fields → Fields → Node → Result (Unit {0})
  removal_matches payload removal node = do
    spec_digest ← digest host (option_text node.worktree_spec_digest)
    lease_digest ← digest host (option_text node.lease_digest)
    head_commit ← commit host (option_text node.head_commit)
    spec ← or_failure node.worktree_spec
    reject (
        not (is_text (get "removal_digest" payload) (json_digest host (obj removal)))
        || not (is_text (get "schema_version" removal) "blackcell.worktree-removal/v1")
        || not (is_text (get "spec_digest" removal) spec_digest)
        || not (is_text (get "lease_digest" removal) lease_digest)
        || not (
            is_worktree_path host (get "worktree_path" removal) (get "isolation_root" spec)
              (suffix_of spec_digest))
        || not (
            is_text (get "branch_name" removal)
              (String.◌++◌ "blackcell/execution-worktree/" (suffix_of spec_digest)))
        || not (is_text (get "retained_head_commit" removal) head_commit)
        || not (is_text (get "disposition" removal) "removed")
        || not (is_false (get "retained_worktree" payload))
        || not (is_text (get "status" payload) "worktree-cleaned"))

  -- `event.event_type == NODE_WORKTREE_CLEANED`
  unfoldable pub cleaned : Result Fold
  cleaned = do
    let payload = event.payload
    exact payload (
        "principal_id" ∷ "run_id" ∷ "node_id" ∷ "lease_digest" ∷ "worktree_spec_digest"
        ∷ "head_commit" ∷ "removal_digest" ∷ "removal" ∷ "retained_worktree" ∷ "status" ∷ [])
    run payload run_id
    node ← cleanup_node payload state.nodes state.active CleanupStatus.requested
    removal ← mapping (get "removal" payload)
    exact removal (
        "schema_version" ∷ "spec_digest" ∷ "lease_digest" ∷ "worktree_path" ∷ "branch_name"
        ∷ "retained_head_commit" ∷ "disposition" ∷ [])
    removal_matches payload removal node
    ok (record state {
      nodes =
          put_node
            (record node {
              retained_worktree = false;
              cleanup_status = some CleanupStatus.cleaned;
              cleanup_failure_code = none;
            })
            state.nodes;
    })

  -- `event.event_type == NODE_WORKTREE_CLEANUP_FAILED`
  unfoldable pub cleanup_failed : Result Fold
  cleanup_failed = do
    let payload = event.payload
    exact payload (
        "principal_id" ∷ "run_id" ∷ "node_id" ∷ "lease_digest" ∷ "worktree_spec_digest"
        ∷ "head_commit" ∷ "failure_code" ∷ "retained_worktree" ∷ "status" ∷ [])
    run payload run_id
    node ← cleanup_node payload state.nodes state.active CleanupStatus.requested
    failure_code ← identifier (get "failure_code" payload)
    retained ← bool_value (get "retained_worktree" payload)
    reject (not (is_text (get "status" payload) "worktree-cleanup-failed"))
    ok (record state {
      nodes =
          put_node
            (record node {
              retained_worktree = retained;
              cleanup_status = some CleanupStatus.failed;
              cleanup_failure_code = some failure_code;
            })
            state.nodes;
    })

-- ===== src/Lifecycle/Guards.antt =====
-- The guards that the handlers of orchestration/run_lifecycle.py share.
use blackcell.Prelude.{
  String, Bool, Option, none, some, List, ◌&&◌, ◌||◌, not, str_eq, is_some, ok, ◌>>=◌, ◌>>◌,
}
use blackcell.Json.{
  Json, text, obj, Fields, end, field, get, has_exactly, is_text, is_null, is_false, is_empty_tuple,
}
use blackcell.Json.Equality.{equals}
use blackcell.Host.{Host, json_digest}
use blackcell.Kernel.Event.{EventEnvelope}
use blackcell.Lifecycle.State.{
  Result, ActiveLease, Node, CleanupStatus, find_node, is_succeeded, same_cleanup,
}
use blackcell.Lifecycle.Fields.{failure, reject, mapping}

-- `_exact`
unfoldable pub exact : Fields → List String → Result (Unit {0})
exact payload expected = reject (not (has_exactly payload expected))

-- `_principal`
unfoldable pub principal : Fields → EventEnvelope → Result (Unit {0})
principal payload event = reject (not (is_text (get "principal_id" payload) event.actor))

-- `_run`
unfoldable pub run : Fields → String → Result (Unit {0})
run payload run_id = reject (not (is_text (get "run_id" payload) run_id))

abbrev pub or_failure {ℓ} : {A : Type ℓ} → Option A → Result A
or_failure none = failure
or_failure (some a) = ok a

abbrev pub node_named : Json → List Node → Result Node
node_named (text k) nodes = or_failure (find_node k nodes)
node_named _ nodes = failure

-- `_node`
unfoldable pub node_of : Fields → List Node → Result Node
node_of payload nodes = node_named (get "node_id" payload) nodes

-- `_active`
unfoldable pub active_of :
    Fields
    → Option ActiveLease
    → List Node
    → (require_prepared require_worker : Bool) → Result ActiveLease
active_of payload none nodes require_prepared require_worker = failure
active_of payload (some active) nodes require_prepared require_worker = do
  node ← node_of payload nodes
  reject (
      not (str_eq node.node_id active.node_id)
      || not (is_text (get "lease_digest" payload) active.lease_digest)
      || (require_prepared && not active.prepared)
      || (require_worker && not (is_text (get "principal_id" payload) active.worker_id)))
  ok active

-- `value == expected`, where the expected text may be `None`
unfoldable pub is_option_text : Json → Option String → Bool
is_option_text v none = is_null v
is_option_text v (some s) = is_text v s

-- `_cleanup_node`
unfoldable pub cleanup_node : Fields → List Node → Option ActiveLease → CleanupStatus → Result Node
cleanup_node payload nodes active expected = do
  node ← node_of payload nodes
  reject (
      is_some active
      || not (is_succeeded node.status)
      || not node.retained_worktree
      || not (same_cleanup node.cleanup_status expected)
      || not (is_option_text (get "lease_digest" payload) node.lease_digest)
      || not (is_option_text (get "worktree_spec_digest" payload) node.worktree_spec_digest)
      || not (is_option_text (get "head_commit" payload) node.head_commit)
      || not (is_some node.worktree_spec))
  ok node

-- the part of `_inspection` under `unchanged`
unfoldable pub is_unchanged : Fields → Bool
is_unchanged inspection =
    equals (get "head_commit" inspection) (get "base_commit" inspection)
    && is_empty_tuple (get "changed_paths" inspection)
    && is_empty_tuple (get "uncommitted_paths" inspection)
    && is_empty_tuple (get "out_of_scope_paths" inspection)
    && is_false (get "changed_path_limit_exceeded" inspection)

module _ (host : Host) where
  -- `_inspection`
  unfoldable pub inspection_of : Fields → ActiveLease → (unchanged : Bool) → Result Fields
  inspection_of payload active unchanged = do
    inspection ← mapping (get "inspection" payload)
    reject (
        not (is_text (get "inspection_digest" payload) (json_digest host (obj inspection)))
        || not (is_text (get "spec_digest" inspection) active.worktree_spec_digest)
        || not (is_text (get "lease_digest" inspection) active.lease_digest))
    reject (unchanged && not (is_unchanged inspection))
    ok inspection

  -- `_worktree_spec_digest`
  unfoldable pub worktree_spec_digest : Fields → String → String
  worktree_spec_digest spec lease_digest = json_digest host (
      obj (
        field "schema_version" (get "schema_version" spec) (
          field "lease_digest" (text lease_digest) (
            field "repository_root" (get "repository_root" spec) (
              field "isolation_root" (get "isolation_root" spec) (
                field "base_commit" (get "base_commit" spec) (
                  field "allowed_paths" (get "allowed_paths" spec)
                    (field "max_changed_paths" (get "max_changed_paths" spec) end))))))))

-- `payload.get("inspection") is not None or payload.get("inspection_digest") is not None`
unfoldable pub has_inspection : Fields → Bool
has_inspection payload =
    not (is_null (get "inspection" payload)) || not (is_null (get "inspection_digest" payload))

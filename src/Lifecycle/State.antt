-- ===== src/Lifecycle/State.antt =====
-- The states of a run, its nodes and its active lease in orchestration/run_lifecycle.py.
use blackcell.Prelude.{
  ℕ, String, Bool, Option, List, Outcome, str_eq, none, some, [], ◌∷◌, if◌then◌else◌,
}
use blackcell.Json.{Fields}

pub data LifecycleError : Type 0 where
  invalid_run_lifecycle : LifecycleError

abbrev pub Result {ℓ} : Type ℓ → Type ℓ
Result = Outcome LifecycleError

pub data RunStatus : Type 0 where
  queued running canceling canceled succeeded failed reconciliation_required : RunStatus

pub data NodeStatus : Type 0 where
  pending claimed running succeeded failed canceled reconciliation_required : NodeStatus

pub data CleanupStatus : Type 0 where
  eligible requested failed cleaned : CleanupStatus

pub record ActiveLease : Type 0 where
  pub node_id : String
  pub attempt : ℕ
  pub fencing_token : ℕ
  pub worker_id : String
  pub lease_digest : String
  pub worktree_spec_digest : String
  pub worktree_spec : Fields
  pub expires_at : ℕ
  pub prepared : Bool
  pub provider_request_id : Option String
  pub provider_context_digest : Option String
  pub provider_dispatch_event_id : Option String

-- `_MutableNode`, and `NodeLifecycleState`, which has its fields
pub record Node : Type 0 where
  pub node_id : String
  pub status : NodeStatus
  pub attempts : ℕ
  pub fencing_token : ℕ
  pub result_digest : Option String
  pub head_commit : Option String
  pub failure_code : Option String
  pub retained_worktree : Bool
  pub lease_digest : Option String
  pub worktree_spec_digest : Option String
  pub worktree_spec : Option Fields
  pub cleanup_status : Option CleanupStatus
  pub cleanup_failure_code : Option String

-- the variables of the loop of `fold_run_lifecycle`, and the dictionary `nodes`
pub record Fold : Type 0 where
  pub nodes : List Node
  pub status : RunStatus
  pub cancellation_requested : Bool
  pub active : Option ActiveLease
  pub terminal : Bool
  pub reconciliation_recorded : Bool
  pub maximum_fence : ℕ

-- `_MutableNode(node_id)`
abbrev pub new_node : String → Node
new_node k = record {
  node_id = k;
  status = NodeStatus.pending;
  attempts = 0;
  fencing_token = 0;
  result_digest = none;
  head_commit = none;
  failure_code = none;
  retained_worktree = Bool.false;
  lease_digest = none;
  worktree_spec_digest = none;
  worktree_spec = none;
  cleanup_status = none;
  cleanup_failure_code = none;
}

-- `nodes[node_id]`
unfoldable pub find_node : String → List Node → Option Node
find_node k [] = none
find_node k (node ∷ nodes) = if str_eq node.node_id k then some node else find_node k nodes

-- an assignment to the attributes of a node of the dictionary
unfoldable pub put_node : Node → List Node → List Node
put_node node [] = []
put_node node (old ∷ nodes) =
    let rest = put_node node nodes in
    if str_eq old.node_id node.node_id then node ∷ rest else old ∷ rest

-- `nodes[k].… = …`, at a key that `_active` or `_node` has found
unfoldable pub update_node : List Node → String → (Node → Node) → List Node
unfolding find_node put_node
update_node nodes k change = elim (find_node k nodes) [
  | none ↦ nodes
  | some node ↦ put_node (change node) nodes
]

-- the enums' tests
abbrev pub is_pending : NodeStatus → Bool
is_pending NodeStatus.pending = Bool.true
is_pending _ = Bool.false

abbrev pub is_succeeded : NodeStatus → Bool
is_succeeded NodeStatus.succeeded = Bool.true
is_succeeded _ = Bool.false

abbrev pub is_failed : NodeStatus → Bool
is_failed NodeStatus.failed = Bool.true
is_failed _ = Bool.false

abbrev pub needs_reconciliation : NodeStatus → Bool
needs_reconciliation NodeStatus.reconciliation_required = Bool.true
needs_reconciliation _ = Bool.false

-- `status in {QUEUED, RUNNING}`
abbrev pub is_claimable : RunStatus → Bool
is_claimable RunStatus.queued = Bool.true
is_claimable RunStatus.running = Bool.true
is_claimable _ = Bool.false

unfoldable pub same_cleanup : Option CleanupStatus → CleanupStatus → Bool
same_cleanup (some CleanupStatus.eligible) CleanupStatus.eligible = Bool.true
same_cleanup (some CleanupStatus.requested) CleanupStatus.requested = Bool.true
same_cleanup (some CleanupStatus.failed) CleanupStatus.failed = Bool.true
same_cleanup (some CleanupStatus.cleaned) CleanupStatus.cleaned = Bool.true
same_cleanup _ _ = Bool.false

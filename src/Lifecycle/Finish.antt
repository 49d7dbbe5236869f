-- ===== src/Lifecycle/Finish.antt =====
-- How a run ends: what the final statuses, the cancellation and the fencing token say.
use blackcell.Prelude.{
  ◌≡◌, refl, String, Bool, true, false, none, some, List, ◌&&◌, not, is_some, arith, ok,
  Outcome-cases, inl, inr,
}
use blackcell.Json.{get}
use blackcell.Host.{Host}
use blackcell.Kernel.Event.{EventEnvelope}
use blackcell.Lifecycle.State.{Fold, Node, RunStatus, CleanupStatus, put_node, is_succeeded}
use blackcell.Lifecycle.Fields.{identifier}
use blackcell.Lifecycle.Guards.{cleanup_node, active_of}
use blackcell.Lifecycle.Kind.{Kind, is_cleanup}
use blackcell.Lifecycle.Lease.{claimed, worktree_prepared, provider_dispatch_started}
use blackcell.Lifecycle.Attempt.{
  cancel_requested, node_succeeded, node_failed, node_requeued, node_canceled,
  node_reconciliation_required,
}
use blackcell.Lifecycle.Cleanup.{cleanup_requested, cleaned, cleanup_failed, bool_value}
use blackcell.Lifecycle.Terminal.{
  terminal_payload, run_succeeded, run_failed, run_canceled, run_reconciliation_required,
  all_succeeded, any_failed,
}
use blackcell.Lifecycle.Fold.{
  RunLifecycleState, Dependencies, dispatch, fold_event, is_settled, fold_run_lifecycle,
}
use blackcell.Lifecycle.Nodes.{all-put}
use blackcell.Lifecycle.Run.{fold_run_lifecycle_induction, Shows}

-- what a run's status promises of the nodes, the lease and the wish to cancel
unfoldable keeps_status : RunStatus → Fold → Bool
keeps_status RunStatus.succeeded s =
    s.terminal && all_succeeded s.nodes && not (is_some s.active) && not s.cancellation_requested
keeps_status RunStatus.canceled s = s.terminal && s.cancellation_requested && not (is_some s.active)
keeps_status RunStatus.queued s = not s.terminal
keeps_status RunStatus.running s = not s.terminal
keeps_status RunStatus.canceling s = not s.terminal
keeps_status _ s = true

-- `status in {QUEUED, RUNNING, CANCELING}`
abbrev is_open : RunStatus → Bool
is_open RunStatus.queued = true
is_open RunStatus.running = true
is_open RunStatus.canceling = true
is_open _ = false

cleaned-all_succeeded :
    (c : Node) (nodes : List Node)
    → is_succeeded c.status ≡ true
    → all_succeeded nodes ≡ true
    → all_succeeded (put_node c nodes) ≡ true
unfolding all_succeeded
cleaned-all_succeeded c nodes done h = all-put (λ (n : Node). is_succeeded n.status) c nodes h done

module _ (host : Host) (run_id : String) (deps : Dependencies) (s t : Fold)
    (event : EventEnvelope) where
  -- a cleaned node, under a status that stays
  tidied-keeps :
      (c node : Node) (expected : CleanupStatus)
      → cleanup_node event.payload s.nodes s.active expected ≡ ok node
      → c.status ≡ node.status
      → t ≡ record s { nodes = put_node c s.nodes }
      → keeps_status s.status s ≡ true
      → keeps_status t.status t ≡ true
  unfolding keeps_status cleanup_node
  tidied-keeps c node expected e same h k = ground (arith, cleaned-all_succeeded c s.nodes)

  dispatch-keeps :
      (kind : Kind)
      → (s.terminal && not (is_cleanup kind)) ≡ false
      → dispatch host run_id deps kind s event ≡ ok t
      → keeps_status s.status s ≡ true
      → keeps_status t.status t ≡ true
  unfolding dispatch is_cleanup keeps_status claimed cleanup_requested cleaned cleanup_failed
      worktree_prepared provider_dispatch_started cancel_requested node_succeeded node_failed
      node_requeued node_canceled node_reconciliation_required run_succeeded run_failed run_canceled
      run_reconciliation_required active_of terminal_payload
  dispatch-keeps Kind.run_queued on h k = ground arith
  dispatch-keeps Kind.node_claimed on h k = ground arith
  dispatch-keeps Kind.node_worktree_prepared on h k = ground arith
  dispatch-keeps Kind.node_provider_dispatch_started on h k = ground arith
  dispatch-keeps Kind.run_cancel_requested on h k = ground arith
  dispatch-keeps Kind.node_succeeded on h k = ground arith
  dispatch-keeps Kind.node_failed on h k = ground arith
  dispatch-keeps Kind.node_requeued on h k = ground arith
  dispatch-keeps Kind.node_canceled on h k = ground arith
  dispatch-keeps Kind.node_reconciliation_required on h k = ground arith
  dispatch-keeps Kind.node_worktree_cleanup_requested on h k =
      elim (Outcome-cases (cleanup_node event.payload s.nodes s.active CleanupStatus.eligible)) [
        | inr bad ↦ ground arith
        | inl (node, e) ↦
            tidied-keeps (record node { cleanup_status = some CleanupStatus.requested }) node
              CleanupStatus.eligible e refl (ground arith) k
      ]
  dispatch-keeps Kind.node_worktree_cleaned on h k =
      elim (Outcome-cases (cleanup_node event.payload s.nodes s.active CleanupStatus.requested)) [
        | inr bad ↦ ground arith
        | inl (node, e) ↦
            tidied-keeps
              (record node {
                retained_worktree = false;
                cleanup_status = some CleanupStatus.cleaned;
                cleanup_failure_code = none;
              })
              node CleanupStatus.requested e refl (ground arith) k
      ]
  dispatch-keeps Kind.node_worktree_cleanup_failed on h k =
      elim (Outcome-cases (cleanup_node event.payload s.nodes s.active CleanupStatus.requested)) [
        | inr bad ↦ ground arith
        | inl (node, e) ↦ elim (Outcome-cases (identifier (get "failure_code" event.payload))) [
          | inr bad ↦ ground arith
          | inl (code, e2) ↦
              elim (Outcome-cases (bool_value (get "retained_worktree" event.payload))) [
                | inr bad ↦ ground arith
                | inl (retained, e3) ↦
                    tidied-keeps
                      (record node {
                        retained_worktree = retained;
                        cleanup_status = some CleanupStatus.failed;
                        cleanup_failure_code = some code;
                      })
                      node CleanupStatus.requested e refl (ground arith) k
              ]
        ]
      ]
  dispatch-keeps Kind.run_succeeded on h k = ground arith
  dispatch-keeps Kind.run_failed on h k = ground arith
  dispatch-keeps Kind.run_canceled on h k = ground arith
  dispatch-keeps Kind.run_reconciliation_required on h k = ground arith

module _ (host : Host) (run_id : String) (deps : Dependencies) (s t : Fold) (event : EventEnvelope)
    (kind : Kind) where
  fold_event-keeps :
      fold_event host run_id deps s event kind ≡ ok t
      → keeps_status s.status s ≡ true
      → keeps_status t.status t ≡ true
  unfolding fold_event
  fold_event-keeps h k =
      dispatch-keeps host run_id deps s t event kind (ground arith) (ground arith) k

module _ (host : Host) (run_id : String) (deps : Dependencies) (events : List EventEnvelope)
    (r : RunLifecycleState) (h : fold_run_lifecycle host run_id deps events ≡ ok r) where
  fold_run_lifecycle-keeps :
      (s : Fold) × Shows host run_id deps (λ s. keeps_status s.status s ≡ true) r s
  unfolding keeps_status
  fold_run_lifecycle-keeps =
      fold_run_lifecycle_induction host run_id deps (λ s. keeps_status s.status s ≡ true)
        (λ s t event kind. fold_event-keeps host run_id deps s t event kind) events r h refl

-- A run whose status is `succeeded` has no node that has not succeeded, nobody at work, and was not
-- asked to stop.
pub fold_run_lifecycle-succeeded :
    (host : Host) (run_id : String) (deps : Dependencies) (events : List EventEnvelope)
    (r : RunLifecycleState)
    → fold_run_lifecycle host run_id deps events ≡ ok r
    → r.status ≡ RunStatus.succeeded
    → (all_succeeded r.nodes ≡ true) × (r.active_lease ≡ none) × (r.cancellation_requested ≡ false)
unfolding keeps_status
fold_run_lifecycle-succeeded host run_id deps events r h done =
    let (s, shown) = fold_run_lifecycle-keeps host run_id deps events r h in
    let k : keeps_status s.status s ≡ true = shown.holds_of in
    ground (arith, k, shown.nodes, shown.active, shown.status, shown.cancellation)

-- A run that is shown as `canceled` was asked to stop and has nobody at work.
pub fold_run_lifecycle-canceled :
    (host : Host) (run_id : String) (deps : Dependencies) (events : List EventEnvelope)
    (r : RunLifecycleState)
    → fold_run_lifecycle host run_id deps events ≡ ok r
    → r.status ≡ RunStatus.canceled
    → (r.active_lease ≡ none) × (r.cancellation_requested ≡ true)
unfolding keeps_status
fold_run_lifecycle-canceled host run_id deps events r h done =
    let (s, shown) = fold_run_lifecycle-keeps host run_id deps events r h in
    let k : keeps_status s.status s ≡ true = shown.holds_of in
    ground (arith, k, shown.nodes, shown.active, shown.status, shown.cancellation)

-- A run that is queued, running or canceling with nobody at work was not asked to stop, has no failed
-- node, and has a node that has not succeeded: it is not left without a way on.
pub fold_run_lifecycle-open :
    (host : Host) (run_id : String) (deps : Dependencies) (events : List EventEnvelope)
    (r : RunLifecycleState)
    → fold_run_lifecycle host run_id deps events ≡ ok r
    → is_open r.status ≡ true
    → r.active_lease ≡ none
    → (r.cancellation_requested ≡ false)
      × (any_failed r.nodes ≡ false)
      × (all_succeeded r.nodes ≡ false)
unfolding keeps_status is_settled
fold_run_lifecycle-open host run_id deps events r h going idle =
    let (s, shown) = fold_run_lifecycle-keeps host run_id deps events r h in
    let k : keeps_status s.status s ≡ true = shown.holds_of in
    let settled : is_settled s ≡ true = shown.settled in
    ground (arith, k, settled, shown.nodes, shown.active, shown.status, shown.cancellation)

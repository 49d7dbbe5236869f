-- ===== src/Lifecycle/Step/Refines.antt =====
-- The handlers of all events, against the moves.
use blackcell.Prelude.{◌≡◌, String, ok, arith}
use blackcell.Host.{Host}
use blackcell.Kernel.Event.{EventEnvelope}
use blackcell.Lifecycle.State.{Fold}
use blackcell.Lifecycle.Kind.{Kind}
use blackcell.Lifecycle.Attempt.{cancel_requested}
use blackcell.Lifecycle.Terminal.{
  run_succeeded, run_failed, run_canceled, run_reconciliation_required,
}
use blackcell.Lifecycle.Fold.{Dependencies, dispatch, fold_event}
use blackcell.Lifecycle.Step.{Step, stands}
use blackcell.Lifecycle.Step.Begun.{claimed-Step}
use blackcell.Lifecycle.Step.Held.{
  worktree_prepared-Step, provider_dispatch_started-Step, cleanup_requested-Step, cleaned-Step,
  cleanup_failed-Step,
}
use blackcell.Lifecycle.Step.Ended.{
  node_succeeded-Step, node_failed-Step, node_requeued-Step, node_canceled-Step,
  node_reconciliation_required-Step,
}

module _ (host : Host) (run_id : String) (deps : Dependencies) (s : Fold) (event : EventEnvelope)
    (t : Fold) where
  pub dispatch-Step :
      (kind : Kind) → dispatch host run_id deps kind s event ≡ ok t → Step deps event s t
  unfolding dispatch cancel_requested run_succeeded run_failed run_canceled
      run_reconciliation_required
  dispatch-Step Kind.run_queued h = cc
  dispatch-Step Kind.node_claimed h = claimed-Step host run_id deps s event h
  dispatch-Step Kind.node_worktree_prepared h = worktree_prepared-Step host run_id deps s event h
  dispatch-Step Kind.node_provider_dispatch_started h =
      provider_dispatch_started-Step host run_id deps s event h
  dispatch-Step Kind.run_cancel_requested h = stands (ground arith)
  dispatch-Step Kind.node_succeeded h = node_succeeded-Step host run_id deps s event h
  dispatch-Step Kind.node_failed h = node_failed-Step host run_id deps s event h
  dispatch-Step Kind.node_requeued h = node_requeued-Step host run_id deps s event h
  dispatch-Step Kind.node_canceled h = node_canceled-Step host run_id deps s event h
  dispatch-Step Kind.node_reconciliation_required h =
      node_reconciliation_required-Step host run_id deps s event h
  dispatch-Step Kind.node_worktree_cleanup_requested h =
      cleanup_requested-Step host run_id deps s event h
  dispatch-Step Kind.node_worktree_cleaned h = cleaned-Step host run_id deps s event h
  dispatch-Step Kind.node_worktree_cleanup_failed h = cleanup_failed-Step host run_id deps s event h
  dispatch-Step Kind.run_succeeded h = stands (ground arith)
  dispatch-Step Kind.run_failed h = stands (ground arith)
  dispatch-Step Kind.run_canceled h = stands (ground arith)
  dispatch-Step Kind.run_reconciliation_required h = stands (ground arith)

-- An event that the fold accepts is one of the moves: a claim by one worker of a pending node whose
-- dependencies have all succeeded, under the next fencing token; work under the lease that is held, or
-- the dispatch of a provider under it, which is recorded in the lease and which none came before; the
-- end of that lease; the cleanup of a node that has succeeded; or an event that leaves nodes and lease
-- as they are.
pub fold_event-Step :
    (host : Host) (run_id : String) (deps : Dependencies) (s : Fold) (event : EventEnvelope)
    (kind : Kind) {t : Fold}
    → fold_event host run_id deps s event kind ≡ ok t
    → Step deps event s t
unfolding fold_event
fold_event-Step host run_id deps s event kind {t} h =
    dispatch-Step host run_id deps s event t kind (ground arith)

-- ===== src/Lifecycle/Kind.antt =====
-- The event types of a run's stream (`RUN_EVENT_TYPES`), and those of orchestration/execution_plan.py
-- that may stand between them.
use blackcell.Prelude.{
  String, Bool, true, false, Option, none, some, List, [], ◌∷◌, ◌&&◌, ◌||◌, str_eq, is_some, any,
  if◌then◌else◌,
}
use blackcell.Kernel.Event.{EventEnvelope}

pub data Kind : Type 0 where
  run_queued node_claimed node_worktree_prepared node_provider_dispatch_started : Kind
  run_cancel_requested node_succeeded node_failed node_requeued node_canceled : Kind
  node_reconciliation_required node_worktree_cleanup_requested node_worktree_cleaned : Kind
  node_worktree_cleanup_failed run_succeeded run_failed run_canceled : Kind
  run_reconciliation_required : Kind

abbrev kinds : List (String × Kind)
kinds =
    ("run.queued", run_queued)
    ∷ ("node.claimed", node_claimed)
    ∷ ("node.worktree-prepared", node_worktree_prepared)
    ∷ ("node.provider-dispatch-started", node_provider_dispatch_started)
    ∷ ("run.cancel-requested", run_cancel_requested)
    ∷ ("node.succeeded", node_succeeded)
    ∷ ("node.failed", node_failed)
    ∷ ("node.requeued", node_requeued)
    ∷ ("node.canceled", node_canceled)
    ∷ ("node.reconciliation-required", node_reconciliation_required)
    ∷ ("node.worktree-cleanup-requested", node_worktree_cleanup_requested)
    ∷ ("node.worktree-cleaned", node_worktree_cleaned)
    ∷ ("node.worktree-cleanup-failed", node_worktree_cleanup_failed)
    ∷ ("run.succeeded", run_succeeded)
    ∷ ("run.failed", run_failed)
    ∷ ("run.canceled", run_canceled)
    ∷ ("run.reconciliation-required", run_reconciliation_required)
    ∷ []

find_kind : String → List (String × Kind) → Option Kind
find_kind name [] = none
find_kind name ((k, kind) ∷ rest) = if str_eq k name then some kind else find_kind name rest

-- the kind of a public event: `event.source == RUNTIME_EVENT_SOURCE and …`
unfoldable pub kind_of : EventEnvelope → Option Kind
unfolding find_kind
kind_of event =
    if str_eq event.source "blackcell.runtime" then find_kind event.event_type kinds else none

-- `EXECUTION_EVENT_TYPES`
abbrev execution_event_types : List String
execution_event_types =
    "execution.goal.admitted" ∷ "execution.plan-draft.received" ∷ "execution.plan.admitted"
    ∷ "execution.replan.started" ∷ "execution.task.ready" ∷ "execution.policy.decided"
    ∷ "execution.task.started" ∷ "execution.task.verifying" ∷ "execution.task.verified"
    ∷ "execution.task.blocked" ∷ "execution.run.terminated" ∷ []

-- `known_event`
unfoldable pub is_known : EventEnvelope → Bool
unfolding kind_of
is_known event =
    is_some (kind_of event)
    || (str_eq event.source "blackcell.execution"
        && any (str_eq event.event_type) execution_event_types)

unfoldable pub is_cleanup : Kind → Bool
is_cleanup node_worktree_cleanup_requested = true
is_cleanup node_worktree_cleaned = true
is_cleanup node_worktree_cleanup_failed = true
is_cleanup _ = false

-- `public_events`, each with its kind
unfoldable pub public_events : List EventEnvelope → List (EventEnvelope × Kind)
unfolding kind_of
public_events [] = []
public_events (event ∷ events) =
    let rest = public_events events in
    elim (kind_of event) [ none ↦ rest | some kind ↦ (event, kind) ∷ rest ]

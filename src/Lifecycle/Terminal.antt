-- ===== src/Lifecycle/Terminal.antt =====
-- The handlers of `run.succeeded`, `run.failed`, `run.canceled` and `run.reconciliation-required`.
use blackcell.Prelude.{
  String, Bool, true, false, List, [], ◌∷◌, ◌&&◌, ◌||◌, not, all, any, is_some, ok, ◌>>=◌, ◌>>◌,
}
use blackcell.Json.{get, is_text}
use blackcell.Kernel.Event.{EventEnvelope}
use blackcell.Lifecycle.State.{
  Result, Fold, Node, RunStatus, is_succeeded, is_failed, needs_reconciliation,
}
use blackcell.Lifecycle.Fields.{reject}
use blackcell.Lifecycle.Guards.{exact, run}
use blackcell.Lifecycle.Cleanup.{bool_value}

abbrev same_bool : Bool → Bool → Bool
same_bool true b = b
same_bool false b = not b

-- `all(node.status is SUCCEEDED for node in nodes.values())`
unfoldable pub all_succeeded : List Node → Bool
all_succeeded nodes = all (λ (n : Node). is_succeeded n.status) nodes

unfoldable pub any_failed : List Node → Bool
any_failed nodes = any (λ (n : Node). is_failed n.status) nodes

unfoldable pub any_reconciliation : List Node → Bool
any_reconciliation nodes = any (λ (n : Node). needs_reconciliation n.status) nodes

abbrev pub any_retained : List Node → Bool
any_retained nodes = any (λ (n : Node). n.retained_worktree) nodes

module _ (run_id : String) (state : Fold) (event : EventEnvelope) where
  -- the checks before the four branches: the payload's `retained_worktree`, if it is a bool
  unfoldable pub terminal_payload : String → Result Bool
  terminal_payload declared = do
    let payload = event.payload
    exact payload ("principal_id" ∷ "run_id" ∷ "status" ∷ "retained_worktree" ∷ [])
    run payload run_id
    reject (not (is_text (get "status" payload) declared))
    retained ← bool_value (get "retained_worktree" payload)
    reject (is_some state.active)
    ok retained

  -- `event.event_type == RUN_SUCCEEDED`
  unfoldable pub run_succeeded : Result Fold
  run_succeeded = do
    retained ← terminal_payload "succeeded"
    reject (
        state.cancellation_requested
        || not (all_succeeded state.nodes)
        || not (same_bool retained (any_retained state.nodes)))
    ok (record state { status = RunStatus.succeeded; terminal = true })

  -- `event.event_type == RUN_FAILED`
  unfoldable pub run_failed : Result Fold
  run_failed = do
    retained ← terminal_payload "failed"
    reject (
        not (any_failed state.nodes)
        || not (
            same_bool retained
              (any (λ (n : Node). is_failed n.status && n.retained_worktree) state.nodes)))
    ok (record state { status = RunStatus.failed; terminal = true })

  -- `event.event_type == RUN_CANCELED`
  unfoldable pub run_canceled : Result Fold
  run_canceled = do
    retained ← terminal_payload "canceled"
    reject (not state.cancellation_requested || not (same_bool retained (any_retained state.nodes)))
    ok (record state { status = RunStatus.canceled; terminal = true })

  -- `event.event_type == RUN_RECONCILIATION_REQUIRED`, which does not end the stream
  unfoldable pub run_reconciliation_required : Result Fold
  run_reconciliation_required = do
    retained ← terminal_payload "reconciliation-required"
    reject (
        not (any_reconciliation state.nodes)
        || not (
            same_bool retained (
              any (λ (n : Node). needs_reconciliation n.status && n.retained_worktree)
                state.nodes)))
    ok (record state { status = RunStatus.reconciliation_required; reconciliation_recorded = true })

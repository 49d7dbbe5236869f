-- ===== src/Lifecycle/Fold.antt =====
-- `fold_run_lifecycle`: the checks of the stream, the loop over its public events, and the last checks.
use Prim.Native.String
use text.Mathlib.Text.{is_le}
use blackcell.Prelude.{
  ℕ, suc, String, Bool, true, false, Option, none, some, List, [], ◌∷◌, ◌&&◌, ◌||◌, not, ◌==◌,
  str_eq, opt_eq, all, any, map, is_some, ok, ◌>>=◌, ◌>>◌, if◌then◌else◌,
}
use blackcell.Json.{obj, get, is_text}
use blackcell.Host.{Host, json_digest}
use blackcell.Kernel.Event.{EventEnvelope}
use blackcell.Lifecycle.State.{Result, Fold, Node, RunStatus, ActiveLease, new_node}
use blackcell.Lifecycle.Fields.{failure, reject, mapping}
use blackcell.Lifecycle.Guards.{exact, principal}
use blackcell.Lifecycle.Kind.{Kind, is_known, is_cleanup, public_events}
use blackcell.Lifecycle.Lease.{claimed, worktree_prepared, provider_dispatch_started}
use blackcell.Lifecycle.Attempt.{
  cancel_requested, node_succeeded, node_failed, node_requeued, node_canceled,
  node_reconciliation_required,
}
use blackcell.Lifecycle.Cleanup.{cleanup_requested, cleaned, cleanup_failed}
use blackcell.Lifecycle.Terminal.{
  run_succeeded, run_failed, run_canceled, run_reconciliation_required, all_succeeded, any_failed,
  any_reconciliation,
}

pub record RunLifecycleState : Type 0 where
  pub run_id : String
  pub status : RunStatus
  pub nodes : List Node
  pub cancellation_requested : Bool
  pub active_lease : Option ActiveLease
  pub queued_event : EventEnvelope
  pub latest_event : EventEnvelope
  pub last_stream_sequence : ℕ

abbrev pub Dependencies : Type 0
Dependencies = List (String × List String)

abbrev pub names : Dependencies → List String
names deps = map (λ (d : String × List String). d.0) deps

abbrev pub contains : List String → String → Bool
contains ks k = any (λ (j : String). str_eq j k) ks

-- the checks of `node_dependencies`; a mapping has no key twice
unfoldable pub dependencies_ok : Dependencies → Bool
dependencies_ok deps =
    all
      (λ (d : String × List String).
        not (str_eq d.0 "") && not (contains d.1 d.0) && all (contains (names deps)) d.1)
      deps

-- `sorted`: texts compare by code points
unfoldable pub insert_name : String → List String → List String
insert_name k [] = k ∷ []
insert_name k (j ∷ ks) =
    let rest = insert_name k ks in if is_le (String.compare k j) then k ∷ j ∷ ks else j ∷ rest

unfoldable pub sorted : List String → List String
unfolding insert_name
sorted [] = []
sorted (k ∷ ks) = insert_name k (sorted ks)

-- the loop over `enumerate(ordered_events, start=1)`, from `sequence`
unfoldable pub envelopes_ok : String → ℕ → List EventEnvelope → Bool
envelopes_ok stream_id sequence [] = true
envelopes_ok stream_id sequence (event ∷ events) =
    str_eq event.stream_id stream_id
    && event.stream_sequence == sequence
    && event.schema_version == 1
    && is_known event
    && envelopes_ok stream_id (suc sequence) events

-- the loop over `pairwise(ordered_events)`
unfoldable pub causes_ok : EventEnvelope → List EventEnvelope → Bool
causes_ok previous [] = true
causes_ok previous (event ∷ events) =
    opt_eq event.causation_id (some previous.event_id) && causes_ok event events

unfoldable pub last_event : EventEnvelope → List EventEnvelope → EventEnvelope
last_event event [] = event
last_event event (next ∷ events) = last_event next events

-- the end of the loop: no open question may be left with nobody at work on it
unfoldable pub is_settled : Fold → Bool
is_settled state =
    is_some state.active
    || state.terminal
    || (not state.cancellation_requested
        && not (all_succeeded state.nodes)
        && not (any_failed state.nodes)
        && (not (any_reconciliation state.nodes) || state.reconciliation_recorded))

module _ (host : Host) (run_id : String) where
  -- `_validate_queued`
  unfoldable pub validate_queued : EventEnvelope → Result (Unit {0})
  validate_queued event = do
    let payload = event.payload
    exact payload ("request" ∷ "request_digest" ∷ "principal_id" ∷ "references" ∷ "status" ∷ [])
    principal payload event
    request ← mapping (get "request" payload)
    reject (
        not (is_text (get "run_id" request) run_id)
        || not (is_text (get "request_digest" payload) (json_digest host (obj request)))
        || not (is_text (get "status" payload) "queued"))

  -- the chain of branches on `event.event_type`
  unfoldable pub dispatch : Dependencies → Kind → Fold → EventEnvelope → Result Fold
  dispatch deps Kind.run_queued state event = failure
  dispatch deps Kind.node_claimed state event = claimed host run_id state event deps
  dispatch deps Kind.node_worktree_prepared state event = worktree_prepared host run_id state event
  dispatch deps Kind.node_provider_dispatch_started state event =
      provider_dispatch_started host run_id state event
  dispatch deps Kind.run_cancel_requested state event = cancel_requested host run_id state event
  dispatch deps Kind.node_succeeded state event = node_succeeded host run_id state event
  dispatch deps Kind.node_failed state event = node_failed host run_id state event
  dispatch deps Kind.node_requeued state event = node_requeued host run_id state event
  dispatch deps Kind.node_canceled state event = node_canceled host run_id state event
  dispatch deps Kind.node_reconciliation_required state event =
      node_reconciliation_required host run_id state event
  dispatch deps Kind.node_worktree_cleanup_requested state event =
      cleanup_requested host run_id state event
  dispatch deps Kind.node_worktree_cleaned state event = cleaned host run_id state event
  dispatch deps Kind.node_worktree_cleanup_failed state event =
      cleanup_failed host run_id state event
  dispatch deps Kind.run_succeeded state event = run_succeeded run_id state event
  dispatch deps Kind.run_failed state event = run_failed run_id state event
  dispatch deps Kind.run_canceled state event = run_canceled run_id state event
  dispatch deps Kind.run_reconciliation_required state event =
      run_reconciliation_required run_id state event

  -- one round of the loop over `public_events[1:]`
  unfoldable pub fold_event : Dependencies → Fold → EventEnvelope → Kind → Result Fold
  fold_event deps state event kind = do
    reject (state.terminal && not (is_cleanup kind))
    principal event.payload event
    dispatch deps kind state event

  unfoldable pub fold_events : Dependencies → Fold → List (EventEnvelope × Kind) → Result Fold
  fold_events deps state [] = ok state
  fold_events deps state ((event, kind) ∷ events) =
      fold_event deps state event kind >>= λ next. fold_events deps next events

  abbrev pub start : Dependencies → Fold
  start deps = record {
    nodes = map new_node (sorted (names deps));
    status = RunStatus.queued;
    cancellation_requested = false;
    active = none;
    terminal = false;
    reconciliation_recorded = false;
    maximum_fence = 0;
  }

  -- the part behind the checks of the envelopes: `queued` is the first public event
  unfoldable pub fold_public :
      Dependencies → EventEnvelope → Kind → List (EventEnvelope × Kind) → Result Fold
  fold_public deps queued Kind.run_queued rest = do
    validate_queued queued
    reject (
        not (
          all (λ (e : EventEnvelope × Kind). str_eq e.0.correlation_id queued.correlation_id) rest))
    state ← fold_events deps (start deps) rest
    reject (not (is_settled state))
    ok state
  fold_public deps queued kind rest = failure

  abbrev last_public : EventEnvelope → List (EventEnvelope × Kind) → EventEnvelope
  last_public event [] = event
  last_public event ((next, kind) ∷ rest) = last_public next rest

  unfoldable pub fold_stream :
      Dependencies
      → EventEnvelope
      → List EventEnvelope
      → List (EventEnvelope × Kind)
      → Result RunLifecycleState
  fold_stream deps event events [] = failure
  fold_stream deps event events ((queued, kind) ∷ rest) = do
    reject (not (causes_ok event events))
    state ← fold_public deps queued kind rest
    ok (record {
      run_id = run_id;
      status = state.status;
      nodes = state.nodes;
      cancellation_requested = state.cancellation_requested;
      active_lease = state.active;
      queued_event = queued;
      latest_event = last_public queued rest;
      last_stream_sequence = (last_event event events).stream_sequence;
    })

  abbrev is_empty : Dependencies → Bool
  is_empty [] = true
  is_empty _ = false

  -- `fold_run_lifecycle`
  unfoldable pub fold_run_lifecycle : Dependencies → List EventEnvelope → Result RunLifecycleState
  fold_run_lifecycle deps [] = failure
  fold_run_lifecycle deps (event ∷ events) = do
    reject (str_eq run_id "" || is_empty deps || not (dependencies_ok deps))
    reject (not (envelopes_ok (String.◌++◌ "run:" run_id) 1 (event ∷ events)))
    fold_stream deps event events (public_events (event ∷ events))

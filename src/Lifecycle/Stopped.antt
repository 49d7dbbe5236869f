-- ===== src/Lifecycle/Stopped.antt =====
-- What may follow the event that asks a run to stop.
use blackcell.Prelude.{
  ◌≡◌, String, true, false, List, [], ◌∷◌, ◌++◌, All, arith, ok, >>=-eq-ok, Outcome-cases,
  Bool-cases, inl, inr,
}
use blackcell.Host.{Host}
use blackcell.Kernel.Event.{EventEnvelope}
use blackcell.Lifecycle.State.{Fold}
use blackcell.Lifecycle.Kind.{Kind, public_events}
use blackcell.Lifecycle.Lease.{claimed, worktree_prepared, provider_dispatch_started}
use blackcell.Lifecycle.Attempt.{
  cancel_requested, node_succeeded, node_failed, node_requeued, node_canceled,
  node_reconciliation_required,
}
use blackcell.Lifecycle.Cleanup.{cleanup_requested, cleaned, cleanup_failed}
use blackcell.Lifecycle.Terminal.{
  run_succeeded, run_failed, run_canceled, run_reconciliation_required,
}
use blackcell.Lifecycle.Fold.{
  RunLifecycleState, Dependencies, start, dispatch, fold_event, fold_events, fold_public,
  fold_stream, fold_run_lifecycle,
}
use blackcell.Lifecycle.Fence.{goes_on, fold_event-goes_on}

-- the event is not one of those that go on
abbrev pub Stops : EventEnvelope × Kind → Type 0
Stops entry = goes_on entry.1 ≡ false

module _ (host : Host) (run_id : String) (deps : Dependencies) where
  -- The wish to cancel is never taken back.
  dispatch-asked :
      (s t : Fold) (event : EventEnvelope) (kind : Kind)
      → dispatch host run_id deps kind s event ≡ ok t
      → s.cancellation_requested ≡ true
      → t.cancellation_requested ≡ true
  unfolding dispatch claimed worktree_prepared provider_dispatch_started cancel_requested
      node_succeeded node_failed node_requeued node_canceled node_reconciliation_required
      run_succeeded run_failed run_canceled run_reconciliation_required cleanup_requested cleaned
      cleanup_failed
  dispatch-asked s t event Kind.run_queued h asked = ground arith
  dispatch-asked s t event Kind.node_claimed h asked = ground arith
  dispatch-asked s t event Kind.node_worktree_prepared h asked = ground arith
  dispatch-asked s t event Kind.node_provider_dispatch_started h asked = ground arith
  dispatch-asked s t event Kind.run_cancel_requested h asked = ground arith
  dispatch-asked s t event Kind.node_succeeded h asked = ground arith
  dispatch-asked s t event Kind.node_failed h asked = ground arith
  dispatch-asked s t event Kind.node_requeued h asked = ground arith
  dispatch-asked s t event Kind.node_canceled h asked = ground arith
  dispatch-asked s t event Kind.node_reconciliation_required h asked = ground arith
  dispatch-asked s t event Kind.node_worktree_cleanup_requested h asked = ground arith
  dispatch-asked s t event Kind.node_worktree_cleaned h asked = ground arith
  dispatch-asked s t event Kind.node_worktree_cleanup_failed h asked = ground arith
  dispatch-asked s t event Kind.run_succeeded h asked = ground arith
  dispatch-asked s t event Kind.run_failed h asked = ground arith
  dispatch-asked s t event Kind.run_canceled h asked = ground arith
  dispatch-asked s t event Kind.run_reconciliation_required h asked = ground arith

  fold_event-asked :
      (s t : Fold) (event : EventEnvelope) (kind : Kind)
      → fold_event host run_id deps s event kind ≡ ok t
      → s.cancellation_requested ≡ true
      → t.cancellation_requested ≡ true
  unfolding fold_event
  fold_event-asked s t event kind h = dispatch-asked s t event kind (ground arith)

  cancel_requested-asked :
      (s t : Fold) (event : EventEnvelope)
      → fold_event host run_id deps s event Kind.run_cancel_requested ≡ ok t
      → t.cancellation_requested ≡ true
  unfolding fold_event dispatch cancel_requested
  cancel_requested-asked s t event h = ground arith

  fold_events-Stops :
      (s t : Fold) (events : List (EventEnvelope × Kind))
      → fold_events host run_id deps s events ≡ ok t
      → s.cancellation_requested ≡ true
      → All Stops events
  unfolding fold_events
  fold_events-Stops s t [] h asked = tt
  fold_events-Stops s t ((event, kind) ∷ events) h asked =
      let (next, moved, rest) = >>=-eq-ok (fold_event host run_id deps s event kind) _ h in
      let later =
        fold_events-Stops next t events rest (fold_event-asked s next event kind moved asked) in
      elim (Bool-cases (goes_on kind)) [
        | inr stops ↦ (stops, later)
        | inl on ↦
            let refused = fold_event-goes_on host run_id deps s event kind asked on in ground arith
      ]

  events_behind-Stops :
      (s t : Fold) (before after : List (EventEnvelope × Kind)) (event : EventEnvelope)
      → fold_events host run_id deps s (before ++ (event, Kind.run_cancel_requested) ∷ after) ≡ ok t
      → All Stops after
  unfolding fold_events
  events_behind-Stops s t [] after event h =
      let (next, moved, rest) =
        >>=-eq-ok (fold_event host run_id deps s event Kind.run_cancel_requested) _ h in
      fold_events-Stops next t after rest (cancel_requested-asked s next event moved)
  events_behind-Stops s t ((first, kind) ∷ before) after event h =
      let (next, _, rest) = >>=-eq-ok (fold_event host run_id deps s first kind) _ h in
      events_behind-Stops next t before after event rest

  -- The first public event queues the run, so that a wish to cancel stands behind it.
  public-Stops :
      (queued : EventEnvelope) (kind : Kind) (rest before after : List (EventEnvelope × Kind))
      (event : EventEnvelope) (t : Fold)
      → fold_public host run_id deps queued kind rest ≡ ok t
      → ◌≡◌ {A = List (EventEnvelope × Kind)}
          ((queued, kind) ∷ rest)
          (before ++ (event, Kind.run_cancel_requested) ∷ after)
      → All Stops after
  unfolding fold_public
  public-Stops queued kind rest [] after event t h e =
      let named : kind ≡ Kind.run_cancel_requested = ground arith in
      let refused : fold_public host run_id deps queued Kind.run_cancel_requested rest ≡ ok t =
        rw named at h in
      ground arith
  public-Stops queued kind rest (first ∷ before) after event t h e =
      let behind : rest ≡ before ++ (event, Kind.run_cancel_requested) ∷ after = ground arith in
      let folded : fold_events host run_id deps (start host run_id deps) rest ≡ ok t =
        ground arith in
      events_behind-Stops (start host run_id deps) t before after event (rw behind at folded)

  stream-Stops :
      (event : EventEnvelope) (events : List EventEnvelope)
      (public before after : List (EventEnvelope × Kind)) (wish : EventEnvelope)
      (r : RunLifecycleState)
      → fold_stream host run_id deps event events public ≡ ok r
      → public ≡ before ++ (wish, Kind.run_cancel_requested) ∷ after
      → All Stops after
  unfolding fold_stream
  stream-Stops event events [] before after wish r h e = ground arith
  stream-Stops event events ((queued, kind) ∷ rest) before after wish r h e =
      elim (Outcome-cases (fold_public host run_id deps queued kind rest)) [
        | inr bad ↦ ground arith
        | inl (s, folded) ↦ public-Stops queued kind rest before after wish s folded e
      ]

-- Once a run is asked to stop, no node is claimed, dispatched, finished with success or queued again, and
-- the run neither succeeds nor is asked again: in a history that the fold accepts, no such event comes
-- anywhere after the wish to cancel.
pub fold_run_lifecycle-Stops :
    (host : Host) (run_id : String) (deps : Dependencies) (events : List EventEnvelope)
    (before after : List (EventEnvelope × Kind)) (wish : EventEnvelope) (r : RunLifecycleState)
    → fold_run_lifecycle host run_id deps events ≡ ok r
    → public_events events ≡ before ++ (wish, Kind.run_cancel_requested) ∷ after
    → All Stops after
unfolding fold_run_lifecycle
fold_run_lifecycle-Stops host run_id deps [] before after wish r h e = ground arith
fold_run_lifecycle-Stops host run_id deps (event ∷ events) before after wish r h e =
    stream-Stops host run_id deps event events (public_events (event ∷ events)) before after wish r
      (ground arith) e

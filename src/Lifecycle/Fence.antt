-- ===== src/Lifecycle/Fence.antt =====
-- Fencing tokens, and what a state with a wish to cancel refuses.
use blackcell.Prelude.{
  ℕ, suc, ◌+◌, ◌≡◌, refl, String, Bool, true, false, none, some, List, [], ◌∷◌, ◌==◌, arith, ok,
  Outcome-cases, inl, inr,
}
use blackcell.Host.{Host}
use blackcell.Kernel.Event.{EventEnvelope}
use blackcell.Lifecycle.State.{Fold, ActiveLease}
use blackcell.Lifecycle.Fields.{failure}
use blackcell.Lifecycle.Kind.{Kind, public_events}
use blackcell.Lifecycle.Lease.{claimed, worktree_prepared, provider_dispatch_started}
use blackcell.Lifecycle.Attempt.{
  cancel_requested, node_succeeded, node_failed, node_requeued, node_canceled,
  node_reconciliation_required,
}
use blackcell.Lifecycle.Cleanup.{cleanup_requested, cleaned, cleanup_failed}
use blackcell.Lifecycle.Terminal.{
  run_succeeded, run_failed, run_canceled, run_reconciliation_required,
}
use blackcell.Lifecycle.Fold.{
  RunLifecycleState, Dependencies, start, dispatch, fold_event, fold_events, fold_public,
  fold_stream, fold_run_lifecycle,
}
use blackcell.Lifecycle.Step.{Step, claims, works, dispatches, ends, cleans, stands}
use blackcell.Lifecycle.Step.Refines.{fold_event-Step}
use blackcell.Lifecycle.Run.{fold_public_induction}

-- the kinds of event that may not follow a wish to cancel
abbrev pub goes_on : Kind → Bool
goes_on Kind.node_claimed = true
goes_on Kind.node_provider_dispatch_started = true
goes_on Kind.node_succeeded = true
goes_on Kind.node_requeued = true
goes_on Kind.run_cancel_requested = true
goes_on Kind.run_succeeded = true
goes_on _ = false

-- Each of these events is refused in a state that has the wish to cancel.
pub fold_event-goes_on :
    (host : Host) (run_id : String) (deps : Dependencies) (s : Fold) (event : EventEnvelope)
    (kind : Kind)
    → s.cancellation_requested ≡ true
    → goes_on kind ≡ true
    → fold_event host run_id deps s event kind ≡ failure
unfolding fold_event dispatch claimed provider_dispatch_started node_succeeded node_requeued
    cancel_requested run_succeeded
fold_event-goes_on host run_id deps s event kind asked on = ground arith

-- how many claims there are
unfoldable pub claims_in : List (EventEnvelope × Kind) → ℕ
claims_in [] = 0
claims_in ((event, Kind.node_claimed) ∷ events) = suc (claims_in events)
claims_in (_ ∷ events) = claims_in events

module _ (host : Host) (run_id : String) (deps : Dependencies) where
  abbrev increment : Kind → ℕ
  increment Kind.node_claimed = 1
  increment _ = 0

  dispatch-fence :
      (s t : Fold) (event : EventEnvelope) (kind : Kind)
      → dispatch host run_id deps kind s event ≡ ok t
      → t.maximum_fence ≡ s.maximum_fence + increment kind
  unfolding dispatch claimed worktree_prepared provider_dispatch_started cancel_requested
      node_succeeded node_failed node_requeued node_canceled node_reconciliation_required
      run_succeeded run_failed run_canceled run_reconciliation_required cleanup_requested cleaned
      cleanup_failed
  dispatch-fence s t event Kind.run_queued h = ground arith
  dispatch-fence s t event Kind.node_claimed h = ground arith
  dispatch-fence s t event Kind.node_worktree_prepared h = ground arith
  dispatch-fence s t event Kind.node_provider_dispatch_started h = ground arith
  dispatch-fence s t event Kind.run_cancel_requested h = ground arith
  dispatch-fence s t event Kind.node_succeeded h = ground arith
  dispatch-fence s t event Kind.node_failed h = ground arith
  dispatch-fence s t event Kind.node_requeued h = ground arith
  dispatch-fence s t event Kind.node_canceled h = ground arith
  dispatch-fence s t event Kind.node_reconciliation_required h = ground arith
  dispatch-fence s t event Kind.node_worktree_cleanup_requested h = ground arith
  dispatch-fence s t event Kind.node_worktree_cleaned h = ground arith
  dispatch-fence s t event Kind.node_worktree_cleanup_failed h = ground arith
  dispatch-fence s t event Kind.run_succeeded h = ground arith
  dispatch-fence s t event Kind.run_failed h = ground arith
  dispatch-fence s t event Kind.run_canceled h = ground arith
  dispatch-fence s t event Kind.run_reconciliation_required h = ground arith

  fold_event-fence :
      (s t : Fold) (event : EventEnvelope) (kind : Kind)
      → fold_event host run_id deps s event kind ≡ ok t
      → t.maximum_fence ≡ s.maximum_fence + increment kind
  unfolding fold_event
  fold_event-fence s t event kind h = dispatch-fence s t event kind (ground arith)

  claims_in-increment :
      (event : EventEnvelope) (kind : Kind) (events : List (EventEnvelope × Kind))
      → claims_in ((event, kind) ∷ events) ≡ increment kind + claims_in events
  unfolding claims_in
  claims_in-increment event kind events = ground arith

  fold_events-fence :
      (s t : Fold) (events : List (EventEnvelope × Kind))
      → fold_events host run_id deps s events ≡ ok t
      → t.maximum_fence ≡ s.maximum_fence + claims_in events
  unfolding fold_events claims_in
  fold_events-fence s t [] h = ground arith
  fold_events-fence s t ((event, kind) ∷ events) h =
      elim (Outcome-cases (fold_event host run_id deps s event kind)) [
        | inr bad ↦ ground arith
        | inl (next, e) ↦ ground (
          arith,
          claims_in-increment event kind events,
          fold_event-fence s next event kind e,
          fold_events-fence next t events,
        )
      ]

  -- the lease carries the highest token
  abbrev carries : Fold → Bool
  carries s = elim s.active [ none ↦ true | some a ↦ a.fencing_token == s.maximum_fence ]

  Step-carries :
      {event : EventEnvelope} (s t : Fold)
      → Step deps event s t
      → carries s ≡ true
      → carries t ≡ true
  Step-carries s t (claims node c lease h) i = ground (arith, h.held, h.fence, h.highest)
  Step-carries s t (works old new change h) i = ground (arith, h.held, h.holds, h.fence, h.highest)
  Step-carries s t (dispatches old new h) i = ground (arith, h.held, h.holds, h.fence, h.highest)
  Step-carries s t (ends a change h) i = ground (arith, h.released)
  Step-carries s t (cleans node c h) i = ground (arith, h.still)
  Step-carries s t (stands (active, nodes, highest)) i = ground arith

  fold_event-carries :
      (s t : Fold) (event : EventEnvelope) (kind : Kind)
      → fold_event host run_id deps s event kind ≡ ok t
      → carries s ≡ true
      → carries t ≡ true
  fold_event-carries s t event kind h =
      Step-carries s t (fold_event-Step host run_id deps s event kind h)

  fold_public-fence :
      (queued : EventEnvelope) (kind : Kind) (rest : List (EventEnvelope × Kind)) (s : Fold)
      → fold_public host run_id deps queued kind rest ≡ ok s
      → s.maximum_fence ≡ claims_in ((queued, kind) ∷ rest)
  unfolding fold_public claims_in
  fold_public-fence queued kind rest s h =
      ground (arith, fold_events-fence (start host run_id deps) s rest)

  fold_stream-fence :
      (event : EventEnvelope) (events : List EventEnvelope) (public : List (EventEnvelope × Kind))
      (r : RunLifecycleState) (a : ActiveLease)
      → fold_stream host run_id deps event events public ≡ ok r
      → r.active_lease ≡ some a
      → a.fencing_token ≡ claims_in public
  unfolding fold_stream
  fold_stream-fence event events [] r a h held = ground arith
  fold_stream-fence event events ((queued, kind) ∷ rest) r a h held =
      elim (Outcome-cases (fold_public host run_id deps queued kind rest)) [
        | inr bad ↦ ground arith
        | inl (s, e) ↦
            let (carried, settled) =
              fold_public_induction host run_id deps (λ s. carries s ≡ true) fold_event-carries
                queued kind rest s e refl in
            ground (arith, fold_public-fence queued kind rest s e, carried)
      ]

-- The fencing token of the active lease is the number of claims in the stream.
pub fold_run_lifecycle-fence :
    (host : Host) (run_id : String) (deps : Dependencies) (events : List EventEnvelope)
    (r : RunLifecycleState) (a : ActiveLease)
    → fold_run_lifecycle host run_id deps events ≡ ok r
    → r.active_lease ≡ some a
    → a.fencing_token ≡ claims_in (public_events events)
unfolding fold_run_lifecycle
fold_run_lifecycle-fence host run_id deps [] r a h held = ground arith
fold_run_lifecycle-fence host run_id deps (event ∷ events) r a h held =
    fold_stream-fence host run_id deps event events (public_events (event ∷ events)) r a
      (ground arith) held

-- ===== src/Lifecycle/Run.antt =====
-- The whole fold: what its result shows of the nodes and the lease.
use mathlib.Core.Path.{subst}
use blackcell.Prelude.{
  ◌≡◌, String, true, false, some, List, [], ◌∷◌, map, arith, ok, Outcome-cases, inl, inr,
}
use blackcell.Host.{Host}
use blackcell.Kernel.Event.{EventEnvelope}
use blackcell.Lifecycle.State.{Fold, Node, NodeStatus, new_node, find_node, is_pending}
use blackcell.Lifecycle.Kind.{Kind, public_events}
use blackcell.Lifecycle.Fold.{
  RunLifecycleState, Dependencies, start, fold_event, fold_events, fold_public, fold_stream,
  fold_run_lifecycle, is_settled,
}
use blackcell.Lifecycle.Step.{is_working}
use blackcell.Lifecycle.Step.Refines.{fold_event-Step}
use blackcell.Lifecycle.Step.Sound.{IsSound, IsOrdered, IsLone, Step-IsSound, is_ready, holds}

module _ (host : Host) (run_id : String) (deps : Dependencies) where
  -- the result shows the state `s`, which is settled and which `P` holds of
  pub record Shows (P : Fold → Type 0) (r : RunLifecycleState) (s : Fold) : Type 0 where
    pub holds_of : P s
    pub settled : is_settled s ≡ true
    pub nodes : r.nodes ≡ s.nodes
    pub active : r.active_lease ≡ s.active
    pub status : r.status ≡ s.status
    pub cancellation : r.cancellation_requested ≡ s.cancellation_requested

  module _ (P : Fold → Type 0)
      (step : (s t : Fold) (event : EventEnvelope) (kind : Kind)
        → fold_event host run_id deps s event kind ≡ ok t
        → P s
        → P t) where
    pub fold_events_induction :
        (s t : Fold) (events : List (EventEnvelope × Kind))
        → fold_events host run_id deps s events ≡ ok t
        → P s
        → P t
    unfolding fold_events
    fold_events_induction s t [] h p = subst P (ground arith) p
    fold_events_induction s t ((event, kind) ∷ events) h p =
        elim (Outcome-cases (fold_event host run_id deps s event kind)) [
          | inr bad ↦ ground arith
          | inl (next, e) ↦
              fold_events_induction next t events (ground arith) (step s next event kind e p)
        ]

    pub fold_public_induction :
        (queued : EventEnvelope) (kind : Kind) (rest : List (EventEnvelope × Kind)) (t : Fold)
        → fold_public host run_id deps queued kind rest ≡ ok t
        → P (start host run_id deps)
        → P t × (is_settled t ≡ true)
    unfolding fold_public
    fold_public_induction queued kind rest t h p =
        (fold_events_induction (start host run_id deps) t rest (ground arith) p, ground arith)

    fold_stream_induction :
        (event : EventEnvelope) (events : List EventEnvelope) (public : List (EventEnvelope × Kind))
        (r : RunLifecycleState)
        → fold_stream host run_id deps event events public ≡ ok r
        → P (start host run_id deps)
        → (s : Fold) × Shows P r s
    unfolding fold_stream
    fold_stream_induction event events [] r h p = ground arith
    fold_stream_induction event events ((queued, kind) ∷ rest) r h p =
        elim (Outcome-cases (fold_public host run_id deps queued kind rest)) [
          | inr bad ↦ ground arith
          | inl (s, e) ↦
              let (holds_of, settled) = fold_public_induction queued kind rest s e p in
              (
                s,
                record {
                  holds_of = holds_of;
                  settled = settled;
                  nodes = ground arith;
                  active = ground arith;
                  status = ground arith;
                  cancellation = ground arith;
                },
              )
        ]

    pub fold_run_lifecycle_induction :
        (events : List EventEnvelope) (r : RunLifecycleState)
        → fold_run_lifecycle host run_id deps events ≡ ok r
        → P (start host run_id deps)
        → (s : Fold) × Shows P r s
    unfolding fold_run_lifecycle
    fold_run_lifecycle_induction [] r h p = ground arith
    fold_run_lifecycle_induction (event ∷ events) r h p =
        fold_stream_induction event events (public_events (event ∷ events)) r (ground arith) p

  -- Before the first event every node is pending.
  start-pending :
      (k : String) (names : List String) (node : Node)
      → find_node k (map new_node names) ≡ some node
      → node.status ≡ NodeStatus.pending
  unfolding find_node
  start-pending k [] node h = ground arith
  start-pending k (name ∷ names) node h = ground (arith, start-pending k names node)

  start-IsSound : IsSound deps (start host run_id deps)
  unfolding IsOrdered IsLone
  start-IsSound = record {
    ordered = λ k node at left. ground (arith, start-pending k _ node at);
    lone = λ k node at. ground (arith, start-pending k _ node at);
  }

  fold_run_lifecycle-IsSound :
      (events : List EventEnvelope) (r : RunLifecycleState)
      → fold_run_lifecycle host run_id deps events ≡ ok r
      → (s : Fold) × Shows (IsSound deps) r s
  fold_run_lifecycle-IsSound events r h =
      fold_run_lifecycle_induction (IsSound deps)
        (λ s t event kind e i.
          Step-IsSound deps s t (fold_event-Step host run_id deps s event kind e) i)
        events r h start-IsSound

-- In the state of a run that the fold accepts, a node that has left `pending` has all its dependencies
-- behind it: each of them has succeeded.
pub fold_run_lifecycle-ordered :
    (host : Host) (run_id : String) (deps : Dependencies) (events : List EventEnvelope)
    (r : RunLifecycleState) (k : String) (node : Node)
    → fold_run_lifecycle host run_id deps events ≡ ok r
    → find_node k r.nodes ≡ some node
    → is_pending node.status ≡ false
    → is_ready deps r.nodes k ≡ true
unfolding IsOrdered
fold_run_lifecycle-ordered host run_id deps events r k node h found left =
    let (s, shown) = fold_run_lifecycle-IsSound host run_id deps events r h in
    let ordered : IsOrdered deps r.nodes = rw shown.nodes shown.holds_of.ordered in
    ordered k node found left

-- In the state of a run that the fold accepts, a node is claimed or running exactly if the active lease
-- names it: at most one node is, and none without a lease.
pub fold_run_lifecycle-lone :
    (host : Host) (run_id : String) (deps : Dependencies) (events : List EventEnvelope)
    (r : RunLifecycleState) (k : String) (node : Node)
    → fold_run_lifecycle host run_id deps events ≡ ok r
    → find_node k r.nodes ≡ some node
    → is_working node.status ≡ holds r.active_lease k
unfolding IsLone
fold_run_lifecycle-lone host run_id deps events r k node h found =
    let (s, shown) = fold_run_lifecycle-IsSound host run_id deps events r h in
    let lone : IsLone r.active_lease r.nodes = rw (shown.nodes, shown.active) shown.holds_of.lone in
    lone k node found

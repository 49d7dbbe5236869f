-- ===== src/Lifecycle/Step.antt =====
-- What one event may do to the fold's nodes and its lease: the moves of a run, with none of the
-- payloads' details.
pub mod Ended
pub mod Held
pub mod Begun
pub mod Refines
pub mod Sound
use blackcell.Prelude.{
  ℕ, suc, ◌+◌, ◌≡◌, String, Bool, true, false, Option, none, some, List, all, ◌||◌,
}
use blackcell.Kernel.Event.{EventEnvelope}
use blackcell.Lifecycle.State.{
  Fold, Node, NodeStatus, ActiveLease, find_node, put_node, update_node, is_pending, is_succeeded,
}
use blackcell.Lifecycle.Lease.{dependencies_of, has_succeeded}
use blackcell.Lifecycle.Fold.{Dependencies}

-- a worker is at the node
abbrev pub is_working : NodeStatus → Bool
is_working NodeStatus.claimed = true
is_working NodeStatus.running = true
is_working _ = false

-- `claimed` is what the pending node becomes, and `lease` is the worker's
pub record Claims (deps : Dependencies) (s t : Fold) (node claimed : Node) (lease : ActiveLease)
    : Type 0 where
  pub idle : s.active ≡ none
  pub wanted : s.cancellation_requested ≡ false
  pub found : find_node claimed.node_id s.nodes ≡ some node
  pub waiting : is_pending node.status ≡ true
  pub ready : all (has_succeeded s.nodes) (dependencies_of claimed.node_id deps) ≡ true
  pub nodes : t.nodes ≡ put_node claimed s.nodes
  pub status : claimed.status ≡ NodeStatus.claimed
  pub attempts : claimed.attempts ≡ node.attempts + 1
  pub held : t.active ≡ some lease
  pub named : lease.node_id ≡ claimed.node_id
  pub fence : lease.fencing_token ≡ s.maximum_fence + 1
  pub fresh : lease.provider_dispatch_event_id ≡ none
  pub highest : t.maximum_fence ≡ s.maximum_fence + 1

-- the lease goes on, and its node with it
pub record Works (s t : Fold) (old new : ActiveLease) (change : Node → Node) : Type 0 where
  pub held : s.active ≡ some old
  pub holds : t.active ≡ some new
  pub named : new.node_id ≡ old.node_id
  pub fence : new.fencing_token ≡ old.fencing_token
  pub nodes : t.nodes ≡ update_node s.nodes old.node_id change
  pub recorded : new.provider_dispatch_event_id ≡ old.provider_dispatch_event_id
  pub keeps : (n : Node) → (change n).node_id ≡ n.node_id
  pub working : (n : Node) → is_working n.status ≡ true → is_working (change n).status ≡ true
  pub highest : t.maximum_fence ≡ s.maximum_fence

-- the lease goes on at an unchanged node, once only: the event of the provider's dispatch is recorded in
-- it, where none was
pub record Dispatches (event : EventEnvelope) (s t : Fold) (old new : ActiveLease) : Type 0 where
  pub held : s.active ≡ some old
  pub holds : t.active ≡ some new
  pub named : new.node_id ≡ old.node_id
  pub fence : new.fencing_token ≡ old.fencing_token
  pub first : old.provider_dispatch_event_id ≡ none
  pub recorded : new.provider_dispatch_event_id ≡ some event.event_id
  pub nodes : t.nodes ≡ s.nodes
  pub highest : t.maximum_fence ≡ s.maximum_fence

-- the lease ends, and nobody works at its node
pub record Ends (s t : Fold) (lease : ActiveLease) (change : Node → Node) : Type 0 where
  pub held : s.active ≡ some lease
  pub released : t.active ≡ none
  pub nodes : t.nodes ≡ update_node s.nodes lease.node_id change
  pub keeps : (n : Node) → (change n).node_id ≡ n.node_id
  pub resting : (n : Node) → is_working (change n).status ≡ false
  pub highest : t.maximum_fence ≡ s.maximum_fence

-- the worktree of a node that has succeeded is cleaned up
pub record Cleans (s t : Fold) (node cleaned : Node) : Type 0 where
  pub idle : s.active ≡ none
  pub still : t.active ≡ none
  pub found : find_node cleaned.node_id s.nodes ≡ some node
  pub done : is_succeeded node.status ≡ true
  pub nodes : t.nodes ≡ put_node cleaned s.nodes
  pub status : cleaned.status ≡ node.status
  pub highest : t.maximum_fence ≡ s.maximum_fence

-- nodes and lease are as they were
abbrev pub Stands : Fold → Fold → Type 0
Stands s t = (t.active ≡ s.active) × (t.nodes ≡ s.nodes) × (t.maximum_fence ≡ s.maximum_fence)

pub data Step (deps : Dependencies) (event : EventEnvelope) (s t : Fold) : Type 0 where
  claims :
      (node claimed : Node) (lease : ActiveLease)
      → Claims deps s t node claimed lease
      → Step deps event s t
  works :
      (old new : ActiveLease) (change : Node → Node)
      → Works s t old new change
      → Step deps event s t
  dispatches : (old new : ActiveLease) → Dispatches event s t old new → Step deps event s t
  ends : (lease : ActiveLease) (change : Node → Node) → Ends s t lease change → Step deps event s t
  cleans : (node cleaned : Node) → Cleans s t node cleaned → Step deps event s t
  stands : Stands s t → Step deps event s t

module _ {deps : Dependencies} {event : EventEnvelope} {s t : Fold} where
  -- A lease that ends is a move, given the change at its node.
  pub rests :
      {a : ActiveLease} (held : s.active ≡ some a) (change : Node → Node)
      → ((n : Node) → (change n).node_id ≡ n.node_id)
      → ((n : Node) → is_working (change n).status ≡ false)
      → (t.active ≡ none)
        × (t.nodes ≡ update_node s.nodes a.node_id change)
        × (t.maximum_fence ≡ s.maximum_fence)
      → Step deps event s t
  rests {a} held change keeps resting (released, nodes, highest) = ends a change (record {
    held = held;
    released = released;
    nodes = nodes;
    keeps = keeps;
    resting = resting;
    highest = highest;
  })

  -- So is a node's cleaned worktree, given the node that `cleanup_node` has accepted.
  pub tidies :
      (node cleaned : Node)
      → (s.active ≡ none)
        × (find_node cleaned.node_id s.nodes ≡ some node)
        × (is_succeeded node.status ≡ true)
      → cleaned.status ≡ node.status
      → (t.active ≡ none)
        × (t.nodes ≡ put_node cleaned s.nodes)
        × (t.maximum_fence ≡ s.maximum_fence)
      → Step deps event s t
  tidies node cleaned (idle, found, done) status (still, nodes, highest) =
      cleans node cleaned (record {
        idle = idle;
        still = still;
        found = found;
        done = done;
        nodes = nodes;
        status = status;
        highest = highest;
      })

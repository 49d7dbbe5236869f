-- ===== src/Lifecycle/Step/Sound.antt =====
-- An invariant of the nodes and the lease under the moves.
use blackcell.Prelude.{
  ◌∙◌, ◌≡◌, refl, String, Bool, true, false, Option, none, some, List, [], ◌∷◌, all, str_eq, eq_iff,
  eq_refl, arith, inl, inr, Option-cases,
}
use blackcell.Kernel.Event.{EventEnvelope}
use blackcell.Lifecycle.State.{
  Fold, Node, ActiveLease, find_node, put_node, update_node, is_pending, is_succeeded,
}
use blackcell.Lifecycle.Lease.{dependencies_of, has_succeeded}
use blackcell.Lifecycle.Fold.{Dependencies}
use blackcell.Lifecycle.Nodes.{
  find_node-id, find_node-put_self, find_node-put_other, update_node-missing, update_node-found,
}
use blackcell.Lifecycle.Step.{Step, claims, works, dispatches, ends, cleans, stands, is_working}

-- every dependency of `k` has succeeded
abbrev pub is_ready : Dependencies → List Node → String → Bool
is_ready deps nodes k = all (has_succeeded nodes) (dependencies_of k deps)

-- the lease is for the node `k`
abbrev pub holds : Option ActiveLease → String → Bool
holds none k = false
holds (some a) k = str_eq a.node_id k

-- a node that has left `pending` has all its dependencies behind it
unfoldable pub IsOrdered : Dependencies → List Node → Type 0
IsOrdered deps nodes =
    (k : String) (node : Node)
    → find_node k nodes ≡ some node
    → is_pending node.status ≡ false
    → is_ready deps nodes k ≡ true

-- the lease's node is the only one that is worked at
unfoldable pub IsLone : Option ActiveLease → List Node → Type 0
IsLone active nodes =
    (k : String) (node : Node)
    → find_node k nodes ≡ some node
    → is_working node.status ≡ holds active k

all_mono :
    (p q : String → Bool) (ks : List String)
    → ((k : String) → p k ≡ true → q k ≡ true)
    → all p ks ≡ true
    → all q ks ≡ true
all_mono p q [] f h = refl
all_mono p q (k ∷ ks) f h = ground (arith, f k, all_mono p q ks f)

-- a node that has succeeded has so after an assignment that leaves it succeeded
has_succeeded-put :
    (c old : Node) (nodes : List Node)
    → find_node c.node_id nodes ≡ some old
    → (is_succeeded old.status ≡ true → is_succeeded c.status ≡ true)
    → (k : String) → has_succeeded nodes k ≡ true
    → has_succeeded (put_node c nodes) k ≡ true
unfolding has_succeeded
has_succeeded-put c old nodes found keeps k h =
    ground (
      arith,
      eq_iff c.node_id k,
      find_node-put_self c nodes old found,
      find_node-put_other k c nodes,
    )

put_node-IsOrdered :
    (deps : Dependencies) (c old : Node) (nodes : List Node)
    → find_node c.node_id nodes ≡ some old
    → (is_succeeded old.status ≡ true → is_succeeded c.status ≡ true)
    → (is_pending c.status ≡ false → is_ready deps nodes c.node_id ≡ true)
    → IsOrdered deps nodes
    → IsOrdered deps (put_node c nodes)
unfolding IsOrdered
put_node-IsOrdered deps c old nodes found keeps ready h k node at done =
    all_mono (has_succeeded nodes) (has_succeeded (put_node c nodes)) (dependencies_of k deps)
      (has_succeeded-put c old nodes found keeps)
      (ground (
        arith,
        eq_iff c.node_id k,
        find_node-put_self c nodes old found,
        find_node-put_other k c nodes,
        h k node,
      ))

put_node-IsLone :
    (s t : Option ActiveLease) (c old : Node) (nodes : List Node)
    → find_node c.node_id nodes ≡ some old
    → is_working c.status ≡ holds t c.node_id
    → ((k : String) → str_eq c.node_id k ≡ false → holds t k ≡ holds s k)
    → IsLone s nodes
    → IsLone t (put_node c nodes)
unfolding IsLone
put_node-IsLone s t c old nodes found own other h k node at = ground (
  arith,
  eq_iff c.node_id k,
  find_node-put_self c nodes old found,
  find_node-put_other k c nodes,
  h k node,
  other k,
)

module _ (a : ActiveLease) (nodes : List Node) (change : Node → Node)
    (keeps : (n : Node) → (change n).node_id ≡ n.node_id) where
  -- the leased node keeps its name
  leased_name :
      {old : Node} (found : find_node a.node_id nodes ≡ some old) → (change old).node_id ≡ a.node_id
  leased_name {old} found = keeps old ∙ find_node-id a.node_id nodes old found

  update_node-IsOrdered :
      (deps : Dependencies)
      → IsOrdered deps nodes
      → IsLone (some a) nodes
      → IsOrdered deps (update_node nodes a.node_id change)
  unfolding IsOrdered IsLone
  update_node-IsOrdered deps h lone = elim (Option-cases (find_node a.node_id nodes)) [
    | inl missing ↦ rw (update_node-missing nodes a.node_id change missing) h
    | inr (old, found) ↦ rw (update_node-found nodes a.node_id change found) (
        put_node-IsOrdered deps (change old) old nodes (rw (leased_name found) found)
          (ground (arith, lone a.node_id old, eq_refl a.node_id))
          (rw (leased_name found)
            (ground (arith, h a.node_id old, lone a.node_id old, eq_refl a.node_id)))
          h)
  ]

  update_node-IsLone :
      (t : Option ActiveLease)
      → ((n : Node) → is_working n.status ≡ true → is_working (change n).status ≡ holds t a.node_id)
      → ((k : String) → str_eq a.node_id k ≡ false → holds t k ≡ false)
      → IsLone (some a) nodes
      → IsLone t (update_node nodes a.node_id change)
  unfolding IsLone
  update_node-IsLone t own other lone = elim (Option-cases (find_node a.node_id nodes)) [
    | inl missing ↦
        rw (update_node-missing nodes a.node_id change missing)
          (λ k node at. ground (arith, lone k node, eq_iff a.node_id k, other k))
    | inr (old, found) ↦ rw (update_node-found nodes a.node_id change found) (
        put_node-IsLone (some a) t (change old) old nodes (rw (leased_name found) found)
          (rw (leased_name found) (ground (arith, own old, lone a.node_id old, eq_refl a.node_id)))
          (rw (leased_name found) (λ k no. ground (arith, other k))) lone)
  ]

pub record IsSound (deps : Dependencies) (s : Fold) : Type 0 where
  pub ordered : IsOrdered deps s.nodes
  pub lone : IsLone s.active s.nodes

-- the lease may change, as long as its node does not
renewed-IsLone :
    (old new : ActiveLease) (nodes : List Node)
    → new.node_id ≡ old.node_id
    → IsLone (some old) nodes
    → IsLone (some new) nodes
unfolding IsLone
renewed-IsLone old new nodes same lone k node at = rw same (lone k node at)

-- a node that has succeeded is not pending
done_ready :
    (deps : Dependencies) (nodes : List Node) (k : String) (node : Node)
    → find_node k nodes ≡ some node
    → is_succeeded node.status ≡ true
    → IsOrdered deps nodes
    → is_ready deps nodes k ≡ true
unfolding IsOrdered
done_ready deps nodes k node found done h = h k node found (ground arith)

pub Step-IsSound :
    (deps : Dependencies) {event : EventEnvelope} (s t : Fold)
    → Step deps event s t
    → IsSound deps s
    → IsSound deps t
Step-IsSound deps s t (claims node c lease h) i = record {
  ordered = rw h.nodes (
      put_node-IsOrdered deps c node s.nodes h.found (ground (arith, h.waiting)) (λ _. h.ready)
        i.ordered);
  lone =
      rw (h.nodes, h.held)
        (put_node-IsLone none (some lease) c node s.nodes h.found
          (ground (arith, h.status, h.named, eq_refl c.node_id)) (λ k no. ground (arith, h.named))
          (rw (← h.idle) i.lone));
}
Step-IsSound deps s t (works old new change h) i = record {
  ordered =
      rw h.nodes
        (update_node-IsOrdered old s.nodes change h.keeps deps i.ordered (rw (← h.held) i.lone));
  lone =
      rw (h.nodes, h.holds)
        (update_node-IsLone old s.nodes change h.keeps (some new)
          (λ n w. ground (arith, h.working n, h.named, eq_refl old.node_id))
          (λ k no. ground (arith, h.named)) (rw (← h.held) i.lone));
}
Step-IsSound deps s t (dispatches old new h) i = record {
  ordered = rw h.nodes i.ordered;
  lone = rw (h.nodes, h.holds) (renewed-IsLone old new s.nodes h.named (rw (← h.held) i.lone));
}
Step-IsSound deps s t (ends a change h) i = record {
  ordered =
      rw h.nodes
        (update_node-IsOrdered a s.nodes change h.keeps deps i.ordered (rw (← h.held) i.lone));
  lone =
      rw (h.nodes, h.released)
        (update_node-IsLone a s.nodes change h.keeps none (λ n w. h.resting n) (λ k no. refl)
          (rw (← h.held) i.lone));
}
Step-IsSound deps s t (cleans node c h) i = record {
  ordered = rw h.nodes (
      put_node-IsOrdered deps c node s.nodes h.found (λ d. rw h.status d)
        (λ _. done_ready deps s.nodes c.node_id node h.found h.done i.ordered) i.ordered);
  lone =
      rw (h.nodes, h.still)
        (put_node-IsLone none none c node s.nodes h.found (ground (arith, h.status, h.done))
          (λ k no. refl) (rw (← h.idle) i.lone));
}
Step-IsSound deps s t (stands (active, nodes, highest)) i = record {
  ordered = rw nodes i.ordered;
  lone = rw (nodes, active) i.lone;
}

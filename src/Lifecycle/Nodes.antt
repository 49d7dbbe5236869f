-- ===== src/Lifecycle/Nodes.antt =====
-- The dictionary of nodes of the fold: what a lookup sees after an assignment.
use blackcell.Prelude.{
  ◌≡◌, refl, String, Bool, true, false, none, some, List, [], ◌∷◌, eq_iff, eq_refl, str_eq, arith,
  all, ok,
}
use blackcell.Json.{Json, text, Fields, get}
use blackcell.Lifecycle.State.{Node, find_node, put_node, update_node}
use blackcell.Lifecycle.Guards.{node_of, node_named}

pub find_node-id :
    (k : String) (nodes : List Node) (node : Node)
    → find_node k nodes ≡ some node
    → node.node_id ≡ k
unfolding find_node
find_node-id k [] node h = ground arith
find_node-id k (old ∷ nodes) node h =
    ground (arith, eq_iff old.node_id k, find_node-id k nodes node)

named_lem :
    (v : Json) (nodes : List Node) (node : Node)
    → node_named v nodes ≡ ok node
    → find_node node.node_id nodes ≡ some node
named_lem (text k) nodes node h = ground (arith, find_node-id k nodes node)
named_lem v nodes node h = ground arith

-- `_node` finds a node under its own name.
pub node_of_lem :
    (payload : Fields) (nodes : List Node) (node : Node)
    → node_of payload nodes ≡ ok node
    → find_node node.node_id nodes ≡ some node
unfolding node_of
node_of_lem payload nodes node h = named_lem (get "node_id" payload) nodes node h

pub find_node-put_self :
    (node : Node) (nodes : List Node) (old : Node)
    → find_node node.node_id nodes ≡ some old
    → find_node node.node_id (put_node node nodes) ≡ some node
unfolding find_node put_node
find_node-put_self node [] old h = ground arith
find_node-put_self node (other ∷ nodes) old h =
    ground (arith, eq_refl node.node_id, find_node-put_self node nodes old)

pub find_node-put_other :
    (k : String) (node : Node) (nodes : List Node)
    → str_eq node.node_id k ≡ false
    → find_node k (put_node node nodes) ≡ find_node k nodes
unfolding find_node put_node
find_node-put_other k node [] h = refl
find_node-put_other k node (other ∷ nodes) h =
    ground (arith, eq_iff other.node_id node.node_id, find_node-put_other k node nodes h)

pub all-put :
    (p : Node → Bool) (node : Node) (nodes : List Node)
    → all p nodes ≡ true
    → p node ≡ true
    → all p (put_node node nodes) ≡ true
unfolding put_node
all-put p node [] h q = refl
all-put p node (other ∷ nodes) h q = ground (arith, all-put p node nodes)

module _ (nodes : List Node) (k : String) (change : Node → Node) where
  pub update_node-missing : find_node k nodes ≡ none → update_node nodes k change ≡ nodes
  unfolding update_node
  update_node-missing h = rw (h, update_node) refl

  pub update_node-found :
      {old : Node}
      → find_node k nodes ≡ some old
      → update_node nodes k change ≡ put_node (change old) nodes
  unfolding update_node
  update_node-found h = rw (h, update_node) refl

-- ===== src/Plan/Tests.antt =====
-- The theorems on the order of tasks at a plan of three.
use blackcell.Prelude.{◌≡◌, ◌≢◌, refl, true, [], ◌∷◌, ok, err}
use blackcell.Lifecycle.Lease.{dependencies_of}
use blackcell.Lifecycle.Fold.{Dependencies, contains, names, sorted, insert_name}
use blackcell.Plan.{
  cyclic_plan, no_rounds_left, keep, is_ready, ready, without, resolve, topological_order,
}
use blackcell.Plan.Order.{respects, topological_order-respects}
use blackcell.Plan.Ends.{topological_order_enough, topological_order-contains}

abbrev deps : Dependencies
deps = ("test", "build" ∷ "lint" ∷ []) ∷ ("lint", []) ∷ ("build", []) ∷ []

ordered : topological_order deps ≡ ok ("build" ∷ "lint" ∷ "test" ∷ [])
unfolding topological_order resolve ready keep is_ready without sorted insert_name dependencies_of
ordered = refl

cyclic : topological_order (("a", "b" ∷ []) ∷ ("b", "a" ∷ []) ∷ []) ≡ err cyclic_plan
unfolding topological_order resolve ready keep is_ready without sorted insert_name dependencies_of
cyclic = refl

topological_order-respects_example : respects deps [] ("build" ∷ "lint" ∷ "test" ∷ []) ≡ true
topological_order-respects_example =
    topological_order-respects deps ("build" ∷ "lint" ∷ "test" ∷ []) ordered

topological_order_enough_example : topological_order deps ≢ err no_rounds_left
topological_order_enough_example = topological_order_enough deps

topological_order-contains_example :
    contains ("build" ∷ "lint" ∷ "test" ∷ []) "lint" ≡ contains (names deps) "lint"
topological_order-contains_example =
    topological_order-contains deps ("build" ∷ "lint" ∷ "test" ∷ []) "lint" ordered

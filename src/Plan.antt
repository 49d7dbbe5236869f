-- ===== src/Plan.antt =====
-- orchestration/execution_plan.py: the order in which a plan's tasks can run. Of a task only its name
-- and its set of dependencies are read here.
use blackcell.Prelude.{
  ℕ, zero, suc, String, Bool, true, false, List, [], ◌∷◌, ◌++◌, not, all, length, Outcome, ok, err,
  raise_if, if◌then◌else◌,
}
use blackcell.Lifecycle.Lease.{dependencies_of}
use blackcell.Lifecycle.Fold.{Dependencies, contains, names, sorted}
pub mod Texts
pub mod Specs
pub mod Whole
pub mod Payload
pub mod Reading
pub mod Compile
pub mod Policy
pub mod Planning
pub mod Order
pub mod Ends
pub mod Tests
pub mod Samples
pub mod Runs
pub mod Examples

-- The codes of `PlanContractError`. The loop has as many rounds as there are tasks, and
-- `no_rounds_left` would say that they were too few; `key_error` is Python's exception of that name.
pub data PlanError : Type 0 where
  invalid_execution_contract plan_path_outside_goal plan_check_outside_goal : PlanError
  plan_check_coverage_incomplete invalid_plan_lineage parallel_writer_plan : PlanError
  cyclic_plan no_rounds_left key_error : PlanError

abbrev pub Result {ℓ} : Type ℓ → Type ℓ
Result A = Outcome PlanError A

-- `if test: raise PlanContractError()`
abbrev pub refuse : Bool → Result (Unit {0})
refuse test = raise_if test invalid_execution_contract

-- `x for x in xs if p(x)`
unfoldable pub keep : (String → Bool) → List String → List String
keep p [] = []
keep p (k ∷ ks) = let rest = keep p ks in if p k then k ∷ rest else rest

-- `dependencies[item].issubset(resolved)`
unfoldable pub is_ready : Dependencies → List String → String → Bool
is_ready deps resolved k = all (contains resolved) (dependencies_of k deps)

-- `sorted(item for item in pending if …)`
unfoldable pub ready : Dependencies → List String → List String → List String
unfolding keep is_ready
ready deps resolved pending = sorted (keep (is_ready deps resolved) pending)

-- `pending.difference_update(done)`
unfoldable pub without : List String → List String → List String
unfolding keep
without pending done = keep (λ k. not (contains done k)) pending

-- the `while pending` loop
unfoldable pub resolve :
    ℕ → Dependencies → List String → List String → Outcome PlanError (List String)
resolve rounds deps resolved [] = ok resolved
resolve zero deps resolved (k ∷ ks) = err no_rounds_left
resolve (suc rounds) deps resolved (k ∷ ks) = elim (ready deps resolved (k ∷ ks)) [
  | [] ↦ err cyclic_plan
  | j ∷ js ↦ resolve rounds deps (resolved ++ j ∷ js) (without (k ∷ ks) (j ∷ js))
]

-- `_topological_order`
unfoldable pub topological_order : Dependencies → Outcome PlanError (List String)
unfolding resolve
topological_order deps = resolve (length (names deps)) deps [] (names deps)

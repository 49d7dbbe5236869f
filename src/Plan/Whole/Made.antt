-- ===== src/Plan/Whole/Made.antt =====
-- What the constructor of a plan has found when it returns.
use blackcell.Prelude.{◌≡◌, String, true, List, arith, ok, Outcome-cases, Bool-cases, inl, inr}
use blackcell.Plan.{topological_order}
use blackcell.Plan.Texts.{identifier, is_identifier}
use blackcell.Plan.Whole.{
  Plan, new_plan, dependencies, are_known, check_revision, sorted_tasks, validate_writer_order,
}

pub new_plan-made :
    (p : Plan) {made : Plan}
    → new_plan p ≡ ok made
    → (made ≡ record p { tasks = sorted_tasks p.tasks })
      × (check_revision p ≡ ok tt)
      × (are_known (sorted_tasks p.tasks) ≡ true)
      × (validate_writer_order (sorted_tasks p.tasks) ≡ ok tt)
      × (order : List String) × (topological_order (dependencies (sorted_tasks p.tasks)) ≡ ok order)
unfolding new_plan identifier
new_plan-made p h = elim (Outcome-cases (check_revision p)) [
  | inr (_, c) ↦ ground arith
  | inl (tt, c) ↦ elim (Outcome-cases (topological_order (dependencies (sorted_tasks p.tasks)))) [
    | inr (_, e) ↦ ground arith
    | inl (order, e) ↦ elim (Outcome-cases (validate_writer_order (sorted_tasks p.tasks))) [
      | inr (_, v) ↦ ground arith
      | inl (tt, v) ↦ (ground arith, c, ground arith, v, order, e)
    ]
  ]
]

pub new_plan-named :
    (p : Plan) {made : Plan} → new_plan p ≡ ok made → is_identifier p.plan_id ≡ true
unfolding new_plan identifier
new_plan-named p h = elim (Bool-cases (is_identifier p.plan_id)) [
  | inl named ↦ named
  | inr odd ↦ ground arith
]

-- ===== src/Plan/Compile/Named.antt =====
-- The identifiers of a compiled plan and of its tasks.
use mathlib.Core.Path.{subst}
use blackcell.Prelude.{
  ◌≡◌, ap, sym, ◌∙◌, true, Option, List, [], ◌∷◌, not, all, arith, ok, >>=-eq-ok, raise_if-passed,
  Outcome-cases, inl, inr, All,
}
use blackcell.Json.{Json, Fields, get}
use blackcell.Host.{Host}
use blackcell.Lifecycle.Fold.{contains}
use blackcell.Plan.Texts.{each, are_distinct, path_tuple, identifier, is_identifier}
use blackcell.Plan.Texts.Kept.{each-cons}
use blackcell.Plan.Specs.{GoalSpec, TaskSpec, new_task}
use blackcell.Plan.Whole.{Plan}
use blackcell.Plan.Reading.{mapping, sequence, text_value}
use blackcell.Plan.Compile.{catalog, is_task_draft, has_odd_counts, compile_task, compile_plan}
use blackcell.Plan.Compile.Scope.{compile_plan-Compiled, All-sorted_tasks}

unfoldable pub IsNamed : TaskSpec → Type 0
IsNamed task = is_identifier task.task_id ≡ true

new_task-IsNamed :
    (host : Host) (t : TaskSpec) {made : TaskSpec} → new_task host t ≡ ok made → IsNamed made
unfolding new_task identifier IsNamed
new_task-IsNamed host t {made} h = elim (Outcome-cases (path_tuple host t.allowed_paths)) [
  | inr (_, e) ↦ ground arith
  | inl (paths, e) ↦
      let same : made.task_id ≡ t.task_id = ground arith in
      let named : is_identifier t.task_id ≡ true = ground arith in ap is_identifier same ∙ named
]

compile_task-IsNamed :
    (host : Host) (goal : GoalSpec) (value : Json) {task : TaskSpec}
    → compile_task host goal value ≡ ok task
    → IsNamed task
unfolding compile_task
compile_task-IsNamed host goal value compiled =
    let (raw, _, h1) = >>=-eq-ok (mapping value) _ compiled in
    let (_, h2) = raise_if-passed (not (is_task_draft raw)) _ _ h1 in
    let (dependencies, _, h3) = >>=-eq-ok (sequence (get "depends_on" raw)) _ h2 in
    let (paths, _, h4) = >>=-eq-ok (sequence (get "allowed_paths" raw)) _ h3 in
    let (checks, _, h5) = >>=-eq-ok (sequence (get "checks" raw)) _ h4 in
    let (_, h6) = raise_if-passed (has_odd_counts paths checks) _ _ h5 in
    let (texts, _, h7) = >>=-eq-ok (each (text_value host) paths) _ h6 in
    let (_, h8) = raise_if-passed (not (all (contains goal.allowed_paths) texts)) _ _ h7 in
    let (names, _, h9) = >>=-eq-ok (each (text_value host) checks) _ h8 in
    let (_, h10) = raise_if-passed (not (are_distinct names)) _ _ h9 in
    let (_, _, h11) = >>=-eq-ok (each (catalog goal.verification_checks) names) _ h10 in
    let (_, _, h12) = >>=-eq-ok (text_value host (get "task_id" raw)) _ h11 in
    let (_, _, h13) = >>=-eq-ok (text_value host (get "objective" raw)) _ h12 in
    let (_, _, h14) = >>=-eq-ok (each (text_value host) dependencies) _ h13 in
    new_task-IsNamed host _ h14

each-IsNamed :
    (host : Host) (goal : GoalSpec) (raw : List Json) {tasks : List TaskSpec}
    → each (compile_task host goal) raw ≡ ok tasks
    → All IsNamed tasks
unfolding each
each-IsNamed host goal [] {tasks} h = let e : [] ≡ tasks = ground arith in subst (All IsNamed) e tt
each-IsNamed host goal (v ∷ vs) h =
    let (t, rest, first, others, e) = each-cons (compile_task host goal) v vs h in
    subst (All IsNamed) (sym e)
      (compile_task-IsNamed host goal v first, each-IsNamed host goal vs others)

-- A compiled plan and all of its tasks have an identifier.
pub compile_plan-IsNamed :
    (host : Host) (goal : GoalSpec) (draft : Fields) (previous : Option Plan) (plan : Plan)
    → compile_plan host goal draft previous ≡ ok plan
    → (is_identifier plan.plan_id ≡ true) × All IsNamed plan.tasks
compile_plan-IsNamed host goal draft previous plan compiled =
    let c = compile_plan-Compiled host goal draft previous compiled in
    let tasks_are = ap (λ (p : Plan). p.tasks) c.made in
    (
      c.named,
      subst (All IsNamed) (sym tasks_are)
          (All-sorted_tasks IsNamed c.tasks (each-IsNamed host goal c.raw c.each_task)),
    )

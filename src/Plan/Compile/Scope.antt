-- ===== src/Plan/Compile/Scope.antt =====
-- The tasks of a compiled plan, against the goal.
use Prim.Native.String
use text.Mathlib.Text.{is_le}
use mathlib.Core.Path.{subst}
use blackcell.Prelude.{
  ℕ, ◌≡◌, refl, ap, sym, ◌∙◌, String, Bool, true, Option, List, [], ◌∷◌, ◌||◌, not, arith, ok,
  >>=-eq-ok, raise_if-passed, Bool-cases, inl, inr, All,
}
use blackcell.Json.{Json, Fields, get, obj}
use blackcell.Host.{Host, json_digest}
use blackcell.Lifecycle.Fold.{contains}
use blackcell.Plan.Order.{contains-append}
use blackcell.Plan.Texts.{each, is_identifier}
use blackcell.Plan.Texts.Kept.{each-cons}
use blackcell.Plan.Specs.{GoalSpec, TaskSpec, check_ids, new_goal}
use blackcell.Plan.Whole.{Plan, insert_task, sorted_tasks}
use blackcell.Plan.Whole.Made.{new_plan-made, new_plan-named}
use blackcell.Plan.Reading.{sequence}
use blackcell.Plan.Compile.{
  covered, same_set, is_draft, has_task_count, lineage, plan_id_of, compile_task, compile_plan,
}
use blackcell.Plan.Compile.Paths.{AreStripped}
use blackcell.Plan.Compile.Task.{
  InScope, compile_task-InScope, new_goal-AreStripped, contains-all, not-false,
}

module _ {κ} (P : TaskSpec → Type κ) where
  All-insert : (t : TaskSpec) (ts : List TaskSpec) → P t → All P ts → All P (insert_task t ts)
  unfolding insert_task
  All-insert t [] p h = (p, tt)
  All-insert t (u ∷ us) p (q, h) = elim (Bool-cases (is_le (String.compare t.task_id u.task_id))) [
    | inl before ↦
        let e : insert_task t (u ∷ us) ≡ t ∷ u ∷ us = rw before refl in
        subst (All P) (sym e) (p, (q, h))
    | inr after ↦
        let e : insert_task t (u ∷ us) ≡ u ∷ insert_task t us = rw after refl in
        subst (All P) (sym e) (q, All-insert t us p h)
  ]

  pub All-sorted_tasks : (ts : List TaskSpec) → All P ts → All P (sorted_tasks ts)
  unfolding sorted_tasks
  All-sorted_tasks [] h = tt
  All-sorted_tasks (t ∷ ts) (p, h) = All-insert t (sorted_tasks ts) p (All-sorted_tasks ts h)

or_swap : (a b c : Bool) → (a || (b || c)) ≡ (b || (a || c))
or_swap a b c = ground arith

covered-insert :
    (t : TaskSpec) (ts : List TaskSpec) (k : String)
    → contains (covered (insert_task t ts)) k
      ≡ (contains (check_ids t.checks) k || contains (covered ts) k)
unfolding insert_task covered
covered-insert t [] k = contains-append (check_ids t.checks) [] k
covered-insert t (u ∷ us) k =
    let here = contains-append (check_ids u.checks) (covered us) k in
    elim (Bool-cases (is_le (String.compare t.task_id u.task_id))) [
      | inl before ↦
          let e : insert_task t (u ∷ us) ≡ t ∷ u ∷ us = rw before refl in
          rw e (contains-append (check_ids t.checks) (covered (u ∷ us)) k)
      | inr after ↦
          let e : insert_task t (u ∷ us) ≡ u ∷ insert_task t us = rw after refl in
          let there = contains-append (check_ids u.checks) (covered (insert_task t us)) k in
          let rest = covered-insert t us k in
          rw (e, there, rest, here)
            (or_swap (contains (check_ids u.checks) k) (contains (check_ids t.checks) k)
              (contains (covered us) k))
    ]

covered-sorted_tasks :
    (ts : List TaskSpec) (k : String)
    → contains (covered (sorted_tasks ts)) k ≡ contains (covered ts) k
unfolding sorted_tasks covered
covered-sorted_tasks [] k = refl
covered-sorted_tasks (t ∷ ts) k =
    let added = covered-insert t (sorted_tasks ts) k in
    let split = contains-append (check_ids t.checks) (covered ts) k in
    rw (added, split, covered-sorted_tasks ts k) refl

same_set-contains :
    (xs ys : List String) (k : String) → same_set xs ys ≡ true → contains xs k ≡ contains ys k
same_set-contains xs ys k h =
    ground (arith, contains-all (contains ys) xs k, contains-all (contains xs) ys k)

each-InScope :
    (host : Host) (goal : GoalSpec) (raw : List Json) {tasks : List TaskSpec}
    → AreStripped goal.allowed_paths
    → each (compile_task host goal) raw ≡ ok tasks
    → All (InScope goal) tasks
unfolding each
each-InScope host goal [] {tasks} stripped h =
    let e : [] ≡ tasks = ground arith in subst (All (InScope goal)) e tt
each-InScope host goal (v ∷ vs) stripped h =
    let (t, rest, first, others, e) = each-cons (compile_task host goal) v vs h in
    subst (All (InScope goal)) (sym e)
      (compile_task-InScope host goal v stripped first, each-InScope host goal vs stripped others)

-- What the compiler has found when it returns.
pub record Compiled (host : Host) (goal : GoalSpec) (previous : Option Plan) (draft : Fields)
    (plan : Plan) : Type 0 where
  pub raw : List Json
  pub tasks : List TaskSpec
  pub line : ℕ × Option String
  pub each_task : each (compile_task host goal) raw ≡ ok tasks
  pub all_checks : same_set (covered tasks) (check_ids goal.verification_checks) ≡ true
  pub lined : lineage goal previous ≡ ok line
  pub named : is_identifier plan.plan_id ≡ true
  pub made : plan ≡ record {
    plan_id = plan_id_of host goal line.0 line.1 (json_digest host (obj draft)) tasks;
    goal_id = goal.goal_id;
    project_id = goal.project_id;
    intent_id = goal.intent_id;
    plan_revision = line.0;
    supersedes_plan_id = line.1;
    base_commit = goal.base_commit;
    draft_digest = json_digest host (obj draft);
    tasks = sorted_tasks tasks;
    schema_version = "blackcell.plan/v2";
  }

pub compile_plan-Compiled :
    (host : Host) (goal : GoalSpec) (draft : Fields) (previous : Option Plan) {plan : Plan}
    → compile_plan host goal draft previous ≡ ok plan
    → Compiled host goal previous draft plan
unfolding compile_plan
compile_plan-Compiled host goal draft previous compiled =
    let (_, h1) = raise_if-passed (not (is_draft draft)) _ _ compiled in
    let (raw, _, h2) = >>=-eq-ok (sequence (get "tasks" draft)) _ h1 in
    let (_, h3) = raise_if-passed (not (has_task_count raw)) _ _ h2 in
    let (tasks, found, h4) = >>=-eq-ok (each (compile_task host goal) raw) _ h3 in
    let (all_checks, h5) =
      raise_if-passed (not (same_set (covered tasks) (check_ids goal.verification_checks))) _ _
        h4 in
    let (line, lined, h6) = >>=-eq-ok (lineage goal previous) _ h5 in
    let (made, _, _, _, _, _) = new_plan-made _ h6 in
    record {
      raw = raw;
      tasks = tasks;
      line = line;
      each_task = found;
      all_checks = not-false _ all_checks;
      lined = lined;
      named = ap (λ (p : Plan). is_identifier p.plan_id) made ∙ new_plan-named _ h6;
      made = made;
    }

-- A plan compiled for a constructed goal stays inside it. Each task's paths are among the goal's, it
-- may be attempted as often as the goal allows, each of its checks is the goal's own under that name,
-- command and exit code included; and the checks of all tasks together are those of the goal.
pub compile_plan-InScope :
    (host : Host) (given goal : GoalSpec) (draft : Fields) (previous : Option Plan) (plan : Plan)
    → new_goal host given ≡ ok goal
    → compile_plan host goal draft previous ≡ ok plan
    → All (InScope goal) plan.tasks
      × ((k : String)
          → contains (covered plan.tasks) k ≡ contains (check_ids goal.verification_checks) k)
compile_plan-InScope host given goal draft previous plan constructed compiled =
    let c = compile_plan-Compiled host goal draft previous compiled in
    let tasks_are : plan.tasks ≡ sorted_tasks c.tasks = ap (λ (p : Plan). p.tasks) c.made in
    let inside =
      each-InScope host goal c.raw (new_goal-AreStripped host given constructed) c.each_task in
    (
      subst (All (InScope goal)) (sym tasks_are) (All-sorted_tasks (InScope goal) c.tasks inside),
      λ k.
          ap (λ ts. contains (covered ts) k) tasks_are
          ∙ covered-sorted_tasks c.tasks k
          ∙ same_set-contains (covered c.tasks) (check_ids goal.verification_checks) k c.all_checks,
    )

-- ===== src/Plan/Payload.antt =====
-- orchestration/execution_plan.py: the payloads that goals, tasks and plans are stored as, and their
-- digests.

use blackcell.Prelude.{ℕ, String, pos, List, [], ◌∷◌, ok, ◌>>=◌}
use blackcell.Json.{Json, text, int, arr, obj, dict, list_of, text_or_null}
use blackcell.Host.{Host, json_digest}
use blackcell.Plan.{Result, topological_order}
use blackcell.Plan.Specs.{VerificationCheck, GoalSpec, TaskSpec, check_ids}
use blackcell.Plan.Whole.{Plan, dependencies}

abbrev pub number : ℕ → Json
number n = int (pos n)

abbrev pub texts : List String → Json
texts values = arr (list_of text values)

-- one entry of `verification_checks` or `checks`
abbrev pub check_payload : VerificationCheck → Json
check_payload check = obj (
    dict (
      ("check_id", text check.check_id)
      ∷ ("argv", texts check.argv)
      ∷ ("expected_exit_code", number check.expected_exit_code)
      ∷ []))

-- `goal_payload`
unfoldable pub goal_payload : GoalSpec → Json
goal_payload goal = obj (
    dict (
      ("schema_version", text goal.schema_version)
      ∷ ("goal_id", text goal.goal_id)
      ∷ ("project_id", text goal.project_id)
      ∷ ("intent_id", text goal.intent_id)
      ∷ ("objective", text goal.objective)
      ∷ ("base_commit", text goal.base_commit)
      ∷ ("constraints", texts goal.constraints)
      ∷ ("allowed_paths", texts goal.allowed_paths)
      ∷ ("verification_checks", arr (list_of check_payload goal.verification_checks))
      ∷ ("max_attempts", number goal.max_attempts)
      ∷ ("same_error_limit", number goal.same_error_limit)
      ∷ []))

-- `planning_payload`
unfoldable pub planning_payload : GoalSpec → Json
planning_payload goal = obj (
    dict (
      ("schema_version", text goal.schema_version)
      ∷ ("goal_id", text goal.goal_id)
      ∷ ("project_id", text goal.project_id)
      ∷ ("intent_id", text goal.intent_id)
      ∷ ("objective", text goal.objective)
      ∷ ("constraints", texts goal.constraints)
      ∷ ("allowed_paths", texts goal.allowed_paths)
      ∷ ("verification_check_ids", texts (check_ids goal.verification_checks))
      ∷ ("max_attempts", number goal.max_attempts)
      ∷ ("same_error_limit", number goal.same_error_limit)
      ∷ []))

-- `task_payload`
unfoldable pub task_payload : TaskSpec → Json
task_payload task = obj (
    dict (
      ("task_id", text task.task_id)
      ∷ ("objective", text task.objective)
      ∷ ("depends_on", texts task.depends_on)
      ∷ ("allowed_paths", texts task.allowed_paths)
      ∷ ("checks", arr (list_of check_payload task.checks))
      ∷ ("max_attempts", number task.max_attempts)
      ∷ []))

-- `plan_payload`; the property `topological_order` of the plan may raise
unfoldable pub plan_payload : Plan → Result Json
plan_payload plan = do
  order ← topological_order (dependencies plan.tasks)
  ok (
      obj (
        dict (
          ("schema_version", text plan.schema_version)
          ∷ ("plan_id", text plan.plan_id)
          ∷ ("goal_id", text plan.goal_id)
          ∷ ("project_id", text plan.project_id)
          ∷ ("intent_id", text plan.intent_id)
          ∷ ("plan_version", number plan.plan_revision)
          ∷ ("supersedes_plan_id", text_or_null plan.supersedes_plan_id)
          ∷ ("base_commit", text plan.base_commit)
          ∷ ("draft_digest", text plan.draft_digest)
          ∷ ("tasks", arr (list_of task_payload plan.tasks))
          ∷ ("topological_order", texts order)
          ∷ [])))

-- `GoalSpec.digest`
unfoldable pub goal_digest : Host → GoalSpec → String
goal_digest host goal = json_digest host (goal_payload goal)

-- `TaskSpec.task_digest`
unfoldable pub task_digest : Host → TaskSpec → String
task_digest host task = json_digest host (task_payload task)

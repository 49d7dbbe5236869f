-- ===== src/Plan/Examples.antt =====
-- The theorems on goals, plans and the policy at a plan of two tasks.

use mathlib.Core.List.{Memᴰ}
use blackcell.Prelude.{
  ◌≡◌, ◌≢◌, ◌>>=◌, refl, true, false, String, List, none, [], ◌∷◌, ok, err, All,
}
use blackcell.Samples.{host}
use blackcell.Lifecycle.Fold.{contains}
use blackcell.Plan.{key_error}
use blackcell.Plan.Specs.{check_ids}
use blackcell.Plan.Whole.{dependencies, writers, validate_writer_order}
use blackcell.Plan.Payload.{goal_payload, plan_payload}
use blackcell.Plan.Reading.{goal_from_payload, plan_from_payload}
use blackcell.Plan.Compile.{covered}
use blackcell.Plan.Reading.Goal.{goal_from_payload-goal_payload}
use blackcell.Plan.Reading.Back.{plan_from_payload-plan_payload}
use blackcell.Plan.Whole.Writers.{AreInLine, new_plan-AreInLine}
use blackcell.Plan.Whole.Keys.{validate_writer_order-no_key_error}
use blackcell.Plan.Compile.Task.{InScope}
use blackcell.Plan.Compile.Scope.{compile_plan-InScope}
use blackcell.Plan.Compile.Lineage.{Revisions, AreNumbered, Revisions-AreNumbered}
use blackcell.Plan.Policy.{ToolActionRequest, request_digest, authorize}
use blackcell.Plan.Policy.Repair.{attempt_request, compile_plan-route-authorize}
use blackcell.Plan.Runs.{
  goal_made, goal_kept, compiled, compiled_first, compiled_again, plan_kept, checks-IsReadable,
  tasks-IsKept, ordered, repaired, hex, run_named, paths_kept,
}
use blackcell.Plan.Samples.{given_goal, goal, draft, edit, plan, varied, second_plan, failed}

goal_from_payload-goal_payload_example : goal_from_payload host (goal_payload goal) ≡ ok goal
goal_from_payload-goal_payload_example =
    goal_from_payload-goal_payload host goal goal_kept checks-IsReadable

plan_from_payload-plan_payload_example : (plan_payload plan >>= plan_from_payload host) ≡ ok plan
plan_from_payload-plan_payload_example =
    plan_from_payload-plan_payload host plan plan_kept tasks-IsKept

new_plan-AreInLine_example :
    (ws : List String) × (writers plan.tasks ("edit" ∷ "run-tests" ∷ []) ≡ ok ws)
    × AreInLine (dependencies plan.tasks) ws
new_plan-AreInLine_example = new_plan-AreInLine plan ("edit" ∷ "run-tests" ∷ []) plan_kept ordered

validate_writer_order-no_key_error_example : validate_writer_order plan.tasks ≢ err key_error
validate_writer_order-no_key_error_example = validate_writer_order-no_key_error plan.tasks

compile_plan-InScope_example :
    All (InScope goal) plan.tasks
    × ((k : String)
        → contains (covered plan.tasks) k ≡ contains (check_ids goal.verification_checks) k)
compile_plan-InScope_example =
    compile_plan-InScope host given_goal goal draft none plan goal_made compiled

Revisions-AreNumbered_example : AreNumbered (second_plan ∷ plan ∷ [])
Revisions-AreNumbered_example = Revisions-AreNumbered varied (second_plan ∷ plan ∷ []) (
    Revisions.next goal draft second_plan plan [] (Revisions.first goal draft plan compiled_first)
      compiled_again)

compile_plan-route-authorize_example :
    (request : ToolActionRequest) × (attempt_request host "run" plan edit 2 ≡ ok request)
    × (authorize host goal plan edit request
        ≡ ok (record {
          allowed = true;
          reason = "bounded-task-authorized";
          action_digest = request_digest host request;
        }))
compile_plan-route-authorize_example =
    compile_plan-route-authorize host given_goal goal draft none plan edit failed 1 0 false "run"
      hex goal_made compiled (Memᴰ.head refl) run_named paths_kept repaired

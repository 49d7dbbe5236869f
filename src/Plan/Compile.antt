-- ===== src/Plan/Compile.antt =====
-- orchestration/execution_plan.py: `compile_plan`, which turns the draft of a planner into a plan of
-- the host.
pub mod Paths
pub mod Task
pub mod Scope
pub mod Lineage
pub mod Named
use Prim.Native.String
use blackcell.Prelude.{
  ℕ, suc, zero, String, Bool, true, false, Option, none, some, List, [], ◌∷◌, ◌++◌, ◌+◌, ◌&&◌, ◌||◌,
  not, ltb, leb, str_eq, length, all, map, Outcome, ok, err, raise_if, ◌>>=◌, ◌>>◌,
}
use blackcell.Prelude.Text.{take}
use blackcell.Json.{Json, obj, text, Fields, get, has_exactly, is_text, dict, text_or_null}
use blackcell.Host.{Host, json_digest}
use blackcell.Lifecycle.Fields.{suffix_of}
use blackcell.Lifecycle.Fold.{contains}
use blackcell.Plan.{
  Result, plan_path_outside_goal, plan_check_outside_goal, plan_check_coverage_incomplete,
  invalid_plan_lineage, refuse,
}
use blackcell.Plan.Texts.{are_distinct, each}
use blackcell.Plan.Specs.{VerificationCheck, GoalSpec, TaskSpec, check_ids, new_task}
use blackcell.Plan.Whole.{Plan, new_plan}
use blackcell.Plan.Payload.{number, texts, goal_digest, task_digest}
use blackcell.Plan.Reading.{mapping, sequence, text_value}

-- `{item.check_id: item for item in checks}.get(check_id)`: the last one stays
unfoldable pub find_check : List VerificationCheck → String → Option VerificationCheck
find_check [] k = none
find_check (c ∷ cs) k = elim (find_check cs k) [
  | some d ↦ some d
  | none ↦ elim (str_eq c.check_id k) [ true ↦ some c | false ↦ none ]
]

abbrev found : Option VerificationCheck → Result VerificationCheck
found none = err plan_check_outside_goal
found (some check) = ok check

-- `catalog[check_id]`, and what a `KeyError` becomes
unfoldable pub catalog : List VerificationCheck → String → Result VerificationCheck
unfolding find_check
catalog checks check_id = found (find_check checks check_id)

-- `{check.check_id for task in tasks for check in task.checks}`
unfoldable pub covered : List TaskSpec → List String
covered [] = []
covered (t ∷ ts) = check_ids t.checks ++ covered ts

-- equality of two sets
abbrev pub same_set : List String → List String → Bool
same_set xs ys = all (contains ys) xs && all (contains xs) ys

-- the revision and what it supersedes
unfoldable pub lineage : GoalSpec → Option Plan → Result (ℕ × Option String)
lineage goal none = ok (1, none)
lineage goal (some previous) = do
  raise_if
      (not (str_eq previous.goal_id goal.goal_id)
        || not (str_eq previous.project_id goal.project_id)
        || not (str_eq previous.intent_id goal.intent_id)
        || not (str_eq previous.base_commit goal.base_commit))
      invalid_plan_lineage
  ok (previous.plan_revision + 1, some previous.plan_id)

-- the keys of a task's draft
unfoldable pub is_task_draft : Fields → Bool
is_task_draft raw =
    has_exactly raw ("task_id" ∷ "objective" ∷ "depends_on" ∷ "allowed_paths" ∷ "checks" ∷ [])

-- the counts of its paths and checks
unfoldable pub has_odd_counts : List Json → List Json → Bool
has_odd_counts raw_paths raw_checks =
    ltb 256 (length raw_paths) || not (leb 1 (length raw_checks) && leb (length raw_checks) 32)

-- the keys of a draft, and its version
unfoldable pub is_draft : Fields → Bool
is_draft draft =
    has_exactly draft ("schema_version" ∷ "tasks" ∷ [])
    && is_text (get "schema_version" draft) "blackcell.plan-draft/v1"

-- `1 <= len(raw_tasks) <= _MAX_TASKS`
unfoldable pub has_task_count : List Json → Bool
has_task_count raw_tasks = leb 1 (length raw_tasks) && leb (length raw_tasks) 64

module _ (host : Host) (goal : GoalSpec) where
  -- `_compile_task`
  unfoldable pub compile_task : Json → Result TaskSpec
  unfolding each catalog is_task_draft has_odd_counts
  compile_task value = do
    raw ← mapping value
    refuse (not (is_task_draft raw))
    raw_dependencies ← sequence (get "depends_on" raw)
    raw_paths ← sequence (get "allowed_paths" raw)
    raw_checks ← sequence (get "checks" raw)
    refuse (has_odd_counts raw_paths raw_checks)
    paths ← each (text_value host) raw_paths
    raise_if (not (all (contains goal.allowed_paths) paths)) plan_path_outside_goal
    names ← each (text_value host) raw_checks
    refuse (not (are_distinct names))
    checks ← each (catalog goal.verification_checks) names
    task_id ← text_value host (get "task_id" raw)
    objective ← text_value host (get "objective" raw)
    depends_on ← each (text_value host) raw_dependencies
    new_task host (record {
      task_id = task_id;
      objective = objective;
      depends_on = depends_on;
      allowed_paths = paths;
      checks = checks;
      max_attempts = goal.max_attempts;
    })

  -- `f"plan-{identity.removeprefix('sha256:')[:32]}"`
  unfoldable pub plan_id_of : ℕ → Option String → String → List TaskSpec → String
  unfolding take
  plan_id_of revision supersedes draft_digest tasks =
      let identity = json_digest host (
        obj (
          dict (
            ("goal_digest", text (goal_digest host goal))
            ∷ ("plan_version", number revision)
            ∷ ("supersedes_plan_id", text_or_null supersedes)
            ∷ ("draft_digest", text draft_digest)
            ∷ ("task_digests", texts (map (task_digest host) tasks))
            ∷ []))) in
      String.◌++◌ "plan-" (take 32 (suffix_of identity))

  -- `compile_plan`
  unfoldable pub compile_plan : Fields → Option Plan → Result Plan
  unfolding each is_draft has_task_count compile_task covered lineage plan_id_of
  compile_plan draft previous = do
    refuse (not (is_draft draft))
    raw_tasks ← sequence (get "tasks" draft)
    refuse (not (has_task_count raw_tasks))
    tasks ← each compile_task raw_tasks
    raise_if (not (same_set (covered tasks) (check_ids goal.verification_checks)))
        plan_check_coverage_incomplete
    let draft_digest = json_digest host (obj draft)
    line ← lineage goal previous
    new_plan (record {
      plan_id = plan_id_of line.0 line.1 draft_digest tasks;
      goal_id = goal.goal_id;
      project_id = goal.project_id;
      intent_id = goal.intent_id;
      plan_revision = line.0;
      supersedes_plan_id = line.1;
      base_commit = goal.base_commit;
      draft_digest = draft_digest;
      tasks = tasks;
      schema_version = "blackcell.plan/v2";
    })

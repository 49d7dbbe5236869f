-- ===== src/Plan/Whole.antt =====
-- orchestration/execution_plan.py: `Plan` and the order of its writers, `_validate_writer_order`.
pub mod Made
pub mod Writers
pub mod Keys
use Prim.Native.String
use blackcell.Prelude.{
  ℕ, String, Bool, true, false, Option, none, some, List, [], ◌∷◌, ◌++◌, ◌&&◌, ◌||◌, not, ◌==◌, ltb,
  leb, str_eq, length, all, any, map, is_some, ok, err, ◌>>=◌, ◌>>◌, if◌then◌else◌,
}
use text.Mathlib.Text.{is_le}
use blackcell.Prelude.Patterns.{is_commit, is_digest}
use blackcell.Lifecycle.Fold.{Dependencies, contains}
use blackcell.Plan.{Result, key_error, parallel_writer_plan, refuse, topological_order}
use blackcell.Plan.Texts.{identifier, are_distinct}
use blackcell.Plan.Specs.{TaskSpec}

pub record Plan : Type 0 where
  pub plan_id : String
  pub goal_id : String
  pub project_id : String
  pub intent_id : String
  pub plan_revision : ℕ
  pub supersedes_plan_id : Option String
  pub base_commit : String
  pub draft_digest : String
  pub tasks : List TaskSpec
  pub schema_version : String

-- `{item.task_id: set(item.depends_on) for item in tasks}`
abbrev pub dependencies : List TaskSpec → Dependencies
dependencies tasks = map (λ (t : TaskSpec). (t.task_id, t.depends_on)) tasks

abbrev pub identifiers : List TaskSpec → List String
identifiers tasks = map (λ (t : TaskSpec). t.task_id) tasks

-- what a lookup in a dictionary returns or raises
abbrev pub or_key_error {ℓ} : {A : Type ℓ} → Option A → Result A
or_key_error none = err key_error
or_key_error (some value) = ok value

-- `{item.task_id: item for item in tasks}.get(task_id)`; the identifiers are distinct where this is asked
unfoldable pub find_task : List TaskSpec → String → Option TaskSpec
find_task [] k = none
find_task (t ∷ ts) k = if str_eq t.task_id k then some t else find_task ts k

-- `by_id[task_id]`
unfoldable pub by_id : List TaskSpec → String → Result TaskSpec
unfolding find_task
by_id tasks k = or_key_error (find_task tasks k)

abbrev pub Ancestors : Type 0
Ancestors = List (String × List String)

unfoldable pub ancestors_of : Ancestors → String → Option (List String)
ancestors_of [] k = none
ancestors_of ((j, names) ∷ rest) k = if str_eq j k then some names else ancestors_of rest k

-- the union over the dependencies, with `ancestors[dependency]` for each
unfoldable pub union_ancestors : Ancestors → List String → Result (List String)
unfolding ancestors_of
union_ancestors table [] = ok []
union_ancestors table (k ∷ ks) = do
  first ← or_key_error (ancestors_of table k)
  rest ← union_ancestors table ks
  ok (first ++ rest)

-- the loop `for task_id in order`
unfoldable pub ancestors_along : List TaskSpec → Ancestors → List String → Result Ancestors
unfolding by_id
ancestors_along tasks table [] = ok table
ancestors_along tasks table (k ∷ ks) = do
  task ← by_id tasks k
  above ← union_ancestors table task.depends_on
  ancestors_along tasks ((k, task.depends_on ++ above) ∷ table) ks

-- the tasks of the order whose `allowed_paths` holds a path
unfoldable pub writers : List TaskSpec → List String → Result (List String)
unfolding by_id
writers tasks [] = ok []
writers tasks (k ∷ ks) = do
  task ← by_id tasks k
  rest ← writers tasks ks
  ok (if length task.allowed_paths == 0 then rest else k ∷ rest)

-- `previous in ancestors[current]`
unfoldable pub is_below : Ancestors → String → String → Result Bool
unfolding ancestors_of
is_below table previous current = do
  names ← or_key_error (ancestors_of table current)
  ok (contains names previous)

-- `not any(… for previous, current in pairwise(writers))`, which ends at the first pair that is out of line
unfoldable pub are_chained : Ancestors → List String → Result Bool
unfolding is_below
are_chained table [] = ok true
are_chained table (w ∷ []) = ok true
are_chained table (v ∷ w ∷ ws) = do
  below ← is_below table v w
  let rest = are_chained table (w ∷ ws)
  if below then rest else ok false

-- `_validate_writer_order`
unfoldable pub validate_writer_order : List TaskSpec → Result (Unit {0})
unfolding ancestors_along writers are_chained
validate_writer_order tasks = do
  order ← topological_order (dependencies tasks)
  table ← ancestors_along tasks [] order
  ws ← writers tasks order
  chained ← are_chained table ws
  if chained then ok tt else err parallel_writer_plan

unfoldable pub insert_task : TaskSpec → List TaskSpec → List TaskSpec
insert_task t [] = t ∷ []
insert_task t (u ∷ us) =
    let rest = insert_task t us in
    if is_le (String.compare t.task_id u.task_id) then t ∷ u ∷ us else u ∷ rest

-- `sorted(tasks, key=lambda item: item.task_id)`
unfoldable pub sorted_tasks : List TaskSpec → List TaskSpec
sorted_tasks [] = []
sorted_tasks (t ∷ ts) = insert_task t (sorted_tasks ts)

-- the checks of the revision and of what it supersedes
unfoldable pub check_revision : Plan → Result (Unit {0})
check_revision plan = do
  refuse (ltb plan.plan_revision 1)
  refuse (
      if plan.plan_revision == 1
      then is_some plan.supersedes_plan_id
      else not (is_some plan.supersedes_plan_id))
  elim plan.supersedes_plan_id [
    | none ↦ ok tt
    | some superseded ↦ do _ ← identifier superseded; refuse (str_eq superseded plan.plan_id)
  ]

-- every task's dependencies are tasks of the plan
abbrev pub are_known : List TaskSpec → Bool
are_known tasks = all (λ (t : TaskSpec). all (contains (identifiers tasks)) t.depends_on) tasks

-- `Plan.__post_init__`
unfoldable pub new_plan : Plan → Result Plan
unfolding insert_task
new_plan plan = do
  refuse (not (str_eq plan.schema_version "blackcell.plan/v2"))
  _ ← identifier plan.plan_id
  _ ← identifier plan.goal_id
  _ ← identifier plan.project_id
  _ ← identifier plan.intent_id
  check_revision plan
  refuse (not (is_commit plan.base_commit) || not (is_digest plan.draft_digest))
  let tasks = sorted_tasks plan.tasks
  refuse (not (leb 1 (length tasks) && leb (length tasks) 64))
  refuse (not (are_distinct (identifiers tasks)))
  refuse (not (are_known tasks))
  _ ← topological_order (dependencies tasks)
  validate_writer_order tasks
  ok (record plan { tasks = tasks })

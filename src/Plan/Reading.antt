-- ===== src/Plan/Reading.antt =====
-- orchestration/execution_plan.py: `goal_from_payload`, `plan_from_payload` and the readers of single
-- values that they share with the compiler.
pub mod Goal
pub mod Back
use Prim.Native.String
use blackcell.Prelude.{
  ℕ, String, Bool, true, false, pos, Option, none, some, List, [], ◌∷◌, ◌&&◌, not, str_eq, ok, err,
  ◌>>=◌, ◌>>◌,
}
use blackcell.Json.{Json, null, text, int, arr, obj, Items, nil, cons, Fields, get, has_exactly}
use blackcell.Prelude.Text.{texts_eq}
use blackcell.Host.{Host}
use blackcell.Plan.{Result, invalid_execution_contract, refuse, topological_order}
use blackcell.Plan.Texts.{text_of, each}
use blackcell.Plan.Specs.{VerificationCheck, GoalSpec, TaskSpec, new_check, new_goal, new_task}
use blackcell.Plan.Whole.{Plan, dependencies, new_plan}

abbrev pub refused {ℓ} : {A : Type ℓ} → Result A
refused = err invalid_execution_contract

-- `_mapping`
abbrev pub mapping : Json → Result Fields
mapping (obj fields) = ok fields
mapping _ = refused

-- the items of an array
abbrev pub elements : Items → List Json
elements nil = []
elements (cons v vs) = v ∷ elements vs

-- `_sequence`
abbrev pub sequence : Json → Result (List Json)
sequence (arr items) = ok (elements items)
sequence _ = refused

-- `_mapping_integer` of the value that is read; a bool is no integer here
abbrev pub integer : Json → Result ℕ
integer (int (pos n)) = ok n
integer _ = refused

abbrev pub optional_text : Json → Result (Option String)
optional_text null = ok none
optional_text (text s) = ok (some s)
optional_text _ = refused

module _ (host : Host) where
  -- `_text` of a value that may be no text
  abbrev pub text_value : Json → Result String
  text_value (text s) = text_of host s
  text_value _ = refused

  -- `tuple(_text(item) for item in _sequence(value))`
  unfoldable pub texts_value : Json → Result (List String)
  unfolding each
  texts_value value = do items ← sequence value; each text_value items

  -- one entry of `verification_checks` or `checks`
  unfoldable pub read_check : Json → Result VerificationCheck
  read_check value = do
    check ← mapping value
    check_id ← text_value (get "check_id" check)
    argv ← texts_value (get "argv" check)
    expected_exit_code ← integer (get "expected_exit_code" check)
    new_check (record { check_id = check_id; argv = argv; expected_exit_code = expected_exit_code })

  unfoldable pub read_checks : Json → Result (List VerificationCheck)
  unfolding each read_check
  read_checks value = do items ← sequence value; each read_check items

  -- `goal_from_payload`
  unfoldable pub goal_from_payload : Json → Result GoalSpec
  goal_from_payload value = do
    raw ← mapping value
    refuse (
        not (
          has_exactly raw (
            "schema_version" ∷ "goal_id" ∷ "project_id" ∷ "intent_id" ∷ "objective" ∷ "base_commit"
            ∷ "constraints" ∷ "allowed_paths" ∷ "verification_checks" ∷ "max_attempts"
            ∷ "same_error_limit" ∷ [])))
    checks ← read_checks (get "verification_checks" raw)
    schema_version ← text_value (get "schema_version" raw)
    goal_id ← text_value (get "goal_id" raw)
    project_id ← text_value (get "project_id" raw)
    intent_id ← text_value (get "intent_id" raw)
    objective ← text_value (get "objective" raw)
    base_commit ← text_value (get "base_commit" raw)
    constraints ← texts_value (get "constraints" raw)
    allowed_paths ← texts_value (get "allowed_paths" raw)
    max_attempts ← integer (get "max_attempts" raw)
    same_error_limit ← integer (get "same_error_limit" raw)
    new_goal host (record {
      goal_id = goal_id;
      project_id = project_id;
      intent_id = intent_id;
      objective = objective;
      base_commit = base_commit;
      constraints = constraints;
      allowed_paths = allowed_paths;
      verification_checks = checks;
      max_attempts = max_attempts;
      same_error_limit = same_error_limit;
      schema_version = schema_version;
    })

  -- `_task_from_payload`
  unfoldable pub task_from_payload : Json → Result TaskSpec
  task_from_payload value = do
    raw ← mapping value
    refuse (
        not (
          has_exactly raw (
            "task_id" ∷ "objective" ∷ "depends_on" ∷ "allowed_paths" ∷ "checks" ∷ "max_attempts"
            ∷ [])))
    checks ← read_checks (get "checks" raw)
    task_id ← text_value (get "task_id" raw)
    objective ← text_value (get "objective" raw)
    depends_on ← texts_value (get "depends_on" raw)
    allowed_paths ← texts_value (get "allowed_paths" raw)
    max_attempts ← integer (get "max_attempts" raw)
    new_task host (record {
      task_id = task_id;
      objective = objective;
      depends_on = depends_on;
      allowed_paths = allowed_paths;
      checks = checks;
      max_attempts = max_attempts;
    })

  -- `plan_from_payload`
  unfoldable pub plan_from_payload : Json → Result Plan
  unfolding each task_from_payload texts_eq
  plan_from_payload value = do
    raw ← mapping value
    refuse (
        not (
          has_exactly raw (
            "schema_version" ∷ "plan_id" ∷ "goal_id" ∷ "project_id" ∷ "intent_id" ∷ "plan_version"
            ∷ "supersedes_plan_id" ∷ "base_commit" ∷ "draft_digest" ∷ "tasks" ∷ "topological_order"
            ∷ [])))
    items ← sequence (get "tasks" raw)
    tasks ← each task_from_payload items
    supersedes_plan_id ← optional_text (get "supersedes_plan_id" raw)
    schema_version ← text_value (get "schema_version" raw)
    plan_id ← text_value (get "plan_id" raw)
    goal_id ← text_value (get "goal_id" raw)
    project_id ← text_value (get "project_id" raw)
    intent_id ← text_value (get "intent_id" raw)
    plan_revision ← integer (get "plan_version" raw)
    base_commit ← text_value (get "base_commit" raw)
    draft_digest ← text_value (get "draft_digest" raw)
    plan ← new_plan (record {
      plan_id = plan_id;
      goal_id = goal_id;
      project_id = project_id;
      intent_id = intent_id;
      plan_revision = plan_revision;
      supersedes_plan_id = supersedes_plan_id;
      base_commit = base_commit;
      draft_digest = draft_digest;
      tasks = tasks;
      schema_version = schema_version;
    })
    order ← texts_value (get "topological_order" raw)
    expected ← topological_order (dependencies plan.tasks)
    refuse (not (texts_eq order expected))
    ok plan

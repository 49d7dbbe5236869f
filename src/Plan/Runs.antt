-- ===== src/Plan/Runs.antt =====
-- Runs of the constructors, the compiler and the policy at the samples.

use blackcell.Prelude.{◌≡◌, refl, true, false, some, none, [], ◌∷◌, ok, err, All}
use blackcell.Json.{get, find, keys, has_exactly, is_text}
use blackcell.Samples.{host}
use blackcell.Host.{json_digest}
use blackcell.Json.Equality.{is_int}
use blackcell.Prelude.Patterns.{fullmatch, is_commit, is_digest, utf8_length, starts_with}
use blackcell.Prelude.Text.{take, after_prefix}
use blackcell.Kernel.Event.{is_blank}
use blackcell.Lifecycle.Lease.{dependencies_of}
use blackcell.Lifecycle.Fields.{suffix_of}
use blackcell.Lifecycle.Fold.{sorted, insert_name}
use blackcell.Plan.{
  keep, is_ready, ready, without, resolve, topological_order, invalid_execution_contract,
  invalid_execution_contract,
}
use blackcell.Plan.Texts.{
  is_identifier, identifier, are_distinct, set_of, has_parent, without_slashes, text_of, is_slashes,
  repository_path, each, path_tuple, bounded_text_tuple,
}
use blackcell.Plan.Texts.Kept.{are_not_blank}
use blackcell.Plan.Specs.{
  VerificationCheck, is_executable, new_check, insert_check, sorted_checks, check_le,
  is_odd_objective, new_goal, new_task,
}
use blackcell.Plan.Whole.{
  ancestors_of, union_ancestors, ancestors_along, is_below, are_chained, find_task, by_id, writers,
  dependencies, validate_writer_order, insert_task, sorted_tasks, check_revision, new_plan,
}
use blackcell.Plan.Payload.{goal_digest, task_digest}
use blackcell.Plan.Compile.{
  find_check, catalog, covered, lineage, plan_id_of, is_draft, has_task_count, is_task_draft,
  has_odd_counts, compile_task, compile_plan,
}
use blackcell.Plan.Reading.Goal.{IsReadable}
use blackcell.Plan.Reading.Back.{IsKept}
use blackcell.Plan.Policy.{AttemptRoute, route}
use blackcell.Plan.Policy.Repair.{HasHexDigests}
use blackcell.Plan.Samples.{
  given_goal, goal, draft, edit, plan, varied_json, varied, second_plan, failed,
}

pub goal_made : new_goal host given_goal ≡ ok goal
unfolding new_goal identifier is_identifier fullmatch is_odd_objective is_blank utf8_length
    is_commit bounded_text_tuple path_tuple each text_of repository_path starts_with has_parent
    is_slashes without_slashes sorted insert_name are_distinct sorted_checks insert_check check_le
goal_made = refl

pub goal_kept : new_goal host goal ≡ ok goal
unfolding new_goal identifier is_identifier fullmatch is_odd_objective is_blank utf8_length
    is_commit bounded_text_tuple path_tuple each text_of repository_path starts_with has_parent
    is_slashes without_slashes sorted insert_name are_distinct sorted_checks insert_check check_le
goal_kept = refl

pub compiled : compile_plan host goal draft none ≡ ok plan
unfolding compile_plan is_draft has_task_count compile_task is_task_draft has_odd_counts catalog
    find_check covered lineage plan_id_of take suffix_of goal_digest task_digest json_digest get
    find keys has_exactly is_text after_prefix new_task new_plan check_revision set_of insert_task
    sorted_tasks validate_writer_order are_chained is_below ancestors_along union_ancestors
    ancestors_of find_task by_id writers topological_order resolve ready keep is_ready without
    dependencies_of identifier is_identifier fullmatch is_odd_objective is_blank utf8_length
    is_commit is_digest path_tuple each text_of repository_path starts_with has_parent is_slashes
    without_slashes sorted insert_name are_distinct sorted_checks insert_check check_le
compiled = refl

pub compiled_first : compile_plan varied goal draft none ≡ ok plan
unfolding varied_json is_int compile_plan is_draft has_task_count compile_task is_task_draft
    has_odd_counts catalog find_check covered lineage plan_id_of take suffix_of goal_digest
    task_digest json_digest get find keys has_exactly is_text after_prefix new_task new_plan
    check_revision set_of insert_task sorted_tasks validate_writer_order are_chained is_below
    ancestors_along union_ancestors ancestors_of find_task by_id writers topological_order resolve
    ready keep is_ready without dependencies_of identifier is_identifier fullmatch is_odd_objective
    is_blank utf8_length is_commit is_digest path_tuple each text_of repository_path starts_with
    has_parent is_slashes without_slashes sorted insert_name are_distinct sorted_checks insert_check
    check_le
compiled_first = refl

pub compiled_again : compile_plan varied goal draft (some plan) ≡ ok second_plan
unfolding varied_json is_int compile_plan is_draft has_task_count compile_task is_task_draft
    has_odd_counts catalog find_check covered lineage plan_id_of take suffix_of goal_digest
    task_digest json_digest get find keys has_exactly is_text after_prefix new_task new_plan
    check_revision set_of insert_task sorted_tasks validate_writer_order are_chained is_below
    ancestors_along union_ancestors ancestors_of find_task by_id writers topological_order resolve
    ready keep is_ready without dependencies_of identifier is_identifier fullmatch is_odd_objective
    is_blank utf8_length is_commit is_digest path_tuple each text_of repository_path starts_with
    has_parent is_slashes without_slashes sorted insert_name are_distinct sorted_checks insert_check
    check_le
compiled_again = refl

pub plan_kept : new_plan plan ≡ ok plan
unfolding new_plan check_revision insert_task sorted_tasks validate_writer_order are_chained
    is_below ancestors_along union_ancestors ancestors_of find_task by_id writers topological_order
    resolve ready keep is_ready without dependencies_of identifier is_identifier fullmatch is_commit
    is_digest after_prefix sorted insert_name are_distinct
plan_kept = refl

pub checks-IsReadable : All (IsReadable host) goal.verification_checks
unfolding IsReadable new_check identifier is_identifier fullmatch is_executable utf8_length
    are_not_blank is_blank
checks-IsReadable = ((refl, refl), ((refl, refl), tt))

pub tasks-IsKept : All (IsKept host) plan.tasks
unfolding IsKept IsReadable new_task new_check identifier is_identifier fullmatch is_executable
    utf8_length are_not_blank is_blank is_odd_objective set_of path_tuple each text_of
    repository_path starts_with has_parent is_slashes without_slashes sorted insert_name
    are_distinct sorted_checks insert_check check_le
tasks-IsKept = ((refl, ((refl, refl), tt)), ((refl, ((refl, refl), tt)), tt))

pub ordered : topological_order (dependencies plan.tasks) ≡ ok ("edit" ∷ "run-tests" ∷ [])
unfolding topological_order resolve ready keep is_ready without sorted insert_name dependencies_of
ordered = refl

pub repaired : route goal edit failed 1 0 false ≡ AttemptRoute.repairable
unfolding route
repaired = refl

pub hex : HasHexDigests host
unfolding HasHexDigests is_digest after_prefix
hex = λ text. refl

pub run_named : is_identifier "run" ≡ true
unfolding is_identifier fullmatch
run_named = refl

pub paths_kept : path_tuple host edit.allowed_paths ≡ ok edit.allowed_paths
unfolding path_tuple each text_of repository_path is_blank starts_with has_parent is_slashes
    without_slashes sorted insert_name are_distinct
paths_kept = refl

-- A path may end in a dot once its slashes are gone, and is then no path any more.
dotted : repository_path host "./" ≡ ok "."
unfolding repository_path text_of is_blank starts_with has_parent is_slashes without_slashes
dotted = refl

dotted_again : repository_path host "." ≡ err invalid_execution_contract
unfolding repository_path text_of is_blank starts_with has_parent is_slashes without_slashes
dotted_again = refl

-- A check may have a blank argument, which `_text` refuses.
abbrev blank_check : VerificationCheck
blank_check = record { check_id = "blank"; argv = "echo" ∷ " " ∷ []; expected_exit_code = 0 }

blank_made : new_check blank_check ≡ ok blank_check
unfolding new_check identifier is_identifier fullmatch is_executable utf8_length
blank_made = refl

blank_unread : text_of host " " ≡ err invalid_execution_contract
unfolding text_of is_blank
blank_unread = refl

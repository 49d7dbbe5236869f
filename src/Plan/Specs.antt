-- ===== src/Plan/Specs.antt =====
-- orchestration/execution_plan.py: `VerificationCheck`, `GoalSpec` and `TaskSpec`. A constructor takes
-- the fields as they are given and returns the object, in which `__post_init__` has sorted some of
-- them, or raises. The annotations of the fields are their types here; a count that the source wants
-- to be at least 0 or 1 is a natural number.
use Prim.Native.String
use Prim.Native.Nat.{Ordering}
use blackcell.Prelude.{
  ℕ, String, Bool, true, false, List, [], ◌∷◌, ◌&&◌, ◌||◌, not, ◌==◌, ltb, leb, str_eq, length, any,
  map, ok, ◌>>=◌, ◌>>◌, if◌then◌else◌,
}
use blackcell.Prelude.Text.{texts_eq, codes, is_alnum}
use blackcell.Prelude.Patterns.{fullmatch, is_commit, utf8_length, has_code}
use blackcell.Host.{Host}
use blackcell.Kernel.Event.{is_blank}
use blackcell.Lifecycle.Fold.{contains, sorted}
use blackcell.Plan.{Result, refuse}
use blackcell.Plan.Texts.{
  is_identifier, identifier, are_distinct, set_of, path_tuple, bounded_text_tuple,
}

pub record VerificationCheck : Type 0 where
  pub check_id : String
  pub argv : List String
  pub expected_exit_code : ℕ

pub record GoalSpec : Type 0 where
  pub goal_id : String
  pub project_id : String
  pub intent_id : String
  pub objective : String
  pub base_commit : String
  pub constraints : List String
  pub allowed_paths : List String
  pub verification_checks : List VerificationCheck
  pub max_attempts : ℕ
  pub same_error_limit : ℕ
  pub schema_version : String

-- `task_digest` is worked out from the other fields, by `task_digest` of `Plan.Payload`
pub record TaskSpec : Type 0 where
  pub task_id : String
  pub objective : String
  pub depends_on : List String
  pub allowed_paths : List String
  pub checks : List VerificationCheck
  pub max_attempts : ℕ

abbrev is_executable_code : ℕ → Bool
is_executable_code c = is_alnum c || c == b'.' || c == b'_' || c == b'+' || c == b'-'

-- `_SAFE_EXECUTABLE.fullmatch(argv[0]) is not None`
unfoldable pub is_executable : List String → Bool
unfolding fullmatch
is_executable [] = false
is_executable (program ∷ _) = fullmatch is_alnum is_executable_code 63 (codes program)

is_odd_token : String → Bool
unfolding utf8_length
is_odd_token token =
    str_eq token "" || has_code 0 (codes token) || ltb 4096 (utf8_length (codes token))

-- `VerificationCheck.__post_init__`
unfoldable pub new_check : VerificationCheck → Result VerificationCheck
unfolding is_odd_token is_executable
new_check check = do
  _ ← identifier check.check_id
  refuse (not (leb 1 (length check.argv) && leb (length check.argv) 64))
  refuse (any is_odd_token check.argv)
  refuse (not (is_executable check.argv))
  refuse (not (leb check.expected_exit_code 255))
  ok check

-- `<=` on tuples of strings
texts_le : List String → List String → Bool
texts_le [] ys = true
texts_le (a ∷ xs) [] = false
texts_le (a ∷ xs) (b ∷ ys) =
    let rest = texts_le xs ys in
    elim (String.compare a b) [ Ordering.lt ↦ true | Ordering.eq ↦ rest | Ordering.gt ↦ false ]

-- `<=` of the dataclass: by its fields in order
unfoldable pub check_le : VerificationCheck → VerificationCheck → Bool
unfolding texts_le texts_eq
check_le a b = elim (String.compare a.check_id b.check_id) [
  | Ordering.lt ↦ true
  | Ordering.gt ↦ false
  | Ordering.eq ↦
      if texts_eq a.argv b.argv
      then leb a.expected_exit_code b.expected_exit_code
      else texts_le a.argv b.argv
]

unfoldable pub insert_check : VerificationCheck → List VerificationCheck → List VerificationCheck
unfolding check_le
insert_check c [] = c ∷ []
insert_check c (d ∷ ds) =
    let rest = insert_check c ds in if check_le c d then c ∷ d ∷ ds else d ∷ rest

-- `tuple(sorted(checks))`
unfoldable pub sorted_checks : List VerificationCheck → List VerificationCheck
sorted_checks [] = []
sorted_checks (c ∷ cs) = insert_check c (sorted_checks cs)

-- `[item.check_id for item in checks]`
abbrev pub check_ids : List VerificationCheck → List String
check_ids checks = map (λ (c : VerificationCheck). c.check_id) checks

module _ (host : Host) where
  -- the two checks of an objective
  unfoldable pub is_odd_objective : String → Bool
  unfolding utf8_length
  is_odd_objective objective = is_blank host objective || ltb 16384 (utf8_length (codes objective))

  -- `GoalSpec.__post_init__`
  unfoldable pub new_goal : GoalSpec → Result GoalSpec
  new_goal goal = do
    refuse (not (str_eq goal.schema_version "blackcell.goal/v2"))
    _ ← identifier goal.goal_id
    _ ← identifier goal.project_id
    _ ← identifier goal.intent_id
    refuse (is_odd_objective goal.objective)
    refuse (not (is_commit goal.base_commit))
    constraints ← bounded_text_tuple host goal.constraints 64
    paths ← path_tuple host goal.allowed_paths
    refuse
        (not (leb 1 (length goal.verification_checks) && leb (length goal.verification_checks) 32))
    let checks = sorted_checks goal.verification_checks
    refuse (not (are_distinct (check_ids checks)))
    refuse (
        not (leb 1 goal.max_attempts && leb goal.max_attempts 3)
        || not (leb 1 goal.same_error_limit && leb goal.same_error_limit 2))
    ok (record goal {
      constraints = constraints;
      allowed_paths = paths;
      verification_checks = checks;
    })

  -- `TaskSpec.__post_init__`
  unfoldable pub new_task : TaskSpec → Result TaskSpec
  unfolding set_of
  new_task task = do
    _ ← identifier task.task_id
    refuse (is_odd_objective task.objective)
    let dependencies = sorted (set_of task.depends_on)
    refuse
        (contains dependencies task.task_id || any (λ item. not (is_identifier item)) dependencies)
    paths ← path_tuple host task.allowed_paths
    let checks = sorted_checks task.checks
    refuse (length checks == 0 || ltb 32 (length checks))
    refuse (not (are_distinct (check_ids checks)))
    refuse (not (leb 1 task.max_attempts && leb task.max_attempts 3))
    ok (record task { depends_on = dependencies; allowed_paths = paths; checks = checks })

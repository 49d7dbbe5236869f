-- ===== src/Plan/Samples.antt =====
-- A goal, a draft of two tasks and the plan that is compiled from them.

use blackcell.Prelude.{pos, str_eq, if◌then◌else◌, true, false, String, some, none, [], ◌∷◌}
use blackcell.Json.{Json, text, arr, obj, Fields, dict, list_of, get, find}
use blackcell.Samples.{host, digest, commit, hash}
use blackcell.Host.{Host}
use blackcell.Json.Equality.{is_int}
use blackcell.Plan.Specs.{VerificationCheck, GoalSpec, TaskSpec}
use blackcell.Plan.Whole.{Plan}
use blackcell.Plan.Policy.{FailureClass, AttemptEvidence}

abbrev pub build_check : VerificationCheck
build_check = record { check_id = "build"; argv = "make" ∷ []; expected_exit_code = 0 }

abbrev pub test_check : VerificationCheck
test_check = record { check_id = "test"; argv = "pytest" ∷ "-q" ∷ []; expected_exit_code = 0 }

-- as it is asked for, and as its constructor leaves it
abbrev pub given_goal : GoalSpec
given_goal = record {
  goal_id = "goal";
  project_id = "project";
  intent_id = "intent";
  objective = "Fix it";
  base_commit = commit;
  constraints = [];
  allowed_paths = "tests/" ∷ "src" ∷ [];
  verification_checks = test_check ∷ build_check ∷ [];
  max_attempts = 2;
  same_error_limit = 1;
  schema_version = "blackcell.goal/v2";
}

abbrev pub goal : GoalSpec
goal = record given_goal {
  allowed_paths = "src" ∷ "tests" ∷ [];
  verification_checks = build_check ∷ test_check ∷ [];
}

-- the planner's draft: the tests are a task behind the build
abbrev pub draft : Fields
draft = dict (
    ("schema_version", text "blackcell.plan-draft/v1")
    ∷ (
      "tasks",
      arr (
          list_of obj (
            dict (
              ("task_id", text "run-tests")
              ∷ ("objective", text "Test it")
              ∷ ("depends_on", arr (list_of text ("edit" ∷ [])))
              ∷ ("allowed_paths", arr (list_of text ("tests" ∷ [])))
              ∷ ("checks", arr (list_of text ("test" ∷ [])))
              ∷ [])
            ∷ dict (
                ("task_id", text "edit")
                ∷ ("objective", text "Edit it")
                ∷ ("depends_on", arr (list_of text []))
                ∷ ("allowed_paths", arr (list_of text ("src" ∷ [])))
                ∷ ("checks", arr (list_of text ("build" ∷ [])))
                ∷ [])
            ∷ [])),
    )
    ∷ [])

abbrev pub edit : TaskSpec
edit = record {
  task_id = "edit";
  objective = "Edit it";
  depends_on = [];
  allowed_paths = "src" ∷ [];
  checks = build_check ∷ [];
  max_attempts = 2;
}

abbrev pub run_tests : TaskSpec
run_tests = record {
  task_id = "run-tests";
  objective = "Test it";
  depends_on = "edit" ∷ [];
  allowed_paths = "tests" ∷ [];
  checks = test_check ∷ [];
  max_attempts = 2;
}

abbrev pub plan : Plan
plan = record {
  plan_id = "plan-00112233445566778899aabbccddeeff";
  goal_id = "goal";
  project_id = "project";
  intent_id = "intent";
  plan_revision = 1;
  supersedes_plan_id = none;
  base_commit = commit;
  draft_digest = digest;
  tasks = edit ∷ run_tests ∷ [];
  schema_version = "blackcell.plan/v2";
}

-- a host that gives a second plan another digest
unfoldable pub varied_json : Json → String
unfolding get find
varied_json (obj fields) = if is_int (get "plan_version" fields) (pos 2) then "2" else "{}"
varied_json _ = "{}"

abbrev pub varied : Host
varied = record host {
  canonical_json = varied_json;
  sha256 = λ t.
      if str_eq t "2"
      then "ffeeddccbbaa99887766554433221100ffeeddccbbaa99887766554433221100"
      else hash;
}

abbrev pub second_plan : Plan
second_plan = record plan {
  plan_id = "plan-ffeeddccbbaa99887766554433221100";
  plan_revision = 2;
  supersedes_plan_id = some "plan-00112233445566778899aabbccddeeff";
}

abbrev pub failed : AttemptEvidence
failed = record {
  workspace_clean = true;
  verifier_exit_code = 1;
  required_checks_passed = false;
  failure_class = some FailureClass.logic_bug;
  failure_summary = some "1 failed";
  artifact_digests = digest ∷ [];
  progress_digests = digest ∷ [];
  head_commit = commit;
  input_tokens = none;
  output_tokens = none;
  latency_ms = 0;
  cost_microusd = none;
  schema_version = "blackcell.attempt-evidence/v1";
}

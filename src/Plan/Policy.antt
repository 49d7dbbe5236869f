-- ===== src/Plan/Policy.antt =====
-- orchestration/execution_plan.py: the requests, decisions and evidence of task attempts, and
-- `ExecutionPolicyKernel`.
pub mod Repair
use Prim.Native.String
use blackcell.Prelude.{
  ℕ, min, String, Bool, true, false, Option, none, some, List, [], ◌∷◌, ◌++◌, ◌&&◌, ◌||◌, not, ◌==◌,
  ltb, leb, str_eq, length, all, ok, is_some, ◌>>=◌, ◌>>◌, if◌then◌else◌,
}
use blackcell.Prelude.Text.{texts_eq, codes}
use blackcell.Prelude.Patterns.{is_commit, is_digest, utf8_length}
use blackcell.Json.{bool, obj, text, dict}
use blackcell.Host.{Host, json_digest}
use blackcell.Kernel.Event.{is_blank}
use blackcell.Lifecycle.Fold.{contains, sorted}
use blackcell.Plan.{Result, refuse}
use blackcell.Plan.Texts.{is_identifier, identifier, set_of, path_tuple}
use blackcell.Plan.Specs.{GoalSpec, TaskSpec}
use blackcell.Plan.Whole.{Plan}
use blackcell.Plan.Payload.{number, texts}
use blackcell.Gateway.{GatewayBudget}

pub data FailureClass : Type 0 where
  transient logic_bug contract_mismatch missing_dependency : FailureClass
  invalid_assumption policy unclassified : FailureClass

pub data AttemptRoute : Type 0 where
  succeeded repairable replan_required blocked escalated terminal_failure : AttemptRoute

pub record ExecutionAuthority : Type 0 where
  pub budget : GatewayBudget
  pub check_timeout_seconds : ℕ
  pub max_changed_paths : ℕ
  pub consumed_budget : GatewayBudget
  pub input_tokens_complete : Bool
  pub output_tokens_complete : Bool
  pub cost_microusd_complete : Bool

pub record ToolActionRequest : Type 0 where
  pub run_id : String
  pub plan_id : String
  pub task_id : String
  pub attempt : ℕ
  pub capability : String
  pub allowed_paths : List String
  pub destructive : Bool

-- `decision_id` is worked out from the other fields, by `decision_id`
pub record PolicyDecision : Type 0 where
  pub allowed : Bool
  pub reason : String
  pub action_digest : String

pub record AttemptEvidence : Type 0 where
  pub workspace_clean : Bool
  pub verifier_exit_code : ℕ
  pub required_checks_passed : Bool
  pub failure_class : Option FailureClass
  pub failure_summary : Option String
  pub artifact_digests : List String
  pub progress_digests : List String
  pub head_commit : String
  pub input_tokens : Option ℕ
  pub output_tokens : Option ℕ
  pub latency_ms : ℕ
  pub cost_microusd : Option ℕ
  pub schema_version : String

-- `ExecutionAuthority.__post_init__`
unfoldable pub new_authority : ExecutionAuthority → Result ExecutionAuthority
new_authority authority = do
  let budget = authority.budget
  let consumed = authority.consumed_budget
  refuse (
      ltb budget.max_input_tokens consumed.max_input_tokens
      || ltb budget.max_output_tokens consumed.max_output_tokens
      || ltb budget.max_latency_ms consumed.max_latency_ms
      || ltb budget.max_cost_microusd consumed.max_cost_microusd
      || not (leb 1 authority.check_timeout_seconds && leb authority.check_timeout_seconds 600)
      || not (leb authority.max_changed_paths 10000))
  ok authority

-- `PolicyDecision.__post_init__`
unfoldable pub new_decision : PolicyDecision → Result PolicyDecision
unfolding is_identifier is_digest
new_decision decision = do
  refuse (not (is_identifier decision.reason) || not (is_digest decision.action_digest))
  ok decision

module _ (host : Host) where
  -- `ToolActionRequest.__post_init__`
  unfoldable pub new_request : ToolActionRequest → Result ToolActionRequest
  new_request request = do
    _ ← identifier request.run_id
    _ ← identifier request.plan_id
    _ ← identifier request.task_id
    _ ← identifier request.capability
    refuse (ltb request.attempt 1)
    paths ← path_tuple host request.allowed_paths
    ok (record request { allowed_paths = paths })

  -- `ToolActionRequest.digest`
  unfoldable pub request_digest : ToolActionRequest → String
  request_digest request = json_digest host (
      obj (
        dict (
          ("run_id", text request.run_id)
          ∷ ("plan_id", text request.plan_id)
          ∷ ("task_id", text request.task_id)
          ∷ ("attempt", number request.attempt)
          ∷ ("capability", text request.capability)
          ∷ ("allowed_paths", texts request.allowed_paths)
          ∷ ("destructive", bool request.destructive)
          ∷ [])))

  -- `PolicyDecision.decision_id`
  unfoldable pub decision_id : PolicyDecision → String
  decision_id decision = json_digest host (
      obj (
        dict (
          ("allowed", bool decision.allowed)
          ∷ ("reason", text decision.reason)
          ∷ ("action_digest", text decision.action_digest)
          ∷ [])))

  is_odd_failure : Option FailureClass → Option String → Bool
  unfolding utf8_length
  is_odd_failure (some _) (some summary) =
      is_blank host summary || ltb 4096 (utf8_length (codes summary))
  is_odd_failure _ _ = true

  -- `AttemptEvidence.__post_init__`
  unfoldable pub new_evidence : AttemptEvidence → Result AttemptEvidence
  unfolding is_odd_failure set_of
  new_evidence evidence = do
    refuse (not (str_eq evidence.schema_version "blackcell.attempt-evidence/v1"))
    refuse (not (leb evidence.verifier_exit_code 255) || not (is_commit evidence.head_commit))
    refuse (
        if evidence.verifier_exit_code == 0 && evidence.required_checks_passed
        then is_some evidence.failure_class || is_some evidence.failure_summary
        else is_odd_failure evidence.failure_class evidence.failure_summary)
    refuse (length evidence.artifact_digests == 0 || length evidence.progress_digests == 0)
    let artifact_digests = sorted (set_of evidence.artifact_digests)
    let progress_digests = sorted (set_of evidence.progress_digests)
    refuse (not (all is_digest (artifact_digests ++ progress_digests)))
    refuse (not (all (contains artifact_digests) progress_digests))
    ok (record evidence {
      artifact_digests = artifact_digests;
      progress_digests = progress_digests;
    })

-- the condition of `authorize`
unfoldable pub is_out_of_scope : GoalSpec → Plan → TaskSpec → ToolActionRequest → Bool
unfolding texts_eq
is_out_of_scope goal plan task request =
    str_eq request.run_id ""
    || not (str_eq request.plan_id plan.plan_id)
    || not (str_eq request.task_id task.task_id)
    || not (str_eq request.capability "repository-task")
    || request.destructive
    || not (leb 1 request.attempt && leb request.attempt (min goal.max_attempts task.max_attempts))
    || not (all (contains goal.allowed_paths) request.allowed_paths)
    || not (texts_eq request.allowed_paths task.allowed_paths)

-- `ExecutionPolicyKernel.authorize`
unfoldable pub authorize :
    Host → GoalSpec → Plan → TaskSpec → ToolActionRequest → Result PolicyDecision
authorize host goal plan task request =
    let denied = new_decision (record {
      allowed = false;
      reason = "intent-scope-violation";
      action_digest = request_digest host request;
    }) in
    let granted = new_decision (record {
      allowed = true;
      reason = "bounded-task-authorized";
      action_digest = request_digest host request;
    }) in
    if is_out_of_scope goal plan task request then denied else granted

abbrev calls_replan : Option FailureClass → Bool
calls_replan (some FailureClass.missing_dependency) = true
calls_replan (some FailureClass.invalid_assumption) = true
calls_replan _ = false

abbrev calls_repair : Option FailureClass → Bool
calls_repair (some FailureClass.transient) = true
calls_repair (some FailureClass.logic_bug) = true
calls_repair (some FailureClass.contract_mismatch) = true
calls_repair _ = false

abbrev calls_policy : Option FailureClass → Bool
calls_policy (some FailureClass.policy) = true
calls_policy _ = false

-- `ExecutionPolicyKernel.route`
unfoldable pub route :
    GoalSpec
    → TaskSpec
    → AttemptEvidence
    → (attempt same_error_count : ℕ) (new_evidence : Bool) → AttemptRoute
route goal task evidence attempt same_error_count new_evidence =
    if not evidence.workspace_clean
    then AttemptRoute.blocked
    else if evidence.verifier_exit_code == 0 && evidence.required_checks_passed
    then AttemptRoute.succeeded
    else if calls_replan evidence.failure_class
    then AttemptRoute.replan_required
    else if leb goal.same_error_limit same_error_count && not new_evidence
    then AttemptRoute.escalated
    else if leb (min goal.max_attempts task.max_attempts) attempt
    then AttemptRoute.escalated
    else if calls_repair evidence.failure_class
    then AttemptRoute.repairable
    else if calls_policy evidence.failure_class
    then AttemptRoute.blocked
    else AttemptRoute.terminal_failure

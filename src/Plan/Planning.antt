-- ===== src/Plan/Planning.antt =====
-- orchestration/execution_plan.py: what passes between the host and a planner, and the candidates for
-- promotion. The draft of a result is a mapping of frozen JSON already.

use blackcell.Prelude.{
  ℕ, String, Option, List, any, all, length, not, ◌||◌, ◌==◌, str_eq, ok, ◌>>=◌, ◌>>◌,
}
use blackcell.Prelude.Patterns.{is_digest}
use blackcell.Json.{Fields}
use blackcell.Gateway.{DataClassification, LocalityPolicy, GatewayBudget}
use blackcell.Plan.{Result, refuse}
use blackcell.Plan.Texts.{identifier}
use blackcell.Plan.Specs.{GoalSpec}

pub record PlanningRequest : Type 0 where
  pub goal : GoalSpec
  pub classification : DataClassification
  pub locality : LocalityPolicy
  pub budget : GatewayBudget
  pub estimated_input_tokens : ℕ
  pub correlation_id : String
  pub run_id : String

pub record PlanningResult : Type 0 where
  pub draft : Fields
  pub provider_output_digest : String
  pub profile_id : String
  pub adapter_id : String
  pub model_id : String
  pub input_tokens : Option ℕ
  pub output_tokens : Option ℕ
  pub latency_ms : ℕ
  pub cost_microusd : Option ℕ

pub record PraxisPromotionCandidate : Type 0 where
  pub candidate_id : String
  pub run_id : String
  pub plan_id : String
  pub task_id : String
  pub kind : String
  pub evidence_event_ids : List String
  pub evidence_digests : List String
  pub schema_version : String

-- `PlanningRequest.__post_init__`
unfoldable pub new_planning_request : PlanningRequest → Result PlanningRequest
new_planning_request request = do
  _ ← identifier request.correlation_id
  _ ← identifier request.run_id
  ok request

-- `PlanningResult.__post_init__`
unfoldable pub new_planning_result : PlanningResult → Result PlanningResult
new_planning_result result = do
  refuse (not (is_digest result.provider_output_digest))
  _ ← identifier result.profile_id
  _ ← identifier result.adapter_id
  _ ← identifier result.model_id
  ok result

-- `PraxisPromotionCandidate.__post_init__`
unfoldable pub new_candidate : PraxisPromotionCandidate → Result PraxisPromotionCandidate
new_candidate candidate = do
  refuse (not (str_eq candidate.schema_version "praxis-promotion-candidate/v1"))
  _ ← identifier candidate.candidate_id
  _ ← identifier candidate.run_id
  _ ← identifier candidate.plan_id
  _ ← identifier candidate.task_id
  _ ← identifier candidate.kind
  refuse (
      length candidate.evidence_event_ids == 0
      || any (λ e. str_eq e "") candidate.evidence_event_ids)
  refuse (not (all is_digest candidate.evidence_digests))
  ok candidate

-- ===== src/Gateway/Call.antt =====
-- gateway/router.py: the gateway's constructor, the prepared call with its checks, and the lookup of
-- its route.
use blackcell.Prelude.{
  ℕ, min, String, Bool, true, false, Option, none, some, List, [], ◌∷◌, ◌&&◌, not, ◌==◌, ltb,
  str_eq, ok, err, ◌>>=◌, ◌>>◌, raise_if, if◌then◌else◌,
}
use blackcell.Json.{obj, Fields}
use blackcell.Json.Equality.{equals}
use blackcell.Gateway.{
  ModelCapability, same_capability, level, is_local_only, GatewayFailureCode, GatewayBudget,
  ModelRequest, admission, value_error, Result, GatewayProfile, ModelAdapter, ModelGateway,
  find_adapter, are_unique, Route, select, DataClassification,
}

pub record RoutingDecision : Type 0 where
  pub profile_id : String
  pub adapter_id : String
  pub model_id : String
  pub capability : ModelCapability
  pub local : Bool
  pub deterministic : Bool

pub record PreparedGatewayCall : Type 0 where
  pub request : ModelRequest
  pub decision : RoutingDecision
  pub effective_budget : GatewayBudget

pub record ModelResponse : Type 0 where
  pub request_id : String
  pub output : Fields
  pub profile_id : String
  pub adapter_id : String
  pub model_id : String
  pub input_tokens : Option ℕ
  pub output_tokens : Option ℕ
  pub latency_ms : ℕ
  pub cost_microusd : Option ℕ
  pub deterministic : Bool
  pub completed_at : ℕ

pub record GatewayAuditRecord : Type 0 where
  pub request_id : String
  pub capability : ModelCapability
  pub classification : DataClassification
  pub profile_id : String
  pub adapter_id : String
  pub model_id : String
  pub correlation_id : String
  pub run_id : String
  pub node_id : String
  pub input_tokens : Option ℕ
  pub output_tokens : Option ℕ
  pub latency_ms : ℕ
  pub cost_microusd : Option ℕ
  pub deterministic : Bool

pub record GatewayResult : Type 0 where
  pub decision : RoutingDecision
  pub response : ModelResponse

-- `ModelGateway.__init__`, where an adapter's key is its name
unfoldable pub new_gateway : List GatewayProfile → List ModelAdapter → Result ModelGateway
new_gateway profiles adapters = do
  raise_if (not (are_unique profiles)) value_error
  ok (record { profiles = profiles; adapters = adapters })

-- `_effective_budget`
unfoldable pub effective_budget : ModelRequest → GatewayProfile → GatewayBudget
effective_budget request profile = record {
  max_input_tokens = min request.budget.max_input_tokens profile.max_input_tokens;
  max_output_tokens = min request.budget.max_output_tokens profile.max_output_tokens;
  max_latency_ms = request.budget.max_latency_ms;
  max_cost_microusd = min request.budget.max_cost_microusd profile.max_cost_microusd;
}

-- `_decision`
unfoldable pub decision_of : ModelRequest → Route → RoutingDecision
decision_of request (profile, adapter) = record {
  profile_id = profile.profile_id;
  adapter_id = adapter.adapter_id;
  model_id = profile.model_id;
  capability = request.capability;
  local = adapter.local;
  deterministic = adapter.deterministic;
}

-- `PreparedGatewayCall.__post_init__`
unfoldable pub post_init : PreparedGatewayCall → Result PreparedGatewayCall
post_init call = do
  let r = call.request
  raise_if (not (same_capability call.decision.capability r.capability)) value_error
  raise_if (is_local_only r.locality && not call.decision.local) value_error
  raise_if (r.deterministic_required && not call.decision.deterministic) value_error
  raise_if (ltb r.budget.max_input_tokens call.effective_budget.max_input_tokens) value_error
  raise_if (ltb r.budget.max_output_tokens call.effective_budget.max_output_tokens) value_error
  raise_if (ltb r.budget.max_latency_ms call.effective_budget.max_latency_ms) value_error
  raise_if (ltb r.budget.max_cost_microusd call.effective_budget.max_cost_microusd) value_error
  ok call

-- `ModelGateway.prepare`
unfoldable pub prepare : ModelGateway → ModelRequest → Result PreparedGatewayCall
prepare gateway request = do
  route ← select gateway request
  post_init (record {
    request = request;
    decision = decision_of request route;
    effective_budget = effective_budget request route.0;
  })

-- equality of the frozen data classes
abbrev same_bool : Bool → Bool → Bool
same_bool true b = b
same_bool false b = not b

abbrev same_option : Option String → Option String → Bool
same_option none none = true
same_option (some s) (some t) = str_eq s t
same_option _ _ = false

unfoldable pub same_budget : GatewayBudget → GatewayBudget → Bool
same_budget a b =
    a.max_input_tokens == b.max_input_tokens
    && a.max_output_tokens == b.max_output_tokens
    && a.max_latency_ms == b.max_latency_ms
    && a.max_cost_microusd == b.max_cost_microusd

unfoldable pub same_request : ModelRequest → ModelRequest → Bool
unfolding same_budget
same_request a b =
    str_eq a.request_id b.request_id
    && same_capability a.capability b.capability
    && equals (obj a.input) (obj b.input)
    && equals (obj a.output_schema) (obj b.output_schema)
    && level a.classification == level b.classification
    && same_bool (is_local_only a.locality) (is_local_only b.locality)
    && same_budget a.budget b.budget
    && a.estimated_input_tokens == b.estimated_input_tokens
    && str_eq a.correlation_id b.correlation_id
    && str_eq a.run_id b.run_id
    && str_eq a.node_id b.node_id
    && same_bool a.deterministic_required b.deterministic_required
    && same_option a.causation_id b.causation_id
    && same_bool a.tools_allowed b.tools_allowed

unfoldable pub same_decision : RoutingDecision → RoutingDecision → Bool
same_decision a b =
    str_eq a.profile_id b.profile_id
    && str_eq a.adapter_id b.adapter_id
    && str_eq a.model_id b.model_id
    && same_capability a.capability b.capability
    && same_bool a.local b.local
    && same_bool a.deterministic b.deterministic

-- `call == expected`
unfoldable pub same_call : PreparedGatewayCall → PreparedGatewayCall → Bool
same_call a b =
    same_request a.request b.request
    && same_decision a.decision b.decision
    && same_budget a.effective_budget b.effective_budget

unfoldable pub find_profile : String → List GatewayProfile → Option GatewayProfile
find_profile k [] = none
find_profile k (p ∷ rest) = if str_eq p.profile_id k then some p else find_profile k rest

abbrev pub both : Option GatewayProfile → Option ModelAdapter → Result Route
both (some profile) (some adapter) = ok (profile, adapter)
both _ _ = err (admission GatewayFailureCode.prepared_call_invalid none)

-- `_profile_adapter`
unfoldable pub profile_adapter : ModelGateway → RoutingDecision → Result Route
profile_adapter gateway decision =
    both (find_profile decision.profile_id gateway.profiles)
      (find_adapter decision.adapter_id gateway.adapters)

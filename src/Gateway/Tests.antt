-- ===== src/Gateway/Tests.antt =====
-- The theorems on the gateway at two profiles and one adapter.

use blackcell.Prelude.{
  ℕ, ◌≡◌, ◌≤◌, refl, String, Bool, true, false, none, some, [], ◌∷◌, ◌&&◌, not, any, ok,
}
use blackcell.Json.{Fields, end, keys, find}
use blackcell.Json.Equality.{equals}
use blackcell.Host.{json_digest}
use blackcell.Prelude.Text.{after_prefix, parses_hex}
use blackcell.Samples.{host}
use blackcell.Gateway.{
  ModelCapability, DataClassification, LocalityPolicy, ModelRequest, AdapterResult, GatewayProfile,
  ModelAdapter, ModelGateway, Route, find_adapter, are_unique, admits, consider, candidates, insert,
  sort, select, same_capability, level,
}
use blackcell.Gateway.Call.{
  PreparedGatewayCall, ModelResponse, GatewayAuditRecord, GatewayResult, effective_budget,
  decision_of, post_init, prepare, same_budget, same_request, same_decision, same_call,
  find_profile, profile_adapter,
}
use blackcell.Gateway.Invoke.{
  exceeds, within_limits, response_to, audit, completion_of, finish, invoke_prepared,
}
use blackcell.Gateway.Selected.{select_least}
use blackcell.Gateway.Within.{Limits, prepare_selected, invoke_prepared_within}

abbrev pub profile : String → ℕ → GatewayProfile
profile name priority = record {
  profile_id = name;
  capability = ModelCapability.code;
  adapter_id = "local";
  model_id = "m";
  priority = priority;
  local = true;
  deterministic = true;
  maximum_classification = DataClassification.private;
  max_input_tokens = 100;
  max_output_tokens = 100;
  max_cost_microusd = 10;
  enabled = true;
}

abbrev pub used : AdapterResult
used = record {
  output = end;
  input_tokens = some 40;
  output_tokens = some 30;
  latency_ms = 7;
  cost_microusd = none;
  deterministic = true;
}

abbrev pub adapter : ModelAdapter
adapter = record {
  adapter_id = "local";
  capabilities = ModelCapability.review ∷ ModelCapability.code ∷ [];
  local = true;
  deterministic = true;
  invoke = λ request model. used;
}

abbrev pub gateway : ModelGateway
gateway = record { profiles = profile "b" 2 ∷ profile "a" 1 ∷ []; adapters = adapter ∷ [] }

abbrev pub request : ModelRequest
request = record {
  request_id = "q";
  capability = ModelCapability.code;
  input = end;
  output_schema = end;
  classification = DataClassification.internal;
  locality = LocalityPolicy.local_only;
  budget = record {
    max_input_tokens = 50;
    max_output_tokens = 200;
    max_latency_ms = 9;
    max_cost_microusd = 5;
  };
  estimated_input_tokens = 45;
  correlation_id = "c";
  run_id = "r";
  node_id = "n";
  deterministic_required = true;
  causation_id = none;
  tools_allowed = false;
}

abbrev route : Route
route = (profile "a" 1, adapter)

unique : are_unique gateway.profiles ≡ true
unfolding are_unique
unique = refl

chosen : select gateway request ≡ ok route
unfolding select sort insert candidates consider admits find_adapter
chosen = refl

other : find_profile "b" gateway.profiles ≡ some (profile "b" 2)
unfolding find_profile
other = refl

served : find_adapter "local" gateway.adapters ≡ some adapter
unfolding find_adapter
served = refl

other_admitted : admits request (profile "b" 2) adapter ≡ true
unfolding admits
other_admitted = refl

select_least_example :
    ((profile "a" 1).priority ≤ (profile "b" 2).priority)
    × (any (same_capability ModelCapability.code) adapter.capabilities ≡ true)
    × ((true && not adapter.local) ≡ false)
    × ((true && not adapter.deterministic) ≡ false)
    × (level request.classification ≤ level (profile "a" 1).maximum_classification)
    × (request.estimated_input_tokens ≤ request.budget.max_input_tokens)
    × (request.estimated_input_tokens ≤ (profile "a" 1).max_input_tokens)
select_least_example =
    select_least gateway request route "b" (profile "b" 2) adapter unique chosen other served
      other_admitted

abbrev call : PreparedGatewayCall
call = record {
  request = request;
  decision = decision_of request route;
  effective_budget = effective_budget request (profile "a" 1);
}

prepare_selected_example : prepare gateway request ≡ ok call
prepare_selected_example = prepare_selected gateway request route unique chosen

abbrev pub response : ModelResponse
response = record {
  request_id = "q";
  output = end;
  profile_id = "a";
  adapter_id = "local";
  model_id = "m";
  input_tokens = some 40;
  output_tokens = some 30;
  latency_ms = 7;
  cost_microusd = none;
  deterministic = true;
  completed_at = 8;
}

abbrev answer : GatewayResult × GatewayAuditRecord
answer = (record { decision = call.decision; response = response }, audit request response)

abbrev accept : Fields → Fields → Bool
accept output schema = true

invoked : invoke_prepared host accept 8 gateway call ≡ ok answer
unfolding invoke_prepared prepare post_init select sort insert candidates consider admits
    find_adapter find_profile profile_adapter decision_of effective_budget same_call same_budget
    same_request same_decision equals keys find finish within_limits response_to completion_of
    json_digest audit after_prefix parses_hex
invoked = refl

invoke_prepared_within_example :
    (r : Route) × (select gateway call.request ≡ ok r)
    × Limits call.effective_budget call.request r.0
    × (exceeds (some 40) call.effective_budget.max_input_tokens ≡ false)
    × (exceeds (some 30) call.effective_budget.max_output_tokens ≡ false)
    × (response.latency_ms ≤ call.effective_budget.max_latency_ms)
    × (exceeds none call.effective_budget.max_cost_microusd ≡ false)
    × (accept end end ≡ true)
invoke_prepared_within_example =
    invoke_prepared_within host accept 8 gateway call answer unique invoked

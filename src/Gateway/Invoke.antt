-- ===== src/Gateway/Invoke.antt =====
-- gateway/router.py: the invocation of a prepared call. `validate` says whether an output
-- has a schema, as `Gateway.Schema.Keywords.validate_output` does; `now` is what the clock shows.
use blackcell.Prelude.{
  ℕ, String, Bool, false, Option, none, some, ◌&&◌, not, ◌==◌, ltb, length, ok, ◌>>=◌, ◌>>◌,
  raise_if,
}
use blackcell.Prelude.Text.{codes, after_prefix, parses_hex}
use blackcell.Json.{obj, Fields}
use blackcell.Host.{Host, json_digest}
use blackcell.Gateway.{
  GatewayFailureCode, ModelRequest, AdapterResult, GatewayCompletion, admission, output_schema,
  value_error, Result, GatewayProfile, ModelGateway, Route,
}
use blackcell.Gateway.Call.{
  PreparedGatewayCall, ModelResponse, GatewayAuditRecord, GatewayResult, prepare, same_call,
  profile_adapter,
}

-- `value is not None and value > limit`
abbrev pub exceeds : Option ℕ → ℕ → Bool
exceeds none limit = false
exceeds (some value) limit = ltb limit value

-- the checks of a result, each with its code, in the order of `invoke_prepared`
unfoldable pub within_limits :
    ModelRequest → GatewayProfile → AdapterResult → GatewayCompletion → Result (Unit {0})
within_limits request profile result completion = do
  raise_if (exceeds result.input_tokens request.budget.max_input_tokens)
      (admission GatewayFailureCode.adapter_input_budget_exceeded (some completion))
  raise_if (exceeds result.input_tokens profile.max_input_tokens)
      (admission GatewayFailureCode.profile_input_limit_exceeded (some completion))
  raise_if (exceeds result.output_tokens request.budget.max_output_tokens)
      (admission GatewayFailureCode.adapter_output_budget_exceeded (some completion))
  raise_if (exceeds result.output_tokens profile.max_output_tokens)
      (admission GatewayFailureCode.profile_output_limit_exceeded (some completion))
  raise_if (ltb request.budget.max_latency_ms result.latency_ms)
      (admission GatewayFailureCode.adapter_latency_budget_exceeded (some completion))
  raise_if (exceeds result.cost_microusd request.budget.max_cost_microusd)
      (admission GatewayFailureCode.adapter_cost_budget_exceeded (some completion))
  raise_if (exceeds result.cost_microusd profile.max_cost_microusd)
      (admission GatewayFailureCode.profile_cost_limit_exceeded (some completion))
  raise_if (profile.deterministic && not result.deterministic)
      (admission GatewayFailureCode.profile_determinism_violated (some completion))
  raise_if (request.deterministic_required && not result.deterministic)
      (admission GatewayFailureCode.request_determinism_violated (some completion))

-- the response to a result
unfoldable pub response_to :
    ModelRequest → Route → GatewayCompletion → AdapterResult → ModelResponse
response_to request (profile, adapter) completion result = record {
  request_id = request.request_id;
  output = result.output;
  profile_id = profile.profile_id;
  adapter_id = adapter.adapter_id;
  model_id = profile.model_id;
  input_tokens = completion.input_tokens;
  output_tokens = completion.output_tokens;
  latency_ms = completion.latency_ms;
  cost_microusd = completion.cost_microusd;
  deterministic = completion.deterministic;
  completed_at = completion.completed_at;
}

-- `_audit`'s record
unfoldable pub audit : ModelRequest → ModelResponse → GatewayAuditRecord
audit request response = record {
  request_id = request.request_id;
  capability = request.capability;
  classification = request.classification;
  profile_id = response.profile_id;
  adapter_id = response.adapter_id;
  model_id = response.model_id;
  correlation_id = request.correlation_id;
  run_id = request.run_id;
  node_id = request.node_id;
  input_tokens = response.input_tokens;
  output_tokens = response.output_tokens;
  latency_ms = response.latency_ms;
  cost_microusd = response.cost_microusd;
  deterministic = response.deterministic;
}

module _ (host : Host) (validate : Fields → Fields → Bool) (now : ℕ) where
  is_hash : String → Bool
  is_hash s = elim (after_prefix "sha256:" s) [
    | none ↦ false
    | some rest ↦ length (codes rest) == 64 && parses_hex host.ascii_of rest
  ]

  -- `GatewayCompletion(…)`, whose constructor reads the digest again
  unfoldable pub completion_of : AdapterResult → Result GatewayCompletion
  unfolding is_hash
  completion_of result = do
    let digest = json_digest host (obj result.output)
    raise_if (not (is_hash digest)) value_error
    ok (record {
      output_digest = digest;
      input_tokens = result.input_tokens;
      output_tokens = result.output_tokens;
      latency_ms = result.latency_ms;
      cost_microusd = result.cost_microusd;
      deterministic = result.deterministic;
      completed_at = now;
    })

  -- the part of `invoke_prepared` behind the adapter's call, with the record for the audit sink
  unfoldable pub finish :
      PreparedGatewayCall → Route → AdapterResult → Result (GatewayResult × GatewayAuditRecord)
  finish call (profile, adapter) result = do
    completion ← completion_of result
    within_limits call.request profile result completion
    raise_if (not (validate result.output call.request.output_schema)) (output_schema completion)
    let response = response_to call.request (profile, adapter) completion result
    ok (record { decision = call.decision; response = response }, audit call.request response)

  -- `ModelGateway.invoke_prepared`
  unfoldable pub invoke_prepared :
      ModelGateway → PreparedGatewayCall → Result (GatewayResult × GatewayAuditRecord)
  invoke_prepared gateway call = do
    expected ← prepare gateway call.request
    raise_if (not (same_call call expected))
        (admission GatewayFailureCode.prepared_call_invalid none)
    (profile, adapter) ← profile_adapter gateway expected.decision
    let request = record call.request { budget = call.effective_budget }
    finish call (profile, adapter) (adapter.invoke request profile.model_id)

  -- `ModelGateway.invoke`
  unfoldable pub invoke : ModelGateway → ModelRequest → Result (GatewayResult × GatewayAuditRecord)
  invoke gateway request = prepare gateway request >>= invoke_prepared gateway

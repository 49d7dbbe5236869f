-- ===== src/Gateway/Within.antt =====
-- What an answer may have cost.
use blackcell.Prelude.{
  ℕ, min, ◌≡◌, ◌≤◌, ◌∙◌, ap, refl, String, Bool, true, false, Option, none, some, List, [], ◌∷◌,
  ◌&&◌, ltb, arith, ok, inl, inr, Outcome-cases, eq_iff,
}
use blackcell.Json.{Fields}
use blackcell.Host.{Host}
use blackcell.Gateway.{
  ModelCapability, same_capability, ModelRequest, AdapterResult, GatewayBudget, GatewayProfile,
  ModelAdapter, ModelGateway, Route, select, are_unique, find_adapter,
}
use blackcell.Gateway.Call.{
  PreparedGatewayCall, GatewayAuditRecord, GatewayResult, effective_budget, decision_of, post_init,
  prepare, same_budget, same_request, same_decision, same_call, profile_adapter, both,
}
use blackcell.Gateway.Invoke.{
  exceeds, within_limits, response_to, completion_of, finish, invoke_prepared,
}
use blackcell.Gateway.Selected.{selected, admitted_lem}

-- the lesser of what the request and the profile allow, and the request's latency
pub record Limits (budget : GatewayBudget) (request : ModelRequest) (profile : GatewayProfile)
    : Type 0 where
  pub input : budget.max_input_tokens ≡ min request.budget.max_input_tokens profile.max_input_tokens
  pub output :
      budget.max_output_tokens ≡ min request.budget.max_output_tokens profile.max_output_tokens
  pub latency : budget.max_latency_ms ≡ request.budget.max_latency_ms
  pub cost :
      budget.max_cost_microusd ≡ min request.budget.max_cost_microusd profile.max_cost_microusd

exceeds-min :
    (v : Option ℕ) (a b : ℕ)
    → exceeds v a ≡ false
    → exceeds v b ≡ false
    → exceeds v (min a b) ≡ false
exceeds-min none a b h k = refl
exceeds-min (some v) a b h k = ground arith

-- A prepared call has the route that was selected and the budget that both allow.
prepared :
    (gateway : ModelGateway) (request : ModelRequest) (call : PreparedGatewayCall)
    → prepare gateway request ≡ ok call
    → (r : Route) × (select gateway request ≡ ok r)
      × (call.decision ≡ decision_of request r)
      × (call.effective_budget ≡ effective_budget request r.0)
unfolding prepare post_init
prepared gateway request call h = elim (Outcome-cases (select gateway request)) [
  | inr bad ↦ ground arith
  | inl (r, e) ↦ (r, e, ground arith, ground arith)
]

capability_refl : (c : ModelCapability) → same_capability c c ≡ true
capability_refl c = ground arith

min_below : (a b : ℕ) → ltb a (min a b) ≡ false
min_below a b = ground arith

not_above : (a : ℕ) → ltb a a ≡ false
not_above a = ground arith

-- Preparing a request whose route is selected never fails: the checks of the prepared call all hold,
-- if the profiles have names of their own.
pub prepare_selected :
    (gateway : ModelGateway) (request : ModelRequest) (r : Route)
    → are_unique gateway.profiles ≡ true
    → select gateway request ≡ ok r
    → prepare gateway request
      ≡ ok (record {
        request = request;
        decision = decision_of request r;
        effective_budget = effective_budget request r.0;
      })
unfolding prepare post_init decision_of effective_budget
prepare_selected gateway request (p, a) unique h =
    let (_, policy, _) = selected gateway request (p, a) unique h in
    let (_, near, sure, _, _) = admitted_lem request p a policy in
    ground (
      arith,
      capability_refl request.capability,
      min_below request.budget.max_input_tokens p.max_input_tokens,
      min_below request.budget.max_output_tokens p.max_output_tokens,
      min_below request.budget.max_cost_microusd p.max_cost_microusd,
      not_above request.budget.max_latency_ms,
    )

find_adapter-id :
    (k : String) (adapters : List ModelAdapter) (a : ModelAdapter)
    → find_adapter k adapters ≡ some a
    → a.adapter_id ≡ k
unfolding find_adapter
find_adapter-id k [] a h = ground arith
find_adapter-id k (b ∷ adapters) a h =
    ground (arith, eq_iff b.adapter_id k, find_adapter-id k adapters a)

-- The route of a prepared call is found again under its names.
refound :
    (gateway : ModelGateway) (request : ModelRequest) (r found : Route)
    → are_unique gateway.profiles ≡ true
    → select gateway request ≡ ok r
    → profile_adapter gateway (decision_of request r) ≡ ok found
    → found ≡ r
unfolding profile_adapter decision_of
refound gateway request (p, a) found unique h back =
    let (adapter, policy, profile) = selected gateway request (p, a) unique h in
    let name = find_adapter-id p.adapter_id gateway.adapters a adapter in
    let e : both (some p) (some a) ≡ ok found = rw (profile, name, adapter) at back in ground arith

last_of : (a b c : Bool) → (a && b && c) ≡ true → c ≡ true
last_of a b c h = ground arith

same_budget-eq : (a b : GatewayBudget) → same_budget a b ≡ true → a ≡ b
unfolding same_budget
same_budget-eq a b h = ground arith

budget_of :
    (call expected : PreparedGatewayCall)
    → same_call call expected ≡ true
    → call.effective_budget ≡ expected.effective_budget
unfolding same_call
budget_of call expected same = same_budget-eq call.effective_budget expected.effective_budget (
    last_of (same_request call.request expected.request)
      (same_decision call.decision expected.decision) _ same)

module _ (host : Host) (validate : Fields → Fields → Bool) (now : ℕ) where
  -- The parts of an invocation that returned.
  invoked :
      (gateway : ModelGateway) (call : PreparedGatewayCall)
      (answer : GatewayResult × GatewayAuditRecord)
      → invoke_prepared host validate now gateway call ≡ ok answer
      → (expected : PreparedGatewayCall) × (r : Route) × (a : AdapterResult) × (prepare gateway
            call.request
          ≡ ok expected)
        × (same_call call expected ≡ true)
        × (profile_adapter gateway expected.decision ≡ ok r)
        × (finish host validate now call r a ≡ ok answer)
  unfolding invoke_prepared
  invoked gateway call answer h = elim (Outcome-cases (prepare gateway call.request)) [
    | inr bad ↦ ground arith
    | inl (expected, e) ↦ elim (Outcome-cases (profile_adapter gateway expected.decision)) [
      | inr bad ↦ ground arith
      | inl ((profile, adapter), e2) ↦ (
        expected,
        (profile, adapter),
        adapter.invoke (record call.request { budget = call.effective_budget }) profile.model_id,
        e,
        ground arith,
        e2,
        ground arith,
      )
    ]
  ]

  -- An answer that `finish` lets through, against the limits it was held to.
  finished :
      (call : PreparedGatewayCall) (r : Route) (a : AdapterResult)
      (answer : GatewayResult × GatewayAuditRecord)
      → finish host validate now call r a ≡ ok answer
      → (answer.0.response.output ≡ a.output)
        × (answer.0.response.input_tokens ≡ a.input_tokens)
        × (answer.0.response.output_tokens ≡ a.output_tokens)
        × (answer.0.response.latency_ms ≡ a.latency_ms)
        × (answer.0.response.cost_microusd ≡ a.cost_microusd)
        × (exceeds a.input_tokens call.request.budget.max_input_tokens ≡ false)
        × (exceeds a.input_tokens r.0.max_input_tokens ≡ false)
        × (exceeds a.output_tokens call.request.budget.max_output_tokens ≡ false)
        × (exceeds a.output_tokens r.0.max_output_tokens ≡ false)
        × (ltb call.request.budget.max_latency_ms a.latency_ms ≡ false)
        × (exceeds a.cost_microusd call.request.budget.max_cost_microusd ≡ false)
        × (exceeds a.cost_microusd r.0.max_cost_microusd ≡ false)
        × (validate a.output call.request.output_schema ≡ true)
  unfolding finish within_limits response_to completion_of
  finished call r a answer h = ground arith

  within :
      (call : PreparedGatewayCall) (r : Route) (a : AdapterResult)
      (answer : GatewayResult × GatewayAuditRecord)
      → call.effective_budget ≡ effective_budget call.request r.0
      → finish host validate now call r a ≡ ok answer
      → (exceeds answer.0.response.input_tokens call.effective_budget.max_input_tokens ≡ false)
        × (exceeds answer.0.response.output_tokens call.effective_budget.max_output_tokens ≡ false)
        × (answer.0.response.latency_ms ≤ call.effective_budget.max_latency_ms)
        × (exceeds answer.0.response.cost_microusd call.effective_budget.max_cost_microusd ≡ false)
        × (validate answer.0.response.output call.request.output_schema ≡ true)
  unfolding effective_budget
  within call r a answer budget h =
      let (o, i, t, l, c, i1, i2, t1, t2, l1, c1, c2, v) = finished call r a answer h in
      (
        rw (i, budget) (exceeds-min a.input_tokens _ _ i1 i2),
        rw (t, budget) (exceeds-min a.output_tokens _ _ t1 t2),
        rw (l, budget) (ground arith),
        rw (c, budget) (exceeds-min a.cost_microusd _ _ c1 c2),
        rw o v,
      )

budget-Limits :
    (budget : GatewayBudget) (request : ModelRequest) (profile : GatewayProfile)
    → budget ≡ effective_budget request profile
    → Limits budget request profile
unfolding effective_budget
budget-Limits budget request profile e = record {
  input = ap (λ (b : GatewayBudget). b.max_input_tokens) e;
  output = ap (λ (b : GatewayBudget). b.max_output_tokens) e;
  latency = ap (λ (b : GatewayBudget). b.max_latency_ms) e;
  cost = ap (λ (b : GatewayBudget). b.max_cost_microusd) e;
}

-- An answer that the gateway returns is within the budget of the call: its tokens and its cost, where
-- it states them, within the lesser of what the request and the profile of the selected route allow, its
-- latency within the request's, and its output has the request's schema. The gateway's profiles have
-- names of their own.
pub invoke_prepared_within :
    (host : Host) (validate : Fields → Fields → Bool) (now : ℕ) (gateway : ModelGateway)
    (call : PreparedGatewayCall) (answer : GatewayResult × GatewayAuditRecord)
    → are_unique gateway.profiles ≡ true
    → invoke_prepared host validate now gateway call ≡ ok answer
    → (r : Route) × (select gateway call.request ≡ ok r)
      × Limits call.effective_budget call.request r.0
      × (exceeds answer.0.response.input_tokens call.effective_budget.max_input_tokens ≡ false)
      × (exceeds answer.0.response.output_tokens call.effective_budget.max_output_tokens ≡ false)
      × (answer.0.response.latency_ms ≤ call.effective_budget.max_latency_ms)
      × (exceeds answer.0.response.cost_microusd call.effective_budget.max_cost_microusd ≡ false)
      × (validate answer.0.response.output call.request.output_schema ≡ true)
invoke_prepared_within host validate now gateway call answer unique h =
    let (expected, r, a, preparing, same, finding, done) =
      invoked host validate now gateway call answer h in
    let (route, chosen, decision, budget) = prepared gateway call.request expected preparing in
    let again : r ≡ route =
      refound gateway call.request route r unique chosen (rw decision at finding) in
    let whole : call.effective_budget ≡ effective_budget call.request route.0 =
      budget_of call expected same ∙ budget in
    let (input, output, latency, cost, valid) =
      within host validate now call r a answer (rw again whole) done in
    (
      route,
      chosen,
      budget-Limits call.effective_budget call.request route.0 whole,
      input,
      output,
      latency,
      cost,
      valid,
    )

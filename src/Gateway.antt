-- ===== src/Gateway.antt =====
-- The model gateway (src/blackcell/gateway): requests, profiles and adapters, and the selection of a
-- route. Counts and budgets are natural numbers, which is what the constructors check.
use blackcell.Prelude.{
  ℕ, String, Bool, true, false, Option, none, some, List, [], ◌∷◌, ◌&&◌, ◌||◌, not, ◌==◌, ltb, leb,
  str_eq, any, Outcome, ok, err, ◌>>=◌, ◌>>◌, raise_if, if◌then◌else◌,
}
use Prim.Native.String
use text.Mathlib.Text.{is_le}
use blackcell.Json.{Fields}
pub mod Call
pub mod Invoke
pub mod Selected
pub mod Within
pub mod Schema
pub mod Tests

pub data ModelCapability : Type 0 where
  reason code review verify embed : ModelCapability

-- the rank of a member of an enum, for its equality
abbrev rank : ModelCapability → ℕ
rank reason = 0
rank code = 1
rank review = 2
rank verify = 3
rank embed = 4

abbrev pub same_capability : ModelCapability → ModelCapability → Bool
same_capability a b = rank a == rank b

pub data DataClassification : Type 0 where
  public internal private secret : DataClassification

-- the value of an `IntEnum` member
abbrev pub level : DataClassification → ℕ
level public = 0
level internal = 1
level private = 2
level secret = 3

pub data LocalityPolicy : Type 0 where
  local_only remote_allowed : LocalityPolicy

abbrev pub is_local_only : LocalityPolicy → Bool
is_local_only local_only = true
is_local_only remote_allowed = false

pub data GatewayFailureCode : Type 0 where
  request_input_budget_exceeded no_profile prepared_call_invalid : GatewayFailureCode
  adapter_input_budget_exceeded profile_input_limit_exceeded : GatewayFailureCode
  adapter_output_budget_exceeded profile_output_limit_exceeded : GatewayFailureCode
  adapter_latency_budget_exceeded adapter_cost_budget_exceeded : GatewayFailureCode
  profile_cost_limit_exceeded profile_determinism_violated : GatewayFailureCode
  request_determinism_violated : GatewayFailureCode

pub record GatewayBudget : Type 0 where
  pub max_input_tokens : ℕ
  pub max_output_tokens : ℕ
  pub max_latency_ms : ℕ
  pub max_cost_microusd : ℕ

pub record ModelRequest : Type 0 where
  pub request_id : String
  pub capability : ModelCapability
  pub input : Fields
  pub output_schema : Fields
  pub classification : DataClassification
  pub locality : LocalityPolicy
  pub budget : GatewayBudget
  pub estimated_input_tokens : ℕ
  pub correlation_id : String
  pub run_id : String
  pub node_id : String
  pub deterministic_required : Bool
  pub causation_id : Option String
  pub tools_allowed : Bool

pub record AdapterResult : Type 0 where
  pub output : Fields
  pub input_tokens : Option ℕ
  pub output_tokens : Option ℕ
  pub latency_ms : ℕ
  pub cost_microusd : Option ℕ
  pub deterministic : Bool

pub record GatewayCompletion : Type 0 where
  pub output_digest : String
  pub input_tokens : Option ℕ
  pub output_tokens : Option ℕ
  pub latency_ms : ℕ
  pub cost_microusd : Option ℕ
  pub deterministic : Bool
  pub completed_at : ℕ

-- `GatewayAdmissionError`, `OutputSchemaError` and the `ValueError` of a constructor
pub data GatewayError : Type 0 where
  admission : GatewayFailureCode → Option GatewayCompletion → GatewayError
  output_schema : GatewayCompletion → GatewayError
  value_error : GatewayError

abbrev pub Result {ℓ} : Type ℓ → Type ℓ
Result = Outcome GatewayError

pub record GatewayProfile : Type 0 where
  pub profile_id : String
  pub capability : ModelCapability
  pub adapter_id : String
  pub model_id : String
  pub priority : ℕ
  pub local : Bool
  pub deterministic : Bool
  pub maximum_classification : DataClassification
  pub max_input_tokens : ℕ
  pub max_output_tokens : ℕ
  pub max_cost_microusd : ℕ
  pub enabled : Bool

-- The protocol `ModelAdapter`; the call of a provider is a function of the request and the model.
pub record ModelAdapter : Type 0 where
  pub adapter_id : String
  pub capabilities : List ModelCapability
  pub local : Bool
  pub deterministic : Bool
  pub invoke : ModelRequest → String → AdapterResult

pub record ModelGateway : Type 0 where
  pub profiles : List GatewayProfile
  pub adapters : List ModelAdapter

-- `self._adapters.get(adapter_id)`: the constructor checks that a key is its adapter's name
unfoldable pub find_adapter : String → List ModelAdapter → Option ModelAdapter
find_adapter k [] = none
find_adapter k (a ∷ rest) = if str_eq a.adapter_id k then some a else find_adapter k rest

-- the profile ids are unique, as the constructor checks
unfoldable pub are_unique : List GatewayProfile → Bool
are_unique [] = true
are_unique (p ∷ rest) =
    not (any (λ (q : GatewayProfile). str_eq q.profile_id p.profile_id) rest) && are_unique rest

abbrev pub xor : Bool → Bool → Bool
xor true b = not b
xor false b = b

-- the tests of the loop of `_select`, in its order
unfoldable pub admits : ModelRequest → GatewayProfile → ModelAdapter → Bool
admits request profile adapter =
    profile.enabled
    && same_capability profile.capability request.capability
    && any (same_capability request.capability) adapter.capabilities
    && not (xor profile.local adapter.local || xor profile.deterministic adapter.deterministic)
    && not (is_local_only request.locality && not adapter.local)
    && not (request.deterministic_required && not adapter.deterministic)
    && leb (level request.classification) (level profile.maximum_classification)
    && leb request.estimated_input_tokens profile.max_input_tokens

abbrev pub Route : Type 0
Route = GatewayProfile × ModelAdapter

-- one round of the loop of `_select`, at a profile and its adapter
unfoldable pub consider :
    ModelRequest → GatewayProfile → Option ModelAdapter → List Route → List Route
unfolding admits
consider request profile none routes = routes
consider request profile (some adapter) routes =
    if admits request profile adapter then (profile, adapter) ∷ routes else routes

unfoldable pub candidates : ModelRequest → List ModelAdapter → List GatewayProfile → List Route
unfolding find_adapter consider
candidates request adapters [] = []
candidates request adapters (p ∷ profiles) =
    consider request p (find_adapter p.adapter_id adapters) (candidates request adapters profiles)

-- the order of the keys `(priority, profile_id)`
abbrev pub comes_first : Route → Route → Bool
comes_first (p, _) (q, _) =
    ltb p.priority q.priority
    || p.priority == q.priority && is_le (String.compare p.profile_id q.profile_id)

unfoldable pub insert : Route → List Route → List Route
insert r [] = r ∷ []
insert r (s ∷ routes) =
    let rest = insert r routes in if comes_first r s then r ∷ s ∷ routes else s ∷ rest

-- `candidates.sort(key=…)`, which is stable
unfoldable pub sort : List Route → List Route
unfolding insert
sort [] = []
sort (r ∷ routes) = insert r (sort routes)

abbrev pub first_of : List Route → Result Route
first_of [] = err (admission no_profile none)
first_of (r ∷ _) = ok r

-- `ModelGateway._select`
unfoldable pub select : ModelGateway → ModelRequest → Result Route
select gateway request = do
  raise_if (ltb request.budget.max_input_tokens request.estimated_input_tokens)
      (admission request_input_budget_exceeded none)
  first_of (sort (candidates request gateway.adapters gateway.profiles))

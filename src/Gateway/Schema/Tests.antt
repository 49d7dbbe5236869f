-- ===== src/Gateway/Schema/Tests.antt =====
-- The schema of a list of tasks, and what is and is not accepted under it.

use blackcell.Prelude.{◌≡◌, refl, pos, negsuc, true, false, [], ◌∷◌, ok, all}
use blackcell.Prelude.Text.{after_prefix, parses_hex}
use blackcell.Json.{
  Json, bool, int, float, text, arr, obj, Fields, end, find, get, keys, contains, dict, list_of,
}
use blackcell.Json.Equality.{equals}
use blackcell.Host.{json_digest}
use blackcell.Samples.{host}
use blackcell.Gateway.{
  ModelGateway, ModelRequest, find_adapter, are_unique, admits, consider, candidates, insert, sort,
  select,
}
use blackcell.Gateway.Call.{
  PreparedGatewayCall, GatewayAuditRecord, GatewayResult, effective_budget, decision_of, post_init,
  prepare, same_budget, same_request, same_decision, same_call, find_profile, profile_adapter,
}
use blackcell.Gateway.Invoke.{
  within_limits, response_to, audit, completion_of, finish, invoke_prepared,
}
use blackcell.Gateway.Tests.{profile, used, adapter, gateway, request, response}
use blackcell.Gateway.Schema.{
  number_lt, json_equal, is_among, has_twins, count, matches_type, texts_of, are_distinct,
  declared_types,
}
use blackcell.Gateway.Schema.Value.{
  fits, number_ok, string_ok, array_ok, names_of, has_required, object_ok, property_schema,
  item_schema, valid_value,
}
use blackcell.Gateway.Schema.Keywords.{
  are_supported, is_proper, valid_schema, is_output_schema, validate_output,
}
use blackcell.Gateway.Schema.Reached.{HasItem, HasField, Reaches, invoke_prepared-Reaches}

abbrev task_properties : Fields
task_properties = dict (
    ("id", obj (dict (("type", text "string") ∷ ("minLength", int (pos 1)) ∷ [])))
    ∷ ("weight", obj (dict (("type", text "number") ∷ ("minimum", float (pos 1) (negsuc 0)) ∷ [])))
    ∷ [])

abbrev task_schema : Fields
task_schema = dict (
    ("type", text "object")
    ∷ ("additionalProperties", bool false)
    ∷ ("required", arr (list_of text ("id" ∷ [])))
    ∷ ("properties", obj task_properties)
    ∷ [])

abbrev schema : Fields
schema = dict (
    ("$schema", text "draft")
    ∷ ("type", text "object")
    ∷ ("required", arr (list_of text ("tasks" ∷ [])))
    ∷ (
      "properties",
      obj (
          dict (
            (
              "tasks",
              obj (
                  dict (
                    ("type", text "array")
                    ∷ ("maxItems", int (pos 2))
                    ∷ ("uniqueItems", bool true)
                    ∷ ("items", obj task_schema)
                    ∷ [])),
            )
            ∷ [])),
    )
    ∷ [])

abbrev task : Json → Fields
task weight = dict (("id", text "a") ∷ ("weight", weight) ∷ [])

abbrev output : Json → Fields
output weight = dict (("tasks", arr (list_of obj (task weight ∷ []))) ∷ [])

accepted : validate_output (output (int (pos 1))) schema ≡ true
unfolding validate_output is_output_schema is_proper are_supported declared_types texts_of
    are_distinct has_twins valid_schema valid_value fits matches_type json_equal is_among number_ok
    number_lt string_ok array_ok count names_of has_required object_ok property_schema item_schema
    find get keys
accepted = refl

-- below one half
too_light : validate_output (output (float (pos 1) (negsuc 1))) schema ≡ false
unfolding validate_output is_output_schema is_proper are_supported declared_types texts_of
    are_distinct has_twins valid_schema valid_value fits matches_type json_equal is_among number_ok
    number_lt string_ok array_ok count names_of has_required object_ok property_schema item_schema
    find get keys
too_light = refl

-- a bool is no number
no_number : validate_output (output (bool true)) schema ≡ false
unfolding validate_output is_output_schema is_proper are_supported declared_types texts_of
    are_distinct has_twins valid_schema valid_value fits matches_type json_equal is_among number_ok
    number_lt string_ok array_ok count names_of has_required object_ok property_schema item_schema
    find get keys
no_number = refl

-- two items that are equal as numbers
twins : has_twins (list_of obj (task (int (pos 1)) ∷ task (float (pos 2) (negsuc 0)) ∷ [])) ≡ true
unfolding has_twins is_among json_equal find keys
twins = refl

-- a keyword that is not supported
unknown : validate_output end (dict (("pattern", text "a") ∷ [])) ≡ false
unfolding validate_output is_output_schema is_proper are_supported keys
unknown = refl

abbrev drafting : ModelRequest
drafting = record request { output_schema = schema }

abbrev drafter : ModelGateway
drafter = record gateway {
  adapters = record adapter { invoke = λ r m. record used { output = output (int (pos 1)) } } ∷ [];
}

abbrev drafting_call : PreparedGatewayCall
drafting_call = record {
  request = drafting;
  decision = decision_of drafting (profile "a" 1, adapter);
  effective_budget = effective_budget drafting (profile "a" 1);
}

abbrev drafted : GatewayResult × GatewayAuditRecord
drafted = (
  record {
    decision = drafting_call.decision;
    response = record response { output = output (int (pos 1)) };
  },
  audit drafting (record response { output = output (int (pos 1)) }),
)

unique : are_unique drafter.profiles ≡ true
unfolding are_unique
unique = refl

invoked : invoke_prepared host validate_output 8 drafter drafting_call ≡ ok drafted
unfolding invoke_prepared prepare post_init select sort insert candidates consider admits
    find_adapter find_profile profile_adapter decision_of effective_budget same_call same_budget
    same_request same_decision equals keys find finish within_limits response_to completion_of
    json_digest audit after_prefix parses_hex validate_output is_output_schema is_proper
    are_supported declared_types texts_of are_distinct has_twins valid_schema valid_value fits
    matches_type json_equal is_among number_ok number_lt string_ok array_ok count names_of
    has_required object_ok property_schema item_schema get
invoked = refl

reached : Reaches (obj (output (int (pos 1)))) schema (obj (task (int (pos 1)))) task_schema
unfolding property_schema item_schema find
reached = Reaches.item (Reaches.property Reaches.here HasField.first refl) HasItem.first refl

invoke_prepared-Reaches_example :
    (all (contains (keys (task (int (pos 1))))) (names_of (list_of text ("id" ∷ []))) ≡ true)
    × (all (contains (keys task_properties)) (keys (task (int (pos 1)))) ≡ true)
unfolding find get
invoke_prepared-Reaches_example =
    invoke_prepared-Reaches host 8 drafter drafting_call drafted (task (int (pos 1))) task_schema
      task_properties (list_of text ("id" ∷ [])) unique invoked reached refl refl refl

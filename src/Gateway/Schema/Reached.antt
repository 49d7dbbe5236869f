-- ===== src/Gateway/Schema/Reached.antt =====
-- The values inside an output, against the schemas inside the output's schema.
use blackcell.Prelude.{ℕ, ok, ◌≡◌, String, Bool, true, some, ◌&&◌, all, arith}
use blackcell.Json.{Json, arr, obj, Items, cons, Fields, field, find, get, keys, contains, is_false}
use blackcell.Host.{Host}
use blackcell.Gateway.{ModelGateway, are_unique}
use blackcell.Gateway.Call.{PreparedGatewayCall, GatewayAuditRecord, GatewayResult}
use blackcell.Gateway.Invoke.{invoke_prepared}
use blackcell.Gateway.Within.{invoke_prepared_within}
use blackcell.Gateway.Schema.Value.{
  names_of, has_required, object_ok, property_schema, item_schema, under, properties_of,
  are_declared, valid_value, valid_items, valid_fields,
}
use blackcell.Gateway.Schema.Keywords.{is_output_schema, validate_output}

-- the item stands in the array
pub data HasItem : Items → Json → Type 0 where
  first : {v : Json} {vs : Items} → HasItem (cons v vs) v
  later : {v w : Json} {vs : Items} → HasItem vs w → HasItem (cons v vs) w

-- the value stands in the object under the key
pub data HasField : Fields → String → Json → Type 0 where
  first : {k : String} {v : Json} {fs : Fields} → HasField (field k v fs) k v
  later : {j k : String} {v w : Json} {fs : Fields} → HasField fs k w → HasField (field j v fs) k w

-- a value inside another, and the schema that is declared for it
pub data Reaches (v : Json) (schema : Fields) : Json → Fields → Type 0 where
  here : Reaches v schema v schema
  property :
      {fields inner deeper : Fields} {k : String} {w : Json}
      → Reaches v schema (obj fields) inner
      → HasField fields k w
      → property_schema k inner ≡ some deeper
      → Reaches v schema w deeper
  item :
      {items : Items} {inner deeper : Fields} {w : Json}
      → Reaches v schema (arr items) inner
      → HasItem items w
      → item_schema inner ≡ some deeper
      → Reaches v schema w deeper

and-left : (a b : Bool) → (a && b) ≡ true → a ≡ true
and-left a b h = ground arith

and-right : (a b : Bool) → (a && b) ≡ true → b ≡ true
and-right a b h = ground arith

item_valid :
    {items : Items} {w : Json} (schema : Fields)
    → HasItem items w
    → valid_items items (some schema) ≡ true
    → valid_value w schema ≡ true
unfolding valid_items
item_valid schema (first {v} {vs}) h = ground arith
item_valid schema (later {v} {w} {vs} i) h = item_valid schema i (ground arith)

field_valid :
    {fields : Fields} {k : String} {w : Json} (schema inner : Fields)
    → HasField fields k w
    → property_schema k schema ≡ some inner
    → valid_fields fields schema ≡ true
    → valid_value w inner ≡ true
unfolding valid_fields
field_valid schema inner (first {k} {v} {fs}) e h =
    let whole : under (property_schema k schema) (valid_value v) ≡ true = and-left _ _ h in
    let declared : under (some inner) (valid_value v) ≡ true = rw e at whole in declared
field_valid schema inner (later i) e h = field_valid schema inner i e (ground arith)

array-items :
    (items : Items) (schema : Fields)
    → valid_value (arr items) schema ≡ true
    → valid_items items (item_schema schema) ≡ true
unfolding valid_value
array-items items schema h = ground arith

object-fields :
    (fields schema : Fields)
    → valid_value (obj fields) schema ≡ true
    → (object_ok schema fields ≡ true) × (valid_fields fields schema ≡ true)
unfolding valid_value
object-fields fields schema h = (ground arith, ground arith)

Reaches-valid :
    (v : Json) (schema : Fields) {w : Json} {inner : Fields}
    → Reaches v schema w inner
    → valid_value v schema ≡ true
    → valid_value w inner ≡ true
Reaches-valid v schema here h = h
Reaches-valid v schema (property {fields} {inner} {deeper} r f e) h =
    let (_, all_fields) = object-fields fields inner (Reaches-valid v schema r h) in
    field_valid inner deeper f e all_fields
Reaches-valid v schema (item {items} {inner} {deeper} r i e) h =
    let all_items = array-items items inner (Reaches-valid v schema r h) in
    let same : valid_items items (some deeper) ≡ true = rw e at all_items in
    item_valid deeper i same

object-facts :
    (schema fields properties : Fields) (required : Items)
    → object_ok schema fields ≡ true
    → find "required" schema ≡ some (arr required)
    → find "properties" schema ≡ some (obj properties)
    → is_false (get "additionalProperties" schema) ≡ true
    → (all (contains (keys fields)) (names_of required) ≡ true)
      × (all (contains (keys properties)) (keys fields) ≡ true)
unfolding object_ok has_required
object-facts schema fields properties required h r p closed =
    let has : has_required (find "required" schema) fields ≡ true = and-left _ _ h in
    let only : are_declared (properties_of (find "properties" schema))
          (is_false (get "additionalProperties" schema)) fields
        ≡ true =
      and-right _ _ h in
    let all_there : all (contains (keys fields)) (names_of required) ≡ true = rw r at has in
    let none_else : all (contains (keys properties)) (keys fields) ≡ true =
      rw (p, closed) at only in
    (all_there, none_else)

validate_output-Reaches :
    (output schema fields inner properties : Fields) (required : Items)
    → validate_output output schema ≡ true
    → Reaches (obj output) schema (obj fields) inner
    → find "required" inner ≡ some (arr required)
    → find "properties" inner ≡ some (obj properties)
    → is_false (get "additionalProperties" inner) ≡ true
    → (all (contains (keys fields)) (names_of required) ≡ true)
      × (all (contains (keys properties)) (keys fields) ≡ true)
unfolding validate_output
validate_output-Reaches output schema fields inner properties required accepted reaches r p closed =
    let valid : valid_value (obj output) schema ≡ true =
      and-right (is_output_schema schema) (valid_value (obj output) schema) accepted in
    let (fine, _) = object-fields fields inner (Reaches-valid (obj output) schema reaches valid) in
    object-facts inner fields properties required fine r p closed

-- What the gateway returns has the shape that the request asks for, at any depth. In an answer's output,
-- take an object inside it and the schema that the declared properties and items of the request's schema
-- lead to there: if that one requires fields, declares properties and closes the object, then the object
-- has all the required fields and none but declared ones. The gateway's profiles have names of their own.
pub invoke_prepared-Reaches :
    (host : Host) (now : ℕ) (gateway : ModelGateway) (call : PreparedGatewayCall)
    (answer : GatewayResult × GatewayAuditRecord) (fields inner properties : Fields)
    (required : Items)
    → are_unique gateway.profiles ≡ true
    → invoke_prepared host validate_output now gateway call ≡ ok answer
    → Reaches (obj answer.0.response.output) call.request.output_schema (obj fields) inner
    → find "required" inner ≡ some (arr required)
    → find "properties" inner ≡ some (obj properties)
    → is_false (get "additionalProperties" inner) ≡ true
    → (all (contains (keys fields)) (names_of required) ≡ true)
      × (all (contains (keys properties)) (keys fields) ≡ true)
invoke_prepared-Reaches host now gateway call answer fields inner properties required unique h
      reaches r p closed =
    let (_, _, _, _, _, _, _, accepted) =
      invoke_prepared_within host validate_output now gateway call answer unique h in
    validate_output-Reaches answer.0.response.output call.request.output_schema fields inner
      properties required accepted reaches r p closed

-- ===== src/Gateway/Schema/Value.antt =====
-- gateway/schema.py: `_validate_value` and what it calls for each kind of value.

use blackcell.Prelude.{
  ℕ, ℤ, pos, negsuc, String, Bool, true, false, Option, none, some, List, [], ◌∷◌, ◌&&◌, ◌||◌, not,
  leb, length, all, any,
}
use blackcell.Prelude.Text.{codes}
use blackcell.Json.{
  Json, null, bool, int, float, text, arr, obj, Items, nil, cons, Fields, end, field, find, get,
  keys, contains, is_true, is_false,
}
use blackcell.Gateway.Schema.{
  as_number, number_lt, json_equal, is_among, has_twins, count, matches_type, Declared,
  declared_types,
}

abbrev has_type : Declared → Json → Bool
has_type Declared.invalid v = false
has_type Declared.undeclared v = true
has_type (Declared.declared names) v = any (matches_type v) names

abbrev is_const : Option Json → Json → Bool
is_const none v = true
is_const (some c) v = json_equal v c

abbrev in_enum : Option Json → Json → Bool
in_enum none v = true
in_enum (some (arr items)) v = is_among v items
in_enum (some _) v = false

-- the checks of a value of any kind: its type, `const` and `enum`
unfoldable pub fits : Fields → Json → Bool
unfolding declared_types matches_type json_equal is_among find
fits schema v =
    has_type (declared_types schema) v
    && is_const (find "const" schema) v
    && in_enum (find "enum" schema) v

abbrev bound_ok : Option (ℤ × ℤ) → (ℤ × ℤ → Bool) → Bool
bound_ok none ok = true
bound_ok (some b) ok = ok b

-- `_validate_number`
unfoldable pub number_ok : Fields → ℤ × ℤ → Bool
unfolding number_lt get
number_ok schema n =
    bound_ok (as_number (get "minimum" schema)) (λ b. not (number_lt n b))
    && bound_ok (as_number (get "maximum" schema)) (λ b. not (number_lt b n))
    && bound_ok (as_number (get "exclusiveMinimum" schema)) (λ b. number_lt b n)
    && bound_ok (as_number (get "exclusiveMaximum" schema)) (λ b. number_lt n b)

-- a bound that is an `int`, and the length it bounds; a negative one is below every length
abbrev at_least : Json → ℕ → Bool
at_least (int (pos n)) k = leb n k
at_least _ k = true

abbrev at_most : Json → ℕ → Bool
at_most (int (pos n)) k = leb k n
at_most (int (negsuc _)) k = false
at_most _ k = true

-- `_validate_string`
unfoldable pub string_ok : Fields → String → Bool
unfolding get
string_ok schema s =
    at_least (get "minLength" schema) (length (codes s))
    && at_most (get "maxLength" schema) (length (codes s))

-- `isinstance(maximum_items, int)` holds of a bool too
abbrev most_items : Json → ℕ → Bool
most_items (bool true) k = leb k 1
most_items (bool false) k = leb k 0
most_items v k = at_most v k

-- the checks of `_validate_array` in front of its items
unfoldable pub array_ok : Fields → Items → Bool
unfolding get count has_twins
array_ok schema items =
    most_items (get "maxItems" schema) (count items)
    && not (is_true (get "uniqueItems" schema) && has_twins items)

-- the texts of an array; `isinstance(name, str)` passes over the rest
unfoldable pub names_of : Items → List String
names_of nil = []
names_of (cons (text s) xs) = s ∷ names_of xs
names_of (cons _ xs) = names_of xs

-- `schema.get("required", ())` and the names missing of it
unfoldable pub has_required : Option Json → Fields → Bool
unfolding names_of keys
has_required none value = true
has_required (some (arr names)) value = all (contains (keys value)) (names_of names)
has_required (some _) value = false

-- `schema.get("properties", {})`, or nothing where it is no object
abbrev pub properties_of : Option Json → Option Fields
properties_of none = some end
properties_of (some (obj properties)) = some properties
properties_of (some _) = none

abbrev pub are_declared : Option Fields → Bool → Fields → Bool
are_declared none closed value = false
are_declared (some properties) closed value =
    not closed || all (contains (keys properties)) (keys value)

-- the checks of `_validate_object` in front of its fields
unfoldable pub object_ok : Fields → Fields → Bool
unfolding find get keys has_required
object_ok schema value =
    has_required (find "required" schema) value
    && are_declared (properties_of (find "properties" schema))
        (is_false (get "additionalProperties" schema)) value

-- the schema of a property or of the items, where there is one
abbrev pub schema_in : Option Json → Option Fields
schema_in (some (obj schema)) = some schema
schema_in _ = none

unfoldable pub property_schema : String → Fields → Option Fields
unfolding find
property_schema k schema = elim (properties_of (find "properties" schema)) [
  | none ↦ none
  | some properties ↦ schema_in (find k properties)
]

unfoldable pub item_schema : Fields → Option Fields
unfolding find
item_schema schema = schema_in (find "items" schema)

abbrev pub under : Option Fields → (Fields → Bool) → Bool
under none valid = true
under (some schema) valid = valid schema

-- `_validate_value`, `_validate_object` and `_validate_array`
unfoldable mutual
  unfolding fits number_ok string_ok array_ok object_ok property_schema item_schema

  pub valid_value : Json → Fields → Bool
  valid_value null schema = fits schema null
  valid_value (bool b) schema = fits schema (bool b)
  valid_value (int n) schema = fits schema (int n) && number_ok schema (n, pos 0)
  valid_value (float m e) schema = fits schema (float m e) && number_ok schema (m, e)
  valid_value (text s) schema = fits schema (text s) && string_ok schema s
  valid_value (arr items) schema =
      fits schema (arr items) && array_ok schema items && valid_items items (item_schema schema)
  valid_value (obj fields) schema =
      fits schema (obj fields) && object_ok schema fields && valid_fields fields schema

  pub valid_items : Items → Option Fields → Bool
  valid_items nil schema = true
  valid_items (cons v vs) schema = under schema (valid_value v) && valid_items vs schema

  pub valid_fields : Fields → Fields → Bool
  valid_fields end schema = true
  valid_fields (field k v fields) schema =
      under (property_schema k schema) (valid_value v) && valid_fields fields schema

-- ===== src/Gateway/Schema/Keywords.antt =====
-- gateway/schema.py: the checks of a schema itself, `_validate_schema`, and `validate_output`.

use blackcell.Prelude.{
  ℤ, pos, String, Bool, true, false, Option, none, some, List, [], ◌∷◌, ◌&&◌, not, str_eq, all,
  if◌then◌else◌,
}
use blackcell.Json.{
  Json, bool, int, float, text, arr, obj, nil, Fields, end, field, find, get, keys, contains,
}
use blackcell.Gateway.Schema.{
  as_number, number_lt, has_twins, texts_of, are_distinct, Declared, declared_types,
}
use blackcell.Gateway.Schema.Value.{valid_value}

abbrev keywords : List String
keywords =
    "type" ∷ "const" ∷ "enum" ∷ "properties" ∷ "required" ∷ "additionalProperties" ∷ "items"
    ∷ "maxItems" ∷ "uniqueItems" ∷ "minimum" ∷ "maximum" ∷ "exclusiveMinimum" ∷ "exclusiveMaximum"
    ∷ "minLength" ∷ "maxLength" ∷ []

-- a schema's keywords; `$schema` is one at the root only
unfoldable pub are_supported : Bool → Fields → Bool
unfolding keys
are_supported true schema = all (contains ("$schema" ∷ keywords)) (keys schema)
are_supported false schema = all (contains keywords) (keys schema)

abbrev is_proper_type : Declared → Bool
is_proper_type Declared.invalid = false
is_proper_type _ = true

abbrev is_proper_enum : Option Json → Bool
is_proper_enum none = true
is_proper_enum (some (arr nil)) = false
is_proper_enum (some (arr items)) = not (has_twins items)
is_proper_enum (some _) = false

abbrev is_text_or_absent : Option Json → Bool
is_text_or_absent none = true
is_text_or_absent (some (text _)) = true
is_text_or_absent (some _) = false

abbrev is_bool_or_absent : Option Json → Bool
is_bool_or_absent none = true
is_bool_or_absent (some (bool _)) = true
is_bool_or_absent (some _) = false

abbrev is_object_or_absent : Option Json → Bool
is_object_or_absent none = true
is_object_or_absent (some (obj _)) = true
is_object_or_absent (some _) = false

-- `isinstance(value, int) and not isinstance(value, bool) and value >= 0`
abbrev is_count_or_absent : Option Json → Bool
is_count_or_absent none = true
is_count_or_absent (some (int (pos _))) = true
is_count_or_absent (some _) = false

abbrev is_number_or_absent : Option Json → Bool
is_number_or_absent none = true
is_number_or_absent (some (int _)) = true
is_number_or_absent (some (float _ _)) = true
is_number_or_absent (some _) = false

abbrev distinct_names : Option (List String) → Bool
distinct_names none = false
distinct_names (some names) = are_distinct names

abbrev is_proper_required : Option Json → Bool
is_proper_required none = true
is_proper_required (some (arr items)) = distinct_names (texts_of items)
is_proper_required (some _) = false

-- neither bound is there, or the first is no more than the second, and less if it is `strict`
abbrev in_order : Bool → Option (ℤ × ℤ) → Option (ℤ × ℤ) → Bool
in_order strict none b = true
in_order strict (some a) none = true
in_order true (some a) (some b) = number_lt a b
in_order false (some a) (some b) = not (number_lt b a)

abbrev lengths_in_order : Json → Json → Bool
lengths_in_order (int a) (int b) = not (number_lt (b, pos 0) (a, pos 0))
lengths_in_order _ _ = true

-- the checks of `_validate_schema` on the schema's own keywords
unfoldable pub is_proper : Bool → Fields → Bool
unfolding are_supported declared_types has_twins texts_of are_distinct number_lt find get
is_proper root schema =
    are_supported root schema
    && is_proper_type (declared_types schema)
    && is_proper_enum (find "enum" schema)
    && is_text_or_absent (find "$schema" schema)
    && is_object_or_absent (find "properties" schema)
    && is_proper_required (find "required" schema)
    && is_bool_or_absent (find "additionalProperties" schema)
    && is_object_or_absent (find "items" schema)
    && is_count_or_absent (find "maxItems" schema)
    && is_bool_or_absent (find "uniqueItems" schema)
    && is_number_or_absent (find "minimum" schema)
    && is_number_or_absent (find "maximum" schema)
    && is_number_or_absent (find "exclusiveMinimum" schema)
    && is_number_or_absent (find "exclusiveMaximum" schema)
    && is_count_or_absent (find "minLength" schema)
    && is_count_or_absent (find "maxLength" schema)
    && in_order false (as_number (get "minimum" schema)) (as_number (get "maximum" schema))
    && in_order true (as_number (get "exclusiveMinimum" schema))
        (as_number (get "exclusiveMaximum" schema))
    && lengths_in_order (get "minLength" schema) (get "maxLength" schema)

-- `_validate_schema` of a schema inside another, and of those inside it. A mapping has no key twice.
unfoldable mutual
  unfolding is_proper

  pub valid_schema : Json → Bool
  valid_schema (obj schema) = is_proper false schema && nested_schemas schema
  valid_schema _ = false

  -- the schemas under `properties` and `items`
  pub nested_schemas : Fields → Bool
  nested_schemas end = true
  nested_schemas (field k v fields) =
      let properties = property_schemas v in
      let items = valid_schema v in
      (if str_eq k "properties" then properties else if str_eq k "items" then items else true)
      && nested_schemas fields

  pub property_schemas : Json → Bool
  property_schemas (obj properties) = each_schema properties
  property_schemas _ = false

  pub each_schema : Fields → Bool
  each_schema end = true
  each_schema (field k v properties) = valid_schema v && each_schema properties

abbrev allows_object : Declared → Bool
allows_object Declared.invalid = false
allows_object Declared.undeclared = true
allows_object (Declared.declared names) = contains names "object"

-- `_validate_schema` of the whole schema, whose root allows an object
unfoldable pub is_output_schema : Fields → Bool
unfolding is_proper nested_schemas declared_types
is_output_schema schema =
    is_proper true schema && nested_schemas schema && allows_object (declared_types schema)

-- `validate_output`
unfoldable pub validate_output : Fields → Fields → Bool
unfolding is_output_schema valid_value
validate_output output schema = is_output_schema schema && valid_value (obj output) schema

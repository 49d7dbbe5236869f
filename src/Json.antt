-- ===== src/Json.antt =====
-- The JSON data model of kernel/_json.py (`JsonValue`), `Mapping.get` and Python's `==` on it.
pub mod Equality
use blackcell.Prelude.{
  ℤ, String, Bool, true, false, Option, none, some, List, [], ◌∷◌, ◌&&◌, ◌||◌, str_eq, all, any,
  if◌then◌else◌,
}

mutual
  -- A finite `float` is a significand and a binary exponent.
  pub data Json : Type 0 where
    null : Json
    bool : Bool → Json
    int : ℤ → Json
    float : ℤ → ℤ → Json
    text : String → Json
    arr : Items → Json
    obj : Fields → Json

  pub data Items : Type 0 where
    nil : Items
    cons : Json → Items → Items

  pub data Fields : Type 0 where
    end : Fields
    field : String → Json → Fields → Fields

-- `mapping[key]`, if it is there
unfoldable pub find : String → Fields → Option Json
find k end = none
find k (field j v rest) = if str_eq j k then some v else find k rest

abbrev or_null : Option Json → Json
or_null none = null
or_null (some v) = v

-- `mapping.get(key)`: a missing key reads as `None`, which is JSON's null too
unfoldable pub get : String → Fields → Json
unfolding find
get k fields = or_null (find k fields)

-- `list(mapping)`
unfoldable pub keys : Fields → List String
keys end = []
keys (field k _ rest) = k ∷ keys rest

abbrev pub contains : List String → String → Bool
contains names k = any (str_eq k) names

-- `set(mapping) == expected`
unfoldable pub has_exactly : Fields → List String → Bool
unfolding keys
has_exactly fields expected =
    all (contains expected) (keys fields) && all (contains (keys fields)) expected

-- `value == "…"` against a text
unfoldable pub is_text : Json → String → Bool
is_text (text s) t = str_eq s t
is_text _ _ = false

-- `value is None`
abbrev pub is_null : Json → Bool
is_null null = true
is_null _ = false

-- `value is True`
abbrev pub is_true : Json → Bool
is_true (bool b) = b
is_true _ = false

-- `value is False`
abbrev pub is_false : Json → Bool
is_false (bool false) = true
is_false _ = false

-- `value == ()`
abbrev pub is_empty_tuple : Json → Bool
is_empty_tuple (arr nil) = true
is_empty_tuple _ = false

-- a display `{k: v, …}` whose keys are all different
abbrev pub dict : List (String × Json) → Fields
dict [] = end
dict ((k, v) ∷ rest) = field k v (dict rest)

-- `[write(item) for item in values]`
abbrev pub list_of {ℓ} : {A : Type ℓ} → (A → Json) → List A → Items
list_of write [] = nil
list_of write (v ∷ vs) = cons (write v) (list_of write vs)

-- `text | None`
abbrev pub text_or_null : Option String → Json
text_or_null none = null
text_or_null (some s) = text s

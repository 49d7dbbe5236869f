-- ===== src/Gateway/Schema.antt =====
-- gateway/schema.py: values against a schema. A function that raises `OutputSchemaError` is a test
-- here, false where it raises: of the error only the message is left out.
pub mod Value
pub mod Keywords
pub mod Reached
pub mod Tests
use Prim.Native.String
use blackcell.Prelude.{
  ℕ, ◌+◌, ℤ, pos, negsuc, String, Bool, true, false, Option, none, some, List, [], ◌∷◌, ◌&&◌, ◌||◌,
  not, ◌==◌, ltb, leb, str_eq, length, all, any, is_some, if◌then◌else◌,
}
use blackcell.Prelude.Int.{scale, pos_part, neg_part}
use blackcell.Prelude.Text.{codes}
use blackcell.Json.{
  Json, null, bool, int, float, text, arr, obj, Items, nil, cons, Fields, end, field, find, get,
  keys, contains, is_true, is_false,
}
use blackcell.Json.Equality.{number_eq}

-- `_as_number`: no bool is a number here, and every float is finite
abbrev pub as_number : Json → Option (ℤ × ℤ)
as_number (int n) = some (n, pos 0)
as_number (float m e) = some (m, e)
as_number _ = none

int_lt : ℤ → ℤ → Bool
int_lt (pos a) (pos b) = ltb a b
int_lt (pos a) (negsuc b) = false
int_lt (negsuc a) (pos b) = true
int_lt (negsuc a) (negsuc b) = ltb b a

-- `a * 2 ** e < b * 2 ** f`, with the negative exponents moved to the other side
unfoldable pub number_lt : ℤ × ℤ → ℤ × ℤ → Bool
unfolding int_lt scale
number_lt (a, e) (b, f) =
    int_lt (scale a (pos_part e + neg_part f)) (scale b (pos_part f + neg_part e))

scalar_equal : Option (ℤ × ℤ) → Option (ℤ × ℤ) → Bool
unfolding number_eq
scalar_equal (some (a, e)) (some (b, f)) = number_eq a e b f
scalar_equal _ _ = false

option_equal : (Json → Bool) → Option Json → Bool
option_equal f none = false
option_equal f (some v) = f v

-- equality of two sets of keys
abbrev same_keys : Fields → Fields → Bool
same_keys a b = all (contains (keys b)) (keys a) && all (contains (keys a)) (keys b)

-- `_json_equal`
unfoldable mutual
  unfolding find keys scalar_equal option_equal

  pub json_equal : Json → Json → Bool
  json_equal null null = true
  json_equal (bool true) (bool true) = true
  json_equal (bool false) (bool false) = true
  json_equal (int n) v = scalar_equal (as_number (int n)) (as_number v)
  json_equal (float m e) v = scalar_equal (as_number (float m e)) (as_number v)
  json_equal (text s) (text t) = str_eq s t
  json_equal (arr xs) (arr ys) = items_equal xs ys
  json_equal (obj fs) (obj gs) = same_keys fs gs && fields_equal fs gs
  json_equal _ _ = false

  pub items_equal : Items → Items → Bool
  items_equal nil nil = true
  items_equal (cons x xs) (cons y ys) = json_equal x y && items_equal xs ys
  items_equal _ _ = false

  pub fields_equal : Fields → Fields → Bool
  fields_equal end gs = true
  fields_equal (field k v fs) gs = option_equal (json_equal v) (find k gs) && fields_equal fs gs

-- `any(_json_equal(value, item) for item in items)`
unfoldable pub is_among : Json → Items → Bool
unfolding json_equal items_equal fields_equal
is_among v nil = false
is_among v (cons x xs) = json_equal v x || is_among v xs

-- two items of the array are equal
unfoldable pub has_twins : Items → Bool
unfolding is_among
has_twins nil = false
has_twins (cons x xs) = is_among x xs || has_twins xs

unfoldable pub count : Items → ℕ
count nil = 0
count (cons _ xs) = 1 + count xs

-- `_matches_type`; a name that is no type name does not get here
unfoldable pub matches_type : Json → String → Bool
matches_type null t = str_eq t "null"
matches_type (bool _) t = str_eq t "boolean"
matches_type (int _) t = str_eq t "integer" || str_eq t "number"
matches_type (float _ _) t = str_eq t "number"
matches_type (text _) t = str_eq t "string"
matches_type (arr _) t = str_eq t "array"
matches_type (obj _) t = str_eq t "object"

abbrev pub type_names : List String
type_names = "null" ∷ "boolean" ∷ "integer" ∷ "number" ∷ "string" ∷ "array" ∷ "object" ∷ []

-- the texts of an array of texts
unfoldable pub texts_of : Items → Option (List String)
texts_of nil = some []
texts_of (cons (text s) xs) = elim (texts_of xs) [ none ↦ none | some ss ↦ some (s ∷ ss) ]
texts_of (cons _ xs) = none

unfoldable pub are_distinct : List String → Bool
are_distinct [] = true
are_distinct (s ∷ ss) = not (contains ss s) && are_distinct ss

-- `_declared_types`: the names, if any are declared; the outer `none` is the error
pub data Declared : Type 0 where
  invalid undeclared : Declared
  declared : List String → Declared

abbrev checked_names : List String → Declared
checked_names names =
    if all (contains type_names) names && are_distinct names
    then Declared.declared names
    else Declared.invalid

abbrev names_in : Option (List String) → Declared
names_in none = Declared.invalid
names_in (some []) = Declared.invalid
names_in (some (n ∷ ns)) = checked_names (n ∷ ns)

abbrev declaration : Option Json → Declared
declaration none = Declared.undeclared
declaration (some (text name)) = checked_names (name ∷ [])
declaration (some (arr items)) = names_in (texts_of items)
declaration (some _) = Declared.invalid

unfoldable pub declared_types : Fields → Declared
unfolding find texts_of are_distinct
declared_types schema = declaration (find "type" schema)

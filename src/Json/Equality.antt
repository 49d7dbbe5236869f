-- ===== src/Json/Equality.antt =====
-- Python's `==` on JSON values: numbers compare by value across bool, int and float, and mappings
-- compare without regard to the order of their keys.
use blackcell.Prelude.{
  ◌+◌, ℤ, pos, negsuc, refl, ◌≡◌, Bool, true, false, Option, none, some, ◌&&◌, length, ◌==◌, str_eq,
}
use blackcell.Prelude.Int.{scale, int_eq, pos_part, neg_part}
use blackcell.Json.{
  Json, null, bool, int, float, text, arr, obj, Items, nil, cons, Fields, end, field, find, keys,
}

-- `a * 2 ^ e == b * 2 ^ f`, with the negative exponents moved to the other side
unfoldable pub number_eq : ℤ → ℤ → ℤ → ℤ → Bool
unfolding scale int_eq
number_eq a e b f = int_eq (scale a (pos_part e + neg_part f)) (scale b (pos_part f + neg_part e))

bool_value : Bool → ℤ
bool_value true = pos 1
bool_value false = pos 0

-- a number as significand and exponent; `bool` is a subclass of `int`
unfoldable pub as_number : Json → Option (ℤ × ℤ)
unfolding bool_value
as_number (bool b) = some (bool_value b, pos 0)
as_number (int n) = some (n, pos 0)
as_number (float m e) = some (m, e)
as_number _ = none

scalar_eq : Option (ℤ × ℤ) → Option (ℤ × ℤ) → Bool
unfolding number_eq
scalar_eq (some (a, e)) (some (b, f)) = number_eq a e b f
scalar_eq _ _ = false

option_eq : (Json → Bool) → Option Json → Bool
option_eq f none = false
option_eq f (some v) = f v

mutual
  unfolding find keys as_number scalar_eq option_eq

  json_eq : Json → Json → Bool
  json_eq null null = true
  json_eq (text s) (text t) = str_eq s t
  json_eq (arr xs) (arr ys) = items_eq xs ys
  json_eq (obj fs) (obj gs) = length (keys fs) == length (keys gs) && fields_eq fs gs
  json_eq (bool b) v = scalar_eq (as_number (bool b)) (as_number v)
  json_eq (int n) v = scalar_eq (as_number (int n)) (as_number v)
  json_eq (float m e) v = scalar_eq (as_number (float m e)) (as_number v)
  json_eq _ _ = false

  items_eq : Items → Items → Bool
  items_eq nil nil = true
  items_eq (cons x xs) (cons y ys) = json_eq x y && items_eq xs ys
  items_eq _ _ = false

  fields_eq : Fields → Fields → Bool
  fields_eq end gs = true
  fields_eq (field k v fs) gs = option_eq (json_eq v) (find k gs) && fields_eq fs gs

-- `value == n` against an `int` that is not negative
unfoldable pub is_int : Json → ℤ → Bool
unfolding as_number scalar_eq
is_int v n = scalar_eq (as_number v) (some (n, pos 0))

-- `a == b`
unfoldable pub equals : Json → Json → Bool
unfolding json_eq items_eq fields_eq
equals a b = json_eq a b

-- Key order and the kind of number do not matter, nested values included.
equals_example :
    equals
      (obj (field "a" (int (pos 1)) (field "b" (arr (cons null nil)) end)))
      (obj (field "b" (arr (cons null nil)) (field "a" (float (pos 2) (negsuc 0)) end)))
    ≡ true
unfolding equals
equals_example = refl

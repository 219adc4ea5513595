-- ===== src/Json/Equal.antt =====
-- Python's `==` on JSON values: Booleans and numbers compare by value across their types, lists
-- item by item, dicts key by key in any order.
use failure_resolver.Prelude.{
  ℕ, suc, ◌^◌, Bool, true, false, ◌&&◌, Option, none, some, ◌==◌, str_eq,
}
use failure_resolver.Prelude.Int.{pos, int_eq, scale}
use failure_resolver.Json.{
  Float, finite, infinite, Json, null, bool, int, float, str, arr, obj, Items, nil, cons, Fields,
  end, field, lookup,
}

same_sign : Bool → Bool → Bool
same_sign true b = b
same_sign false true = false
same_sign false false = true

-- `==` of two numbers, exactly; `nan` equals nothing.
unfoldable pub float_eq : Float → Float → Bool
unfolding same_sign
float_eq (finite m j) (finite n k) = int_eq (scale m (2 ^ k)) (scale n (2 ^ j))
float_eq (infinite a) (infinite b) = same_sign a b
float_eq _ _ = false

-- The value of a `bool`, `int` or `float`.
abbrev pub numeric : Json → Option Float
numeric (bool true) = some (finite (pos 1) 0)
numeric (bool false) = some (finite (pos 0) 0)
numeric (int n) = some (finite n 0)
numeric (float f) = some f
numeric _ = none

abbrev pub numeric_eq : Option Float → Option Float → Bool
numeric_eq (some a) (some b) = float_eq a b
numeric_eq _ _ = false

unfoldable pub field_count : Fields → ℕ
field_count end = 0
field_count (field k v d) = suc (field_count d)

-- A test of a value that has to be there.
abbrev pub on_value : Option Json → (Json → Bool) → Bool
on_value none p = false
on_value (some v) p = p v

unfoldable mutual
  pub py_eq : Json → Json → Bool
  py_eq null null = true
  py_eq (str s) (str t) = str_eq s t
  py_eq (arr xs) (arr ys) = items_eq xs ys
  py_eq (obj xs) (obj ys) = (field_count xs == field_count ys) && fields_in xs ys
  py_eq (bool a) w = numeric_eq (numeric (bool a)) (numeric w)
  py_eq (int a) w = numeric_eq (numeric (int a)) (numeric w)
  py_eq (float a) w = numeric_eq (numeric (float a)) (numeric w)
  py_eq _ _ = false

  pub items_eq : Items → Items → Bool
  items_eq nil nil = true
  items_eq (cons x xs) (cons y ys) = py_eq x y && items_eq xs ys
  items_eq _ _ = false

  -- Every item of the first dict is in the second.
  pub fields_in : Fields → Fields → Bool
  fields_in end ys = true
  fields_in (field k v xs) ys = on_value (lookup k ys) (py_eq v) && fields_in xs ys

-- `left == right` of two dicts.
abbrev pub dict_eq : Fields → Fields → Bool
dict_eq xs ys = (field_count xs == field_count ys) && fields_in xs ys

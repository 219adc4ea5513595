-- ===== src/Json/Strict.antt =====
-- `_json_values_equal` of recovery_executor.py: equality that tells Booleans from numbers and
-- compares numbers as finite floats. `float` of a large int may raise.
use failure_resolver.Prelude.{
  Bool, true, false, ◌&&◌, Option, none, some, ◌==◌, str_eq, if◌then◌else◌, is_some,
}
use failure_resolver.Prelude.Int.{ℤ}
use failure_resolver.Json.{
  Float, Json, null, bool, int, float, str, arr, obj, Items, nil, cons, Fields, end, field, lookup,
}
use failure_resolver.Json.Equal.{float_eq, field_count}
use failure_resolver.Json.Bounds.{is_finite}
use failure_resolver.Errors.{Result, ok, err, other, ◌>>=◌}
use failure_resolver.Runtime.{Runtime}

abbrev same_bool : Bool → Bool → Bool
same_bool true b = b
same_bool false true = false
same_bool false false = true

-- Both are finite, and the same float.
finite_eq : Float → Float → Bool
finite_eq a b = is_finite a && is_finite b && float_eq a b

-- Every key of the first dict is one of the second.
keys_in : Fields → Fields → Bool
keys_in end ys = true
keys_in (field k v xs) ys = is_some (lookup k ys) && keys_in xs ys

-- `set(left) == set(right)`, where neither dict repeats a key.
same_keys : Fields → Fields → Bool
unfolding keys_in
same_keys xs ys = (field_count xs == field_count ys) && keys_in xs ys

-- The test of a value that the other dict is known to hold.
at_value : Option Json → (Json → Result Bool) → Result Bool
at_value none p = ok false
at_value (some v) p = p v

module _ (py : Runtime) where
  -- `float(n)`
  to_float : ℤ → Result Float
  to_float n = elim (py.float_of_int n) [ none ↦ err other | some f ↦ ok f ]

  unfoldable mutual
    unfolding same_keys finite_eq at_value to_float

    pub json_values_equal : Json → Json → Result Bool
    json_values_equal null null = ok true
    json_values_equal (bool a) (bool b) = ok (same_bool a b)
    json_values_equal (int a) (int b) = do x ← to_float a; y ← to_float b; ok (finite_eq x y)
    json_values_equal (int a) (float y) = do x ← to_float a; ok (finite_eq x y)
    json_values_equal (float x) (int b) = do
      let wide = is_finite x
      if wide then (do y ← to_float b; ok (finite_eq x y)) else ok false
    json_values_equal (float x) (float y) = ok (finite_eq x y)
    json_values_equal (str s) (str t) = ok (str_eq s t)
    json_values_equal (arr xs) (arr ys) = all_equal xs ys
    json_values_equal (obj xs) (obj ys) =
        let values = fields_equal xs ys in if same_keys xs ys then values else ok false
    json_values_equal _ _ = ok false

    pub all_equal : Items → Items → Result Bool
    all_equal nil nil = ok true
    all_equal (cons x xs) (cons y ys) = do
      same ← json_values_equal x y
      if same then all_equal xs ys else ok false
    all_equal _ _ = ok false

    pub fields_equal : Fields → Fields → Result Bool
    fields_equal end ys = ok true
    fields_equal (field k v xs) ys = do
      same ← at_value (lookup k ys) (json_values_equal v)
      if same then fields_equal xs ys else ok false

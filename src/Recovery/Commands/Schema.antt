-- ===== src/Recovery/Commands/Schema.antt =====
-- The values of arguments against the live schema in recovery_executor.py:
-- `_validate_schema_value`, `_validate_object_schema`, `_validate_number_range`,
-- `_schema_nonnegative_int` and `_validate_input_value`.
use failure_resolver.Prelude.{
  ℕ, ◌^◌, String, Bool, true, false, not, ◌&&◌, Option, none, some, [], ◌∷◌, ltb, ◌==◌, str_eq,
  if◌then◌else◌, len, is_empty,
}
use failure_resolver.Prelude.Int.{pos, int_eq, scale, leb_ℤ, ltb_ℤ}
use failure_resolver.Json.{
  Float, finite, Json, null, bool, int, float, str, arr, obj, Items, nil, cons, Fields, end, field,
  lookup, get, contains, is_null, is_true, mem,
}
use failure_resolver.Json.Equal.{py_eq}
use failure_resolver.Json.Bounds.{is_finite, validate_json}
use failure_resolver.Errors.{Result, ok, err, contract, other, ◌>>=◌, ◌>>◌, raise_if, Done}
use failure_resolver.Runtime.{Runtime}
use failure_resolver.Recovery.Session.{item_count}
use failure_resolver.Recovery.Target.{as_object}
use failure_resolver.Recovery.Flow.{required_list}
use failure_resolver.Recovery.Plan.Action.{has_text}

-- The live types that `_validate_schema_value` tells apart, after `casefold`.
pub data Kind : Type 0 where
  integer number boolean text array object unsupported : Kind

unfoldable pub kind_of : String → Kind
unfolding mem
kind_of s =
    if mem s ("int" ∷ "integer" ∷ [])
    then integer
    else if mem s ("float" ∷ "number" ∷ [])
    then number
    else if str_eq s "boolean"
    then boolean
    else if mem s ("string" ∷ "enum" ∷ [])
    then text
    else if str_eq s "array"
    then array
    else if str_eq s "object"
    then object
    else unsupported

-- The four comparisons of `_validate_number_range`.
pub data Limit : Type 0 where
  minimum maximum exclusive_minimum exclusive_maximum : Limit

limit_key : Limit → String
limit_key minimum = "minimum"
limit_key maximum = "maximum"
limit_key exclusive_minimum = "exclusiveMinimum"
limit_key exclusive_maximum = "exclusiveMaximum"

-- `<=` and `<` of two finite numbers, exactly.
float_le : Float → Float → Bool
float_le (finite m j) (finite n k) = leb_ℤ (scale m (2 ^ k)) (scale n (2 ^ j))
float_le _ _ = false

float_lt : Float → Float → Bool
float_lt (finite m j) (finite n k) = ltb_ℤ (scale m (2 ^ k)) (scale n (2 ^ j))
float_lt _ _ = false

within : Limit → Float → Float → Bool
unfolding float_le float_lt
within minimum value limit = float_le limit value
within maximum value limit = float_le value limit
within exclusive_minimum value limit = float_lt limit value
within exclusive_maximum value limit = float_lt value limit

-- The exact value of an `int` or a `float`.
abbrev plain_number : Json → Option Float
plain_number (int n) = some (finite n 0)
plain_number (float f) = some f
plain_number _ = none

-- `_schema_nonnegative_int`
nonnegative_int : Json → Result ℕ
nonnegative_int (int (pos n)) = ok n
nonnegative_int _ = err contract

-- `schema.get(key) is not None and size < limit`, and the same with `>`.
unfoldable pub check_min : Fields → String → ℕ → Result Done
unfolding nonnegative_int
check_min schema key size =
    if is_null (get key schema)
    then ok tt
    else (do limit ← nonnegative_int (get key schema); raise_if (ltb size limit) contract)

unfoldable pub check_max : Fields → String → ℕ → Result Done
unfolding nonnegative_int
check_max schema key size =
    if is_null (get key schema)
    then ok tt
    else (do limit ← nonnegative_int (get key schema); raise_if (ltb limit size) contract)

required_type : Json → Result String
required_type (str s) = ok s
required_type _ = err contract

-- A list of texts.
all_texts : Items → Bool
all_texts nil = true
all_texts (cons (str s) xs) = all_texts xs
all_texts (cons _ xs) = false

-- `schema.get("required", [])`
required_names : Fields → Result Items
unfolding all_texts
required_names schema = elim (lookup "required" schema) [
  | none ↦ ok nil
  | some v ↦ do xs ← required_list v; raise_if (not (all_texts xs)) contract; ok xs
]

names_present : Items → Fields → Bool
names_present nil d = true
names_present (cons (str s) xs) d = contains s d && names_present xs d
names_present (cons _ xs) d = false

object_properties : Fields → Result Fields
object_properties schema =
    if is_null (get "properties" schema) then ok end else as_object (get "properties" schema)

-- What a key of the value is held to: any JSON, or a schema.
pub data Property : Type 0 where
  anything : Property
  schema_of : Fields → Property

property_of : Json → Json → Result Property
property_of null (bool true) = ok anything
property_of null (obj end) = ok anything
property_of null (obj (field k v d)) = ok (schema_of (field k v d))
property_of null _ = err contract
property_of (obj d) additional = ok (schema_of d)
property_of _ additional = err contract

-- `schema.get("additionalProperties", False)`
additional_of : Fields → Json
additional_of schema = elim (lookup "additionalProperties" schema) [
  | none ↦ bool false
  | some v ↦ v
]

module _ (py : Runtime) where
  -- `math.isfinite(float(value))` of a number
  finite_number : Json → Result Bool
  finite_number (int n) = elim (py.float_of_int n) [ none ↦ err other | some f ↦ ok (is_finite f) ]
  finite_number (float f) = ok (is_finite f)
  finite_number _ = ok false

  check_limit : Limit → Float → Fields → Result Done
  unfolding limit_key within finite_number
  check_limit l value schema =
      let limit = get (limit_key l) schema in
      if is_null limit then ok tt else (do
        valid ← finite_number limit
        raise_if (not valid) contract
        elim (plain_number limit) [
          | none ↦ err contract
          | some bound ↦ raise_if (not (within l value bound)) contract
        ])

  number_range : Float → Fields → Result Done
  unfolding check_limit
  number_range value schema = do
    check_limit minimum value schema
    check_limit maximum value schema
    check_limit exclusive_minimum value schema
    check_limit exclusive_maximum value schema

  -- The value is not a list and not a dict.
  scalar_value : Json → Kind → Fields → Result Done
  unfolding number_range
  scalar_value (int n) integer schema = number_range (finite n 0) schema
  scalar_value (int n) number schema = do
    valid ← finite_number (int n)
    raise_if (not valid) contract
    number_range (finite n 0) schema
  scalar_value (float f) number schema = do
    raise_if (not (is_finite f)) contract
    number_range f schema
  scalar_value (bool b) boolean schema = ok tt
  scalar_value (str s) text schema = do
    check_min schema "minLength" (len s)
    check_max schema "maxLength" (len s)
  scalar_value _ kind schema = err contract

  abbrev pub live_kind : String → Kind
  live_kind value_type = kind_of (py.casefold value_type)

  unfoldable mutual
    unfolding scalar_value required_type required_names names_present object_properties property_of
        additional_of

    -- `_validate_schema_value`
    pub schema_value : Json → Kind → Fields → Result Done
    schema_value (arr xs) array schema = do
      check_min schema "minItems" (item_count xs)
      check_max schema "maxItems" (item_count xs)
      items ← as_object (get "items" schema)
      item_type ← required_type (get "type" items)
      schema_items xs (live_kind item_type) items
    schema_value (obj d) object schema = do
      properties ← object_properties schema
      required ← required_names schema
      raise_if (not (names_present required d)) contract
      schema_fields d properties (additional_of schema)
    schema_value (arr xs) kind schema = err contract
    schema_value (obj d) kind schema = err contract
    schema_value null kind schema = scalar_value null kind schema
    schema_value (bool b) kind schema = scalar_value (bool b) kind schema
    schema_value (int n) kind schema = scalar_value (int n) kind schema
    schema_value (float f) kind schema = scalar_value (float f) kind schema
    schema_value (str s) kind schema = scalar_value (str s) kind schema

    pub schema_items : Items → Kind → Fields → Result Done
    schema_items nil kind schema = ok tt
    schema_items (cons x xs) kind schema = do
      schema_value x kind schema
      schema_items xs kind schema

    -- The loop over the items of an object in `_validate_object_schema`.
    pub schema_fields : Fields → Fields → Json → Result Done
    schema_fields end properties additional = ok tt
    schema_fields (field k v d) properties additional = do
      property ← property_of (get k properties) additional
      elim property [
        | anything ↦ validate_json v
        | schema_of schema ↦ do
          property_type ← required_type (get "type" schema)
          schema_value v (live_kind property_type) schema
      ]
      schema_fields d properties additional

  -- A schema or a type that Python takes for true: `raw_schema or input_schema`.
  is_truthy : Json → Bool
  is_truthy (str s) = not (is_empty s)
  is_truthy (obj (field k v d)) = true
  is_truthy (arr (cons x xs)) = true
  is_truthy (bool b) = b
  is_truthy (int n) = not (int_eq n (pos 0))
  is_truthy (float f) = not (py_eq (float f) (int (pos 0)))
  is_truthy _ = false

  value_type : Json → Fields → Json
  value_type (obj schema) input =
      if is_truthy (get "type" schema) then get "type" schema else get "type" input
  value_type _ input = get "type" input

  value_schema : Json → Fields → Fields
  value_schema (obj (field k v d)) input = field k v d
  value_schema _ input = input

  check_enum : Json → Json → Result Done
  unfolding all_texts
  check_enum null value = ok tt
  check_enum (arr xs) value = do
    raise_if (item_count xs == 0) contract
    raise_if (not (all_texts xs)) contract
    raise_if (not (elim value [ str s ↦ has_text s xs | _ ↦ false ])) contract
  check_enum _ value = err contract

  is_schema : Json → Bool
  is_schema null = true
  is_schema (obj d) = true
  is_schema _ = false

  -- `_validate_input_value`
  unfoldable pub validate_input_value : Json → Fields → Result Done
  unfolding value_type value_schema check_enum is_schema required_type is_truthy
  validate_input_value value input =
      if is_null value then raise_if (is_true (get "required" input)) contract else (do
        let raw_schema = get "schema" input
        raise_if (not (is_schema raw_schema)) contract
        live_type ← required_type (value_type raw_schema input)
        schema_value value (live_kind live_type) (value_schema raw_schema input)
        check_enum (get "enum" input) value)

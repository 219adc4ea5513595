-- ===== src/Recovery/Commands/Defaults.antt =====
-- `_validate_action_provenance` and `_action_input_default` of recovery_executor.py: the defaults
-- that the live spec would fill in are those that the demonstration recorded.
use failure_resolver.Prelude.{
  String, Bool, true, false, not, ◌||◌, Option, none, some, str_eq, if◌then◌else◌, is_empty,
}
use failure_resolver.Json.{
  Json, null, bool, int, float, str, obj, Items, nil, cons, Fields, end, field, get,
}
use failure_resolver.Json.Bounds.{is_finite}
use failure_resolver.Json.Strict.{json_values_equal}
use failure_resolver.Errors.{Result, ok, err, contract, ◌>>=◌, ◌>>◌, raise_if, Done}
use failure_resolver.Runtime.{Runtime}
use failure_resolver.Recovery.Target.{as_object}
use failure_resolver.Recovery.Flow.{required_list}
use failure_resolver.Recovery.Plan.Action.{RecoveryAction, items_are_keys, keys_are_items}

is_type : Json → String → Bool
is_type (str s) t = str_eq s t
is_type _ t = false

-- `raw_schema.get("type")`, of a dict.
schema_type : Json → Json
schema_type (obj d) = get "type" d
schema_type _ = null

-- `d[k] = v`
unfoldable pub insert : String → Json → Fields → Fields
insert k v end = field k v end
insert k v (field j w d) = if str_eq j k then field j v d else field j w (insert k v d)

-- `d.update(e)`
unfoldable pub update : Fields → Fields → Fields
update d end = d
update d (field k v e) = update (insert k v d) e

module _ (py : Runtime) where
  text_default : String → Fields → Option Json
  unfolding is_type schema_type
  text_default raw input =
      if is_type (get "type" input) "boolean"
      then some (bool (str_eq raw "true"))
      else if is_type (get "type" input) "int"
      then (elim (py.parse_int raw) [ none ↦ none | some n ↦ some (int n) ])
      else if is_type (get "type" input) "float"
      then (elim (py.parse_float raw) [
        | none ↦ none
        | some f ↦ if is_finite f then some (float f) else none
      ])
      else if is_type (get "type" input) "array"
          || is_type (schema_type (get "schema" input)) "array"
      then (elim (py.loads raw) [ none ↦ some (str raw) | some v ↦ some v ])
      else some (str raw)

  -- `_action_input_default`: `none` is `_MISSING`.
  action_input_default : Fields → Result (Option Json)
  unfolding text_default
  action_input_default input = elim (get "placeholder" input) [
    | null ↦ ok none
    | str raw ↦ if is_empty raw then ok none else ok (text_default raw input)
    | _ ↦ err contract
  ]

  required_input_name : Json → Result String
  required_input_name (str s) = if is_empty s then err contract else ok s
  required_input_name _ = err contract

  -- The loop that fills `defaults`.
  collect_defaults : Items → Fields → Result Fields
  unfolding action_input_default required_input_name
  collect_defaults nil defaults = ok defaults
  collect_defaults (cons x xs) defaults = do
    raw ← as_object x
    default ← action_input_default raw
    defaults' ← elim default [
      | none ↦ ok defaults
      | some v ↦ do name ← required_input_name (get "name" raw); ok (insert name v defaults)
    ]
    collect_defaults xs defaults'

  is_nonempty : Fields → Bool
  is_nonempty end = false
  is_nonempty (field k v d) = true

  -- `explicit is not None and set(explicit) != set(action.arguments)`
  explicit_differs : Option Items → Fields → Bool
  explicit_differs none arguments = false
  explicit_differs (some xs) arguments =
      not (items_are_keys xs arguments) || not (keys_are_items arguments xs)

  unfoldable pub validate_action_provenance : RecoveryAction → Fields → Result Done
  unfolding collect_defaults explicit_differs is_nonempty
  validate_action_provenance action schema = do
    raw_inputs ← required_list (get "inputs" schema)
    defaults ← collect_defaults raw_inputs end
    raise_if (explicit_differs action.explicit_arguments action.arguments) contract
    elim action.arguments_effective [
      | none ↦ raise_if (is_nonempty defaults) contract
      | some effective ↦ do
        same ← json_values_equal py (obj effective) (obj (update defaults action.arguments))
        raise_if (not same) contract
    ]

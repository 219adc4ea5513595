-- ===== src/Recovery/Plan/Action.antt =====
-- One action of a recovery plan: its allowed fields, its arguments and their provenance.
use failure_resolver.Prelude.{
  ◌*◌, String, Bool, true, false, not, ◌&&◌, ◌||◌, Option, none, some, List, [], ◌∷◌, ltb, str_eq,
  if◌then◌else◌, len,
}
use failure_resolver.Json.{
  Json, str, arr, obj, Items, nil, cons, Fields, end, field, lookup, get, contains, keys_within,
}
use failure_resolver.Json.Bounds.{validate_json}
use failure_resolver.Json.Dump.{dump_size}
use failure_resolver.Json.Strict.{json_values_equal}
use failure_resolver.Errors.{Result, ok, err, contract, type_error, ◌>>=◌, ◌>>◌, raise_if, Done}
use failure_resolver.Runtime.{Runtime}
use failure_resolver.Recovery.Inputs.{required_text, is_trimmed}
use failure_resolver.Recovery.Target.{as_object}

-- An entry of `parsed`.
pub record ParsedAction : Type 0 where
  pub command : String
  pub arguments : Fields
  pub raw : Fields

pub record RecoveryAction : Type 0 where
  pub command : String
  pub arguments : Fields
  pub arguments_effective : Option Fields
  pub explicit_arguments : Option Items

-- `_ALLOWED_ACTION_FIELDS`
abbrev pub allowed_action_fields : List String
allowed_action_fields =
    "command" ∷ "title" ∷ "arguments" ∷ "arguments_effective" ∷ "explicit_arguments"
    ∷ "retry_context" ∷ "continuation_context" ∷ []

-- `list(d)`
unfoldable pub key_items : Fields → Items
key_items end = nil
key_items (field k v d) = cons (str k) (key_items d)

-- Some item of the list is the text.
unfoldable pub has_text : String → Items → Bool
has_text s nil = false
has_text s (cons (str t) xs) = if str_eq t s then true else has_text s xs
has_text s (cons _ xs) = has_text s xs

-- A text that names an argument: trimmed, not empty, at most 128 characters.
is_argument_name : Json → Bool
is_argument_name (str s) = is_trimmed s && not (ltb 128 (len s))
is_argument_name _ = false

all_names : Items → Bool
unfolding is_argument_name
all_names nil = true
all_names (cons x xs) = is_argument_name x && all_names xs

-- `len(set(explicit)) != len(explicit)`, of a list of texts.
has_duplicates : Items → Bool
has_duplicates nil = false
has_duplicates (cons (str s) xs) = has_text s xs || has_duplicates xs
has_duplicates (cons _ xs) = has_duplicates xs

-- Every item of the list is a key, and every key an item.
unfoldable pub items_are_keys : Items → Fields → Bool
items_are_keys nil d = true
items_are_keys (cons (str s) xs) d = contains s d && items_are_keys xs d
items_are_keys (cons _ xs) d = false

unfoldable pub keys_are_items : Fields → Items → Bool
keys_are_items end xs = true
keys_are_items (field k v d) xs = has_text k xs && keys_are_items d xs

-- The test of `explicit_arguments`: trimmed distinct texts, exactly the names of the arguments.
is_explicit : Json → Fields → Bool
unfolding all_names has_duplicates items_are_keys keys_are_items
is_explicit (arr xs) arguments =
    all_names xs
    && not (has_duplicates xs)
    && items_are_keys xs arguments
    && keys_are_items arguments xs
is_explicit _ arguments = false

validate_title : Fields → Result Done
validate_title raw =
    if contains "title" raw then (do required_text (get "title" raw) 300; ok tt) else ok tt

module _ (py : Runtime) where
  -- One key of `explicit_keys` holds in both dicts; a list or a dict is not hashable.
  same_effective : Json → Fields → Fields → Result Bool
  same_effective (str k) effective arguments = elim (lookup k effective) [
    | none ↦ ok false
    | some v ↦ json_values_equal py v (get k arguments)
  ]
  same_effective (arr xs) effective arguments = err type_error
  same_effective (obj d) effective arguments = err type_error
  same_effective _ effective arguments = ok false

  all_effective : Items → Fields → Fields → Result Bool
  unfolding same_effective
  all_effective nil effective arguments = ok true
  all_effective (cons x xs) effective arguments = do
    same ← same_effective x effective arguments
    if same then all_effective xs effective arguments else ok false

  check_effective : Json → Fields → Fields → Result Done
  unfolding all_effective
  check_effective (arr xs) effective arguments = do
    same ← all_effective xs effective arguments
    raise_if (not same) contract
  check_effective _ effective arguments = err contract

  -- `raw.get("explicit_arguments", list(arguments_copy))`
  explicit_keys : Fields → Fields → Json
  explicit_keys raw arguments = elim (lookup "explicit_arguments" raw) [
    | none ↦ arr (key_items arguments)
    | some v ↦ v
  ]

  validate_effective : Fields → Fields → Result Done
  unfolding check_effective explicit_keys
  validate_effective raw arguments =
      if contains "arguments_effective" raw
      then (do
        effective ← as_object (get "arguments_effective" raw)
        validate_json (obj effective)
        check_effective (explicit_keys raw arguments) effective arguments)
      else ok tt

  validate_explicit : Fields → Fields → Result Done
  unfolding is_explicit
  validate_explicit raw arguments =
      if contains "explicit_arguments" raw
      then raise_if (not (is_explicit (get "explicit_arguments" raw) arguments)) contract
      else ok tt

  -- The body of the loop over the actions of `parse_recovery_plan`.
  unfoldable pub parse_action : Json → Result ParsedAction
  unfolding validate_title validate_effective validate_explicit
  parse_action value = do
    raw ← as_object value
    raise_if (not (keys_within allowed_action_fields raw)) contract
    command ← required_text (get "command" raw) 128
    validate_title raw
    arguments ← as_object (get "arguments" raw)
    validate_json (obj arguments)
    raise_if (ltb (32 * 1024) (dump_size py (obj arguments))) contract
    validate_effective raw arguments
    validate_explicit raw arguments
    ok (record { command = command; arguments = arguments; raw = raw })

abbrev object_of : Json → Option Fields
object_of (obj d) = some d
object_of _ = none

abbrev list_of : Json → Option Items
list_of (arr xs) = some xs
list_of _ = none

-- The correction that a parsed action stands for.
unfoldable pub correction_of : ParsedAction → RecoveryAction
correction_of p = record {
  command = p.command;
  arguments = p.arguments;
  arguments_effective = object_of (get "arguments_effective" p.raw);
  explicit_arguments = list_of (get "explicit_arguments" p.raw);
}

-- ===== src/Recovery/Commands/Arguments.antt =====
-- `_validate_action_arguments` of recovery_executor.py: the arguments of a command against the
-- dotted paths of its live inputs.
use Prim.Native.Char.{code}
use failure_resolver.Prelude.{
  String, Bool, true, false, not, ◌&&◌, ◌||◌, Option, none, some, List, [], ◌∷◌, ◌++◌, ◌==◌, str_eq,
  if◌then◌else◌, is_empty, is_some, any,
}
use failure_resolver.Json.{
  Json, null, bool, str, obj, Items, nil, cons, Fields, end, field, lookup, get, is_null, is_true,
}
use failure_resolver.Json.Equal.{py_eq}
use failure_resolver.Errors.{Result, ok, err, contract, ◌>>=◌, ◌>>◌, raise_if, Done}
use failure_resolver.Runtime.{Runtime}
use failure_resolver.Recovery.Inputs.{is_trimmed}
use failure_resolver.Recovery.Target.{as_object}
use failure_resolver.Recovery.Flow.{required_list}
use failure_resolver.Recovery.Commands.Schema.{validate_input_value}

-- An input of the live spec under its path.
pub record LiveInput : Type 0 where
  pub path : List String
  pub input : Fields

-- `name.split(".")`
unfoldable pub split_dots : String → List String
split_dots String.[] = String.[] ∷ []
split_dots (String.◌∷◌ c s) =
    let parts = split_dots s in
    if code c == b'.'
    then String.[] ∷ parts
    else elim parts [ [] ↦ String.◌∷◌ c String.[] ∷ [] | p ∷ ps ↦ String.◌∷◌ c p ∷ ps ]

unfoldable pub path_eq : List String → List String → Bool
path_eq [] [] = true
path_eq (a ∷ as_) (b ∷ bs) = str_eq a b && path_eq as_ bs
path_eq _ _ = false

-- `len(a) < len(b) and b[:len(a)] == a`
unfoldable pub is_proper_prefix : List String → List String → Bool
is_proper_prefix [] [] = false
is_proper_prefix [] (b ∷ bs) = true
is_proper_prefix (a ∷ as_) (b ∷ bs) = str_eq a b && is_proper_prefix as_ bs
is_proper_prefix (a ∷ as_) [] = false

-- `by_path.get(path)`
unfoldable pub input_at : List String → List LiveInput → Option Fields
input_at path [] = none
input_at path (i ∷ inputs) = if path_eq i.path path then some i.input else input_at path inputs

is_bool : Json → Bool
is_bool (bool b) = true
is_bool _ = false

required_name : Json → Result String
required_name (str s) = if is_trimmed s then ok s else err contract
required_name _ = err contract

-- The loop that fills `by_path`, from the inputs before.
collect_inputs : Items → List LiveInput → Result (List LiveInput)
unfolding required_name is_bool
collect_inputs nil found = ok found
collect_inputs (cons x xs) found = do
  raw ← as_object x
  name ← required_name (get "name" raw)
  let path = split_dots name
  raise_if (any is_empty path || is_some (input_at path found)) contract
  raise_if (not (is_bool (get "required" raw))) contract
  collect_inputs xs (found ++ record { path = path; input = raw } ∷ [])

-- Some path is a proper prefix of another.
paths_overlap : List LiveInput → Bool
paths_overlap inputs = any (λ i. any (λ j. is_proper_prefix j.path i.path) inputs) inputs

-- `_path_value`
path_value : Json → List String → Option Json
path_value v [] = some v
path_value v (part ∷ parts) = elim v [
  | obj d ↦ elim (lookup part d) [ none ↦ none | some w ↦ path_value w parts ]
  | _ ↦ none
]

is_absent : Option Json → Bool
is_absent none = true
is_absent (some null) = true
is_absent (some (str s)) = is_empty s
is_absent (some _) = false

-- The last loop: every required input has a value.
required_present : List LiveInput → Json → Result Done
unfolding path_value is_absent
required_present [] arguments = ok tt
required_present (i ∷ inputs) arguments = do
  raise_if (is_true (get "required" i.input) && is_absent (path_value arguments i.path)) contract
  required_present inputs arguments

name_differs : String → Fields → Bool
name_differs command schema =
    not (is_null (get "name" schema)) && not (py_eq (get "name" schema) (str command))

module _ (py : Runtime) (inputs : List LiveInput) where
  unfoldable mutual
    -- `validate_object(value, prefix)`
    pub validate_object : Fields → List String → Result Done
    validate_object end prefix = ok tt
    validate_object (field k v d) prefix = do
      raise_if (is_empty k) contract
      elim (input_at (prefix ++ k ∷ []) inputs) [
        | some input ↦ validate_input_value py v input
        | none ↦
            if any (λ i. is_proper_prefix (prefix ++ k ∷ []) i.path) inputs
            then validate_nested v (prefix ++ k ∷ [])
            else err contract
      ]
      validate_object d prefix

    pub validate_nested : Json → List String → Result Done
    validate_nested (obj d) prefix = validate_object d prefix
    validate_nested _ prefix = err contract

module _ (py : Runtime) where
  unfoldable pub validate_action_arguments : String → Fields → Fields → Result Done
  unfolding collect_inputs paths_overlap required_present name_differs
  validate_action_arguments command arguments schema = do
    raise_if (name_differs command schema) contract
    raw_inputs ← required_list (get "inputs" schema)
    inputs ← collect_inputs raw_inputs []
    raise_if (paths_overlap inputs) contract
    validate_object py inputs arguments []
    required_present inputs (obj arguments)

-- ===== src/Json.antt =====
-- JSON values as Python holds them after `json.loads`: `None`, `bool`, `int`, `float`, `str`,
-- `list` and `dict` with text keys. A finite float is the exact value m / 2 ^ k of the double.
-- A dict is its items in order; a key is looked up at its first entry.
pub mod Equal
pub mod Bounds
pub mod Dump
pub mod Length
pub mod Strict
use failure_resolver.Prelude.{
  ℕ, suc, ◌+◌, String, Bool, true, false, ◌&&◌, Option, none, some, List, [], ◌∷◌, str_eq,
  if◌then◌else◌, is_some,
}
use failure_resolver.Prelude.Int.{ℤ, pos}

-- `finite m k` is m / 2 ^ k; `infinite true` is -inf.
pub data Float : Type 0 where
  finite : ℤ → ℕ → Float
  infinite : Bool → Float
  nan : Float

mutual
  pub data Json : Type 0 where
    null : Json
    bool : Bool → Json
    int : ℤ → Json
    float : Float → Json
    str : String → Json
    arr : Items → Json
    obj : Fields → Json

  pub data Items : Type 0 where
    nil : Items
    cons : Json → Items → Items

  pub data Fields : Type 0 where
    end : Fields
    field : String → Json → Fields → Fields

-- `d[k]`, where the key may be missing.
unfoldable pub lookup : String → Fields → Option Json
lookup k end = none
lookup k (field j v d) = if str_eq j k then some v else lookup k d

abbrev pub or_null : Option Json → Json
or_null none = null
or_null (some v) = v

-- `d.get(k)`
abbrev pub get : String → Fields → Json
get k d = or_null (lookup k d)

-- `k in d`
abbrev pub contains : String → Fields → Bool
contains k d = is_some (lookup k d)

abbrev pub is_null : Json → Bool
is_null null = true
is_null _ = false

-- `k in names`
unfoldable pub mem : String → List String → Bool
mem k [] = false
mem k (n ∷ names) = if str_eq n k then true else mem k names

-- `not (set(d) - names)`: every key is one of `names`.
unfoldable pub keys_within : List String → Fields → Bool
unfolding mem
keys_within names end = true
keys_within names (field k v d) = mem k names && keys_within names d

unfoldable pub items_list : Items → List Json
items_list nil = []
items_list (cons x xs) = x ∷ items_list xs

unfoldable pub list_items : List Json → Items
list_items [] = nil
list_items (x ∷ xs) = cons x (list_items xs)

-- `value is True`
abbrev pub is_true : Json → Bool
is_true (bool b) = b
is_true _ = false

abbrev pub nat : ℕ → Json
nat n = int (pos n)

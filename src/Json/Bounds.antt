-- ===== src/Json/Bounds.antt =====
-- `_validate_json` of recovery_executor.py: the bound on the nodes and the depth of a JSON value.
pub mod Size
pub mod Exact
use failure_resolver.Prelude.{ℕ, ◌+◌, Bool, true, false, not, ◌||◌, ltb}
use failure_resolver.Json.{
  Float, finite, Json, null, bool, int, float, str, arr, obj, Items, nil, cons, Fields, end, field,
}
use failure_resolver.Errors.{Result, ok, contract, ◌>>=◌, ◌>>◌, raise_if, Done}

abbrev pub max_nodes : ℕ
max_nodes = 2000

abbrev pub max_depth : ℕ
max_depth = 12

-- `math.isfinite`
abbrev pub is_finite : Float → Bool
is_finite (finite m k) = true
is_finite _ = false

-- The count with this node in it, if that and the depth are in their bounds.
unfoldable pub count_node : ℕ → ℕ → Result ℕ
count_node depth nodes = do
  raise_if (ltb max_nodes (nodes + 1) || ltb max_depth depth) contract
  ok (nodes + 1)

-- `walk(current, depth)` from the count of nodes so far to the count after it.
unfoldable mutual
  pub walk : Json → ℕ → ℕ → Result ℕ
  walk null depth nodes = count_node depth nodes
  walk (bool b) depth nodes = count_node depth nodes
  walk (int n) depth nodes = count_node depth nodes
  walk (str s) depth nodes = count_node depth nodes
  walk (float f) depth nodes = do
    n ← count_node depth nodes
    raise_if (not (is_finite f)) contract
    ok n
  walk (arr xs) depth nodes = do n ← count_node depth nodes; walk_items xs (depth + 1) n
  walk (obj d) depth nodes = do n ← count_node depth nodes; walk_fields d (depth + 1) n

  pub walk_items : Items → ℕ → ℕ → Result ℕ
  walk_items nil depth nodes = ok nodes
  walk_items (cons x xs) depth nodes = do n ← walk x depth nodes; walk_items xs depth n

  pub walk_fields : Fields → ℕ → ℕ → Result ℕ
  walk_fields end depth nodes = ok nodes
  walk_fields (field k v d) depth nodes = do n ← walk v depth nodes; walk_fields d depth n

unfoldable pub validate_json : Json → Result Done
unfolding walk
validate_json v = do walk v 0 0; ok tt

-- ===== src/Json/Bounds/Size.antt =====
-- The size of a JSON value: how many values it holds, how deep they lie, whether its numbers are finite.
use failure_resolver.Prelude.{ℕ, ◌+◌, Bool, true, ◌&&◌, leb, if◌then◌else◌}
use failure_resolver.Json.{Json, float, arr, obj, Items, nil, cons, Fields, end, field}
use failure_resolver.Json.Bounds.{is_finite}

unfoldable pub larger : ℕ → ℕ → ℕ
larger a b = if leb a b then b else a

-- The values in a value, itself included; the keys of a dict are no values.
unfoldable mutual
  pub nodes : Json → ℕ
  nodes (arr xs) = 1 + nodes_items xs
  nodes (obj d) = 1 + nodes_fields d
  nodes _ = 1

  pub nodes_items : Items → ℕ
  nodes_items nil = 0
  nodes_items (cons x xs) = nodes x + nodes_items xs

  pub nodes_fields : Fields → ℕ
  nodes_fields end = 0
  nodes_fields (field k v d) = nodes v + nodes_fields d

-- The longest way from a value down to one in it.
unfoldable mutual
  unfolding larger

  pub height : Json → ℕ
  height (arr xs) = height_items xs
  height (obj d) = height_fields d
  height _ = 0

  pub height_items : Items → ℕ
  height_items nil = 0
  height_items (cons x xs) = larger (1 + height x) (height_items xs)

  pub height_fields : Fields → ℕ
  height_fields end = 0
  height_fields (field k v d) = larger (1 + height v) (height_fields d)

-- No number in the value is infinite or not a number.
unfoldable mutual
  pub all_finite : Json → Bool
  all_finite (float f) = is_finite f
  all_finite (arr xs) = all_finite_items xs
  all_finite (obj d) = all_finite_fields d
  all_finite _ = true

  pub all_finite_items : Items → Bool
  all_finite_items nil = true
  all_finite_items (cons x xs) = all_finite x && all_finite_items xs

  pub all_finite_fields : Fields → Bool
  all_finite_fields end = true
  all_finite_fields (field k v d) = all_finite v && all_finite_fields d

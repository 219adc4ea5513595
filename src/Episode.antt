-- ===== src/Episode.antt =====
-- episode_evidence.py: the sanitizing of database rows before they are shown to a model or kept in a
-- memory. The values are those of a row that came as JSON; text keys are all that it has.
pub mod Clean
pub mod Evidence
use failure_resolver.Prelude.{
  ℕ, ◌+◌, String, Bool, true, false, not, ◌||◌, List, [], ◌∷◌, ltb, str_eq, if◌then◌else◌, any, len,
  strip, starts_with, contains_text, ends_with, dash_to_underscore,
}
use failure_resolver.Json.{
  Json, null, bool, int, float, str, arr, obj, Items, nil, cons, Fields, end, field, mem,
}
use failure_resolver.Json.Equal.{field_count}
use failure_resolver.Json.Bounds.{is_finite}
use failure_resolver.Errors.{Result, ok, err, value_error, ◌>>=◌, ◌>>◌, raise_if}
use failure_resolver.Runtime.{Runtime}
use failure_resolver.Recovery.Session.{item_count}

abbrev pub max_string_chars : ℕ
max_string_chars = 32_000

abbrev pub max_collection_items : ℕ
max_collection_items = 4_096

abbrev pub max_depth : ℕ
max_depth = 16

-- `_SENSITIVE_KEY_PARTS`
abbrev sensitive_key_parts : List String
sensitive_key_parts =
    "api_key" ∷ "apikey" ∷ "authorization" ∷ "client_secret" ∷ "cookie" ∷ "credential" ∷ "passwd"
    ∷ "password" ∷ "private_key" ∷ "service_role" ∷ []

-- `_RESOLVER_BOOKKEEPING_KEYS`
abbrev resolver_bookkeeping_keys : List String
resolver_bookkeeping_keys =
    "matcher_status" ∷ "matcher_message" ∷ "resolver_suggestion" ∷ "memory_status"
    ∷ "memory_resolution_id" ∷ "memory_commit_sha" ∷ "memory_message" ∷ "memory_ingested_at"
    ∷ "updated_at" ∷ []

unfoldable pub is_sensitive_name : String → Bool
unfolding mem
is_sensitive_name name =
    mem name resolver_bookkeeping_keys
    || str_eq name "operator_email"
    || ends_with "_email" name
    || str_eq name "token"
    || starts_with "token_" name
    || ends_with "_token" name
    || any (λ part. contains_text part name) sensitive_key_parts

module _ (py : Runtime) where
  -- `_is_sensitive_key`
  unfoldable pub is_sensitive_key : String → Bool
  is_sensitive_key key = is_sensitive_name (dash_to_underscore (py.lower (strip key)))

  -- `_sanitize_value`
  unfoldable mutual
    pub sanitize_value : Json → ℕ → Result Json
    sanitize_value null depth = do raise_if (ltb max_depth depth) value_error; ok null
    sanitize_value (bool b) depth = do raise_if (ltb max_depth depth) value_error; ok (bool b)
    sanitize_value (int n) depth = do raise_if (ltb max_depth depth) value_error; ok (int n)
    sanitize_value (str s) depth = do
      raise_if (ltb max_depth depth) value_error
      raise_if (ltb max_string_chars (len s)) value_error
      ok (str s)
    sanitize_value (float f) depth = do
      raise_if (ltb max_depth depth) value_error
      raise_if (not (is_finite f)) value_error
      ok (float f)
    sanitize_value (obj o) depth = do
      raise_if (ltb max_depth depth) value_error
      raise_if (ltb max_collection_items (field_count o)) value_error
      result ← sanitize_fields o (depth + 1)
      ok (obj result)
    sanitize_value (arr xs) depth = do
      raise_if (ltb max_depth depth) value_error
      raise_if (ltb max_collection_items (item_count xs)) value_error
      result ← sanitize_items xs (depth + 1)
      ok (arr result)

    pub sanitize_fields : Fields → ℕ → Result Fields
    sanitize_fields end depth = ok end
    sanitize_fields (field k v o) depth =
        let rest = sanitize_fields o depth in
        if is_sensitive_key k
        then rest
        else (do child ← sanitize_value v depth; others ← rest; ok (field k child others))

    pub sanitize_items : Items → ℕ → Result Items
    sanitize_items nil depth = ok nil
    sanitize_items (cons x xs) depth = do
      child ← sanitize_value x depth
      others ← sanitize_items xs depth
      ok (cons child others)

-- ===== src/Json/Length.antt =====
-- `len(json.dumps(value, ensure_ascii=False, separators=(",", ":")))`, in characters. The order of the
-- keys does not change it.
use Prim.Native.Char.{Char, code}
use failure_resolver.Prelude.{ℕ, ◌+◌, String, true, false, ◌||◌, ltb, ◌==◌, if◌then◌else◌}
use failure_resolver.Json.{
  Json, null, bool, int, float, str, arr, obj, Items, nil, cons, Fields, end, field,
}
use failure_resolver.Json.Dump.{int_size}
use failure_resolver.Runtime.{Runtime}

-- `"`, `\`, and \b \f \n \r \t take two characters, other control characters six.
char_length : Char → ℕ
char_length c =
    if (code c == 34) || (code c == 92)
    then 2
    else if ltb 31 (code c)
    then 1
    else if (code c == 8) || (code c == 9) || (code c == 10) || (code c == 12) || (code c == 13)
    then 2
    else 6

text_length : String → ℕ
unfolding char_length
text_length String.[] = 2
text_length (String.◌∷◌ c s) = char_length c + text_length s

module _ (py : Runtime) where
  unfoldable mutual
    unfolding int_size text_length

    pub dump_length : Json → ℕ
    dump_length null = 4
    dump_length (bool true) = 4
    dump_length (bool false) = 5
    dump_length (int n) = int_size n
    dump_length (float f) = py.float_size f
    dump_length (str s) = text_length s
    dump_length (arr nil) = 2
    dump_length (arr (cons x xs)) = 2 + dump_length x + items_length xs
    dump_length (obj end) = 2
    dump_length (obj (field k v d)) = 3 + text_length k + dump_length v + fields_length d

    -- Each further entry has a comma before it.
    pub items_length : Items → ℕ
    items_length nil = 0
    items_length (cons x xs) = 1 + dump_length x + items_length xs

    pub fields_length : Fields → ℕ
    fields_length end = 0
    fields_length (field k v d) = 2 + text_length k + dump_length v + fields_length d

-- ===== src/Json/Dump.antt =====
-- The length in bytes of `json.dumps(value, separators=(",", ":"), ensure_ascii=False)` in UTF-8.
-- The order of the keys does not change it.
use Prim.Native.Char.{Char, code, len_utf8}
use failure_resolver.Prelude.{
  ℕ, zero, suc, ◌+◌, ◌/◌, String, true, false, ◌||◌, ltb, ◌==◌, if◌then◌else◌,
}
use failure_resolver.Prelude.Int.{ℤ, pos, negsuc}
use failure_resolver.Json.{
  Json, null, bool, int, float, str, arr, obj, Items, nil, cons, Fields, end, field,
}
use failure_resolver.Runtime.{Runtime}

-- The number of decimal digits; a number is not below its number of digits, so the fuel suffices.
digit_count : ℕ → ℕ → ℕ
digit_count zero n = 1
digit_count (suc fuel) n = let rest = digit_count fuel (n / 10) in if ltb n 10 then 1 else rest + 1

unfoldable pub int_size : ℤ → ℕ
unfolding digit_count
int_size (pos n) = digit_count n n
int_size (negsuc n) = digit_count n (suc n) + 1

-- `"`, `\`, and \b \f \n \r \t take two bytes, other control characters six.
char_size : Char → ℕ
char_size c =
    if (code c == 34) || (code c == 92)
    then 2
    else if ltb 31 (code c)
    then len_utf8 c
    else if (code c == 8) || (code c == 9) || (code c == 10) || (code c == 12) || (code c == 13)
    then 2
    else 6

text_size : String → ℕ
unfolding char_size
text_size String.[] = 2
text_size (String.◌∷◌ c s) = char_size c + text_size s

module _ (py : Runtime) where
  unfoldable mutual
    unfolding int_size text_size

    pub dump_size : Json → ℕ
    dump_size null = 4
    dump_size (bool true) = 4
    dump_size (bool false) = 5
    dump_size (int n) = int_size n
    dump_size (float f) = py.float_size f
    dump_size (str s) = text_size s
    dump_size (arr nil) = 2
    dump_size (arr (cons x xs)) = 2 + dump_size x + dump_items xs
    dump_size (obj end) = 2
    dump_size (obj (field k v d)) = 3 + text_size k + dump_size v + dump_fields d

    -- Each further item has a comma before it.
    pub dump_items : Items → ℕ
    dump_items nil = 0
    dump_items (cons x xs) = 1 + dump_size x + dump_items xs

    pub dump_fields : Fields → ℕ
    dump_fields end = 0
    dump_fields (field k v d) = 2 + text_size k + dump_size v + dump_fields d

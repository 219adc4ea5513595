-- ===== src/Prelude/Strings.antt =====
-- Python's text methods that need no table of letters: `strip`, `len`, `startswith` on one
-- character, and full matches of character classes.
use Prim.Native.Char.{code}
use Prim.Native.Nat.{ℕ}
use Prim.Native.String.{String, count}
use mathlib.Core.Bool.{Bool, true, false, ◌&&◌, ◌||◌}
use failure_resolver.Prelude.Tests.{leb, ◌==◌, if◌then◌else◌}

-- `str.isspace` of one character: the code points that `str.strip` removes.
is_space : ℕ → Bool
is_space c =
    (leb 9 c && leb c 13)
    || (leb 28 c && leb c 32)
    || (c == 0x85)
    || (c == 0xa0)
    || (c == 0x1680)
    || (leb 0x2000 c && leb c 0x200a)
    || (c == 0x2028)
    || (c == 0x2029)
    || (c == 0x202f)
    || (c == 0x205f)
    || (c == 0x3000)

abbrev pub is_empty : String → Bool
is_empty String.[] = true
is_empty (String.◌∷◌ c s) = false

lstrip : String → String
lstrip String.[] = String.[]
lstrip (String.◌∷◌ c s) = if is_space (code c) then lstrip s else String.◌∷◌ c s

rstrip : String → String
rstrip String.[] = String.[]
rstrip (String.◌∷◌ c s) =
    let r = rstrip s in if is_empty r && is_space (code c) then String.[] else String.◌∷◌ c r

-- `str.strip()`
unfoldable pub strip : String → String
unfolding is_space lstrip rstrip
strip s = lstrip (rstrip s)

-- `len` of a `str`: its code points.
abbrev pub len : String → ℕ
len s = count s

-- Every character has the class `p`.
unfoldable pub all_chars : (ℕ → Bool) → String → Bool
all_chars p String.[] = true
all_chars p (String.◌∷◌ c s) = p (code c) && all_chars p s

-- `s.startswith("$")`
unfoldable pub starts_with_dollar : String → Bool
starts_with_dollar String.[] = false
starts_with_dollar (String.◌∷◌ c s) = code c == b'$'

abbrev pub is_digit : ℕ → Bool
is_digit c = leb b'0' c && leb c b'9'

-- `[0-9a-f]`
abbrev pub is_lower_hex : ℕ → Bool
is_lower_hex c = is_digit c || (leb b'a' c && leb c b'f')

-- `[0-9a-f]` under `re.IGNORECASE`
abbrev pub is_hex : ℕ → Bool
is_hex c = is_lower_hex c || (leb b'A' c && leb c b'F')

-- `[A-Za-z0-9-]`
abbrev pub is_label_char : ℕ → Bool
is_label_char c =
    is_digit c || (leb b'a' c && leb c b'z') || (leb b'A' c && leb c b'Z') || (c == b'-')

-- `s.startswith(p)`, `s.endswith(p)` and `p in s`
unfoldable pub starts_with : String → String → Bool
starts_with String.[] s = true
starts_with (String.◌∷◌ c p) String.[] = false
starts_with (String.◌∷◌ c p) (String.◌∷◌ d s) = (code c == code d) && starts_with p s

unfoldable pub contains_text : String → String → Bool
unfolding starts_with
contains_text p String.[] = starts_with p String.[]
contains_text p (String.◌∷◌ c s) = starts_with p (String.◌∷◌ c s) || contains_text p s

unfoldable pub ends_with : String → String → Bool
ends_with p String.[] = is_empty p
ends_with p (String.◌∷◌ c s) =
    (starts_with p (String.◌∷◌ c s) && (count p == count (String.◌∷◌ c s))) || ends_with p s

-- `s.replace("-", "_")`
unfoldable pub dash_to_underscore : String → String
dash_to_underscore String.[] = String.[]
dash_to_underscore (String.◌∷◌ c s) =
    let rest = dash_to_underscore s in
    if code c == b'-' then String.◌∷◌ "_" rest else String.◌∷◌ c rest

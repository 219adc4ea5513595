-- ===== src/Recovery/Inputs.antt =====
-- The checked readers of untrusted JSON in recovery_executor.py: `_required_text`,
-- `_required_int`, `_required_uuid`, `_uuid_text`, and its patterns.
use Prim.Native.Char.{code}
use failure_resolver.Prelude.{
  ℕ, zero, suc, ◌≤◌, ◌≡◌, String, Bool, true, false, not, ◌&&◌, ◌||◌, Option, none, some, List, [],
  ◌∷◌, arith, leb, ltb, ◌==◌, str_eq, if◌then◌else◌, strip, len, is_empty, all_chars, is_lower_hex,
  is_hex, is_label_char,
}
use failure_resolver.Prelude.Int.{pos}
use failure_resolver.Json.{Json, str, int, is_null}
use failure_resolver.Errors.{Result, ok, err, contract, ◌>>=◌, ◌>>◌, raise_if}
use failure_resolver.Runtime.{Runtime}

-- `_SYSID_PATTERN.fullmatch(s)`
unfoldable pub is_sysid : String → Bool
is_sysid s = all_chars is_label_char s && leb 1 (len s) && leb (len s) 64

-- `_HASH_PATTERN.fullmatch(s)`, which is also `_EPISODE_KEY_PATTERN`
unfoldable pub is_hash : String → Bool
is_hash s = all_chars is_lower_hex s && (len s == 64)

match_classes : List (ℕ → Bool) → String → Bool
match_classes [] String.[] = true
match_classes (p ∷ ps) (String.◌∷◌ c s) = p (code c) && match_classes ps s
match_classes _ _ = false

times : ℕ → (ℕ → Bool) → List (ℕ → Bool) → List (ℕ → Bool)
times zero p ps = ps
times (suc n) p ps = p ∷ times n p ps

is_dash : ℕ → Bool
is_dash c = c == b'-'

-- `[1-5]` and `[89ab]`
is_version : ℕ → Bool
is_version c = leb b'1' c && leb c b'5'

is_variant : ℕ → Bool
is_variant c =
    (leb b'8' c && leb c b'9') || (leb b'a' c && leb c b'b') || (leb b'A' c && leb c b'B')

-- `_UUID_PATTERN.fullmatch(s)`
unfoldable pub is_uuid : String → Bool
unfolding match_classes times is_dash is_version is_variant
is_uuid s =
    match_classes
      (times 8 is_hex (
        is_dash
        ∷ times 4 is_hex (
            is_dash
            ∷ is_version
            ∷ times 3 is_hex
                (is_dash ∷ is_variant ∷ times 3 is_hex (is_dash ∷ times 12 is_hex [])))))
      s

-- The text is not empty and has no white space at its ends.
abbrev pub is_trimmed : String → Bool
is_trimmed s = not (is_empty s) && str_eq (strip s) s

unfoldable pub required_text : Json → ℕ → Result String
required_text (str s) max_length =
    if not (is_trimmed s)
    then err contract
    else if ltb max_length (len s)
    then err contract
    else ok s
required_text _ max_length = err contract

-- All bounds of the program are at least 0, so what passes is a natural number.
unfoldable pub required_int : Json → ℕ → ℕ → Result ℕ
required_int (int (pos n)) minimum maximum =
    if leb minimum n && leb n maximum then ok n else err contract
required_int _ minimum maximum = err contract

module _ (py : Runtime) where
  -- `_uuid_text`
  unfoldable pub uuid_text : Json → Option String
  uuid_text (str s) =
      let canonical = py.lower (strip s) in
      if is_uuid canonical then some (py.uuid_text canonical) else none
  uuid_text _ = none

  unfoldable pub required_uuid : Json → Result String
  required_uuid v = elim (uuid_text v) [ none ↦ err contract | some u ↦ ok u ]

  -- `None if v is None else _required_uuid(v)`
  unfoldable pub optional_uuid : Json → Result (Option String)
  optional_uuid v = if is_null v then ok none else (do u ← required_uuid v; ok (some u))

  -- `_required_text(row.get("sysid"), ...).upper()`, held to the pattern of a sysid
  unfoldable pub required_sysid : Json → Result String
  required_sysid v = do
    s ← required_text v 64
    let sysid = py.upper s
    raise_if (not (is_sysid sysid)) contract
    ok sysid

-- `_required_text(row.get(key), ...)`, held to the pattern of a hash
unfoldable pub required_hash : Json → Result String
required_hash v = do s ← required_text v 64; raise_if (not (is_hash s)) contract; ok s

pub required_int_bounds :
    (v : Json) (lo hi : ℕ) {n : ℕ} → required_int v lo hi ≡ ok n → (lo ≤ n) × (n ≤ hi)
unfolding required_int
required_int_bounds (int (pos n)) lo hi h = ground arith
required_int_bounds _ lo hi h = cc

pub required_text_bounds : (v : Json) (m : ℕ) {s : String} → required_text v m ≡ ok s → len s ≤ m
unfolding required_text
required_text_bounds (str s) m h = ground arith
required_text_bounds _ m h = cc

-- What the readers return is what stood there.
pub required_int_eq : (v : Json) (lo hi : ℕ) {n : ℕ} → required_int v lo hi ≡ ok n → v ≡ int (pos n)
unfolding required_int
required_int_eq (int (pos n)) lo hi h = ground arith
required_int_eq _ lo hi h = cc

pub required_text_eq : (v : Json) (m : ℕ) {s : String} → required_text v m ≡ ok s → v ≡ str s
unfolding required_text
required_text_eq (str s) m h = ground arith
required_text_eq _ m h = cc

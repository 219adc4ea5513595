-- ===== src/Runtime.antt =====
-- What the models take from the Python runtime: the text methods that rest on Unicode's tables
-- of letters, and the parsing, the rounding and the printing of numbers. No law of these is assumed.
use failure_resolver.Prelude.{ℕ, String, Option}
use failure_resolver.Prelude.Int.{ℤ}
use failure_resolver.Json.{Float, Json}

pub record Runtime : Type 0 where
  -- str.upper, str.lower, str.casefold
  pub upper : String → String
  pub lower : String → String
  pub casefold : String → String
  -- str(uuid.UUID(s)), at a text of the UUID pattern
  pub uuid_text : String → String
  -- float(n), which raises OverflowError where it gives `none`
  pub float_of_int : ℤ → Option Float
  -- len(repr(f)), at a finite float
  pub float_size : Float → ℕ
  -- int(s, 10) and float(s), which raise ValueError where they give `none`
  pub parse_int : String → Option ℤ
  pub parse_float : String → Option Float
  -- json.loads(s), at a text
  pub loads : String → Option Json

-- ===== src/Errors.antt =====
-- The exceptions of robot_session.py and recovery_executor.py as values, and what a call returns.
-- An exception's text is not kept: the code decides by the class alone.
use mathlib.Core.Path.{subst}
use failure_resolver.Prelude.{◌≡◌, refl, ap, ◌∙◌, Bool, true, false}

pub data Error : Type 0 where
  -- RecoveryContractError and its two subclasses
  contract non_executable live_state_changed : Error
  database_unavailable : Error
  -- RobotCommandNotSentError, RobotCommandRejectedError, RobotCommandOutcomeUnknownError
  not_sent rejected outcome_unknown : Error
  timeout cancelled : Error
  value_error type_error assertion : Error
  -- any other exception, as one that the database client raises
  other : Error

pub data Result {ℓ} (A : Type ℓ) : Type ℓ where
  ok : A → Result A
  err : Error → Result A

abbrev pub Done : Type 0
Done = Unit

-- `if test: raise error`
abbrev pub raise_if : Bool → Error → Result Done
raise_if true e = err e
raise_if false e = ok tt

infixl 5 ◌>>=◌ ◌>>◌
unfoldable pub ◌>>=◌ {ℓ κ} : {A : Type ℓ} {B : Type κ} → Result A → (A → Result B) → Result B
ok a >>= f = f a
err e >>= f = err e

abbrev pub ◌>>◌ {ℓ κ} : {A : Type ℓ} {B : Type κ} → Result A → Result B → Result B
m >> k = m >>= λ _. k

-- `except RecoveryContractError`
abbrev pub is_contract : Error → Bool
is_contract contract = true
is_contract non_executable = true
is_contract live_state_changed = true
is_contract _ = false

ok-injective {ℓ} : {A : Type ℓ} {a b : A} → ok a ≡ ok b → a ≡ b
ok-injective e = cc

-- `P` holds of what the call returns, if it returns. A proof goes through a `do` block by one rule
-- for each line, with the line's value as a variable.
pub data Ensures {ℓ κ} {A : Type ℓ} (P : A → Type κ) : Result A → Type (ℓ ⊔ κ) where
  returns : {a : A} → P a → Ensures P (ok a)
  raises : (e : Error) → Ensures P (err e)

pub bind-Ensures {ℓ κ μ} :
    {A : Type ℓ} {B : Type κ} {P : B → Type μ} (m : Result A) {f : A → Result B}
    → ((a : A) → m ≡ ok a → Ensures P (f a))
    → Ensures P (m >>= f)
unfolding ◌>>=◌
bind-Ensures (ok a) h = h a refl
bind-Ensures (err e) h = raises e

pub raise_if-Ensures {κ μ} :
    {B : Type κ} {P : B → Type μ} (t : Bool) (e : Error) {m : Result B}
    → (t ≡ false → Ensures P m)
    → Ensures P (raise_if t e >> m)
unfolding ◌>>=◌
raise_if-Ensures true e h = raises e
raise_if-Ensures false e h = h refl

pub Ensures-ok {ℓ κ} :
    {A : Type ℓ} {P : A → Type κ} {r : Result A} {a : A} → Ensures P r → r ≡ ok a → P a
Ensures-ok {P = P} (returns {a = b} p) e = subst P (ok-injective e) p
Ensures-ok (raises e') e = cc

pub map-Ensures {ℓ κ μ} :
    {A : Type ℓ} {P : A → Type κ} {Q : A → Type μ} {r : Result A}
    → ((a : A) → P a → Q a)
    → Ensures P r
    → Ensures Q r
map-Ensures f (returns {a = a} p) = returns (f a p)
map-Ensures f (raises e) = raises e

-- A block goes on with what its first line returns.
pub >>=-ok :
    {A B : Type 0} {m : Result A} {r : Result B} (f : A → Result B) (a : A)
    → m ≡ ok a
    → f a ≡ r
    → (m >>= f) ≡ r
unfolding ◌>>=◌
>>=-ok f a e h = ap (λ m. m >>= f) e ∙ h

-- And a check that passes is left behind.
pub raise_if-ok :
    {A : Type 0} (b : Bool) (e : Error) {m r : Result A}
    → b ≡ false
    → m ≡ r
    → (raise_if b e >> m) ≡ r
unfolding ◌>>=◌
raise_if-ok true e h k = cc
raise_if-ok false e h k = k

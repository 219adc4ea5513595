-- ===== src/Recovery/Attempt/Monad.antt =====
-- The state that one attempt of a recovery changes, and its calls as actions that may raise.
use failure_resolver.Prelude.{ℕ, String, Bool, Option, List}
use failure_resolver.Json.{Fields}
use failure_resolver.Errors.{Error, Result, ok, err, Done}

-- The results that `database.finish` is called with.
pub data Finish : Type 0 where
  awaiting_outcome recovered failed unknown : Finish

-- A call of `request_command`.
pub record Command : Type 0 where
  pub name : String
  pub arguments : Fields

-- What the processing of a failure changes of `RecoveryExecutionState`.
pub record Stats : Type 0 where
  pub events_skipped : ℕ
  pub recurrences_attached : ℕ
  pub sessions_prepared : ℕ
  pub attempts_claimed : ℕ
  pub actions_accepted : ℕ
  pub attempts_recovered : ℕ
  pub attempts_failed : ℕ
  pub attempts_unknown : ℕ
  pub sessions_timed_out : ℕ
  pub expired_attempts_reconciled : ℕ
  pub execution_errors : ℕ
  pub last_failure_id : Option String
  pub last_session_id : Option String
  pub last_error_type : Option Error

-- A call of `database.claim`, with what it returned or raised.
pub record Claim : Type 0 where
  pub failure_id : String
  pub recovery_session_id : String
  pub reply : Result Fields

-- The outside world, the calls made to it so far, and `command_dispatched`.
pub record Run (W : Type 0) : Type 0 where
  pub world : W
  pub sent : List Command
  pub finishes : List Finish
  pub claims : List Claim
  pub dispatched : Bool
  pub stats : Stats

abbrev pub M : Type 0 → Type 0 → Type 0
M W A = Run W → Result A × Run W

module _ {W : Type 0} where
  module _ {A : Type 0} where
    unfoldable pub pure : A → M W A
    pure a r = (ok a, r)

    unfoldable pub lift : Result A → M W A
    lift m r = (m, r)

    unfoldable pub raise : Error → M W A
    raise e r = (err e, r)

  unfoldable pub modify : (Run W → Run W) → M W Done
  modify f r = (ok tt, f r)

  module _ {A B : Type 0} where
    unfoldable pub continue : Result A → (A → M W B) → M W B
    continue (ok a) f r = f a r
    continue (err e) f r = (err e, r)

    infixl 5 ◌>>=◌ ◌>>◌
    unfoldable pub ◌>>=◌ : M W A → (A → M W B) → M W B
    unfolding continue
    ◌>>=◌ m f r = let (x, r') = m r in continue x f r'

    abbrev pub ◌>>◌ : M W A → M W B → M W B
    m >> k = m >>= λ _. k

-- ===== src/Recovery/Session/Lifecycle.antt =====
-- What every parsed recovery session satisfies.
use failure_resolver.Prelude.{
  ℕ, ◌≤◌, ◌<◌, ◌≡◌, String, Bool, true, false, Option, none, arith, is_some, not_ltb→le,
}
use failure_resolver.Json.{Json, arr, Items, Fields}
use failure_resolver.Errors.{
  ok, ◌>>=◌, Ensures, returns, bind-Ensures, raise_if-Ensures, Ensures-ok,
}
use failure_resolver.Runtime.{Runtime}
use failure_resolver.Recovery.Inputs.{required_int_bounds}
use failure_resolver.Recovery.Target.{Status, ready, failed, timed_out, cancelled}
use failure_resolver.Recovery.Session.{
  SessionRecord, item_count, required_actions, lifecycle_broken, parse_recovery_session,
}

-- The budget of attempts and the run token that each status stands for.
abbrev pub FitsStatus : Status → ℕ → ℕ → Option String → Type 0
FitsStatus ready attempts maximum token = (attempts ≡ 0) × (token ≡ none)
FitsStatus failed attempts maximum token =
    (1 ≤ attempts) × (attempts < maximum) × (is_some token ≡ true)
FitsStatus timed_out attempts maximum token = (attempts ≡ maximum) × (is_some token ≡ true)
FitsStatus cancelled attempts maximum token = Unit
FitsStatus _ attempts maximum token = (1 ≤ attempts) × (is_some token ≡ true)

pub record IsValid (s : SessionRecord) : Type 0 where
  pub attempts_le : s.recovery_attempts ≤ s.recovery_max_attempts
  pub max_pos : 1 ≤ s.recovery_max_attempts
  pub max_le : s.recovery_max_attempts ≤ 20
  pub rewind_le : s.recovery_rewind_steps ≤ 5
  pub actions_pos : 1 ≤ item_count s.pinned_actions
  pub actions_le : item_count s.pinned_actions ≤ 10
  pub status_fits :
      FitsStatus s.recovery_status s.recovery_attempts s.recovery_max_attempts s.recovery_run_token

lifecycle_lem :
    (st : Status) (attempts maximum : ℕ) (token : Option String)
    → lifecycle_broken st attempts maximum token ≡ false
    → FitsStatus st attempts maximum token
unfolding lifecycle_broken
lifecycle_lem ready attempts maximum token h = ground arith
lifecycle_lem failed attempts maximum token h = ground arith
lifecycle_lem timed_out attempts maximum token h = ground arith
lifecycle_lem cancelled attempts maximum token h = tt
lifecycle_lem _ attempts maximum token h = ground arith

required_actions_bounds :
    (v : Json) {xs : Items}
    → required_actions v ≡ ok xs
    → (1 ≤ item_count xs) × (item_count xs ≤ 10)
unfolding required_actions ◌>>=◌
required_actions_bounds (arr xs) h = ground arith
required_actions_bounds _ h = cc

module _ (py : Runtime) (row : Fields) where
  session-Ensures : (active : Bool) → Ensures IsValid (parse_recovery_session py row active)
  unfolding parse_recovery_session
  session-Ensures active = bind-Ensures _ λ st e1. bind-Ensures _ λ xs e2.
      bind-Ensures _ λ attempts e3. bind-Ensures _ λ maximum e4. raise_if-Ensures _ _ λ within.
        bind-Ensures _ λ rewind e5. bind-Ensures _ λ token e6. raise_if-Ensures _ _ λ c1.
          raise_if-Ensures _ _ λ c2. raise_if-Ensures _ _ λ cycle. bind-Ensures _ λ _ _.
            bind-Ensures _ λ _ _. bind-Ensures _ λ _ _. raise_if-Ensures _ _ λ c3.
              raise_if-Ensures _ _ λ c4. bind-Ensures _ λ _ _. bind-Ensures _ λ _ _.
                bind-Ensures _ λ _ _. bind-Ensures _ λ _ _. bind-Ensures _ λ _ _.
                  bind-Ensures _ λ _ _. bind-Ensures _ λ _ _. bind-Ensures _ λ _ _.
                    returns (record {
                      attempts_le = not_ltb→le _ _ within;
                      max_pos = (required_int_bounds _ 1 20 e4).0;
                      max_le = (required_int_bounds _ 1 20 e4).1;
                      rewind_le = (required_int_bounds _ 0 5 e5).1;
                      actions_pos = (required_actions_bounds _ e2).0;
                      actions_le = (required_actions_bounds _ e2).1;
                      status_fits = lifecycle_lem st attempts maximum token cycle;
                    })

  -- A session that parses is within its budget: at least one attempt is allowed and at most 20, no
  -- more were made than are allowed, it rewinds at most 5 steps, it pins 1 to 10 actions, and its
  -- attempts and run token are those that its status calls for.
  pub parse_recovery_session-IsValid :
      (active : Bool) {s : SessionRecord} → parse_recovery_session py row active ≡ ok s → IsValid s
  parse_recovery_session-IsValid active h = Ensures-ok (session-Ensures active) h

-- ===== src/Recovery/Coordinator.antt =====
-- `RecoveryCoordinator` of recovery_executor.py, from a failure's identifier to the attempts made for
-- it: the calls that its methods make and the state that they share.
pub mod Prepare
pub mod Attempts
pub mod Process
pub mod Quiet
pub mod Log
pub mod Claimed
pub mod Sent
pub mod Spent
pub mod Ends
pub mod Reconcile
use failure_resolver.Prelude.{
  ℕ, ◌+◌, String, Bool, true, false, not, ◌&&◌, str_eq, Option, none, some, List, [], ◌∷◌, ◌++◌,
  if◌then◌else◌,
}
use failure_resolver.Json.{Json, Fields}
use failure_resolver.Errors.{Error, Result, ok, err, Done}
use failure_resolver.Robot.Frames.{CommandsFrame}
use failure_resolver.Robot.Pointer.{FlowPointer}
use failure_resolver.Recovery.Target.{PointerKey, key_eq, PointerTarget}
use failure_resolver.Recovery.Attempt.{Outside, FinishCall}
use failure_resolver.Recovery.Attempt.Monad.{Finish, Stats, Claim, Run, M}

-- What the coordinator reads of its settings. `required_lease n` is
-- `math.ceil((n + 1) * command_timeout_seconds + outcome_timeout_seconds + 5.0)`, in floating point.
pub record Settings : Type 0 where
  pub enabled : Bool
  pub robot_allowlist : List String
  pub max_attempts : ℕ
  pub lease_seconds : ℕ
  pub required_lease : ℕ → ℕ
  pub has_start_grace : Bool

-- `_ActiveRecovery`
pub record Active : Type 0 where
  pub recovery_session_id : String
  pub current_failure_id : String

abbrev pub Actives : Type 0
Actives = List (PointerKey × Active)

-- `_active_by_pointer.get(key)`, `_active_by_pointer[key] = active` and `.pop(key, None)`.
unfoldable pub find_active : PointerKey → Actives → Option Active
find_active k [] = none
find_active k ((j, a) ∷ others) = if key_eq j k then some a else find_active k others

unfoldable pub drop_active : PointerKey → Actives → Actives
drop_active k [] = []
drop_active k ((j, a) ∷ others) =
    let rest = drop_active k others in if key_eq j k then rest else (j, a) ∷ rest

unfoldable pub put_active : PointerKey → Active → Actives → Actives
unfolding drop_active
put_active k a others = (k, a) ∷ drop_active k others

-- `active.current_failure_id = id`, if the session is still active at the step; its entry is known by
-- the session, and one that was dropped while a call was awaited stays dropped.
unfoldable pub set_current : PointerKey → String → String → Actives → Actives
set_current k session_id id [] = []
set_current k session_id id ((j, a) ∷ others) =
    let rest = set_current k session_id id others in
    if key_eq j k && str_eq a.recovery_session_id session_id
    then (j, record a { current_failure_id = id }) ∷ rest
    else (j, a) ∷ rest

-- The arguments of `database.prepare`.
pub record PrepareCall : Type 0 where
  pub failure_id : String
  pub recovery_session_id : String
  pub max_attempts : ℕ
  pub rewind_steps : ℕ

-- The arguments of `database.claim`.
pub record ClaimCall : Type 0 where
  pub failure_id : String
  pub recovery_session_id : String
  pub lease_seconds : ℕ

-- The further calls, beside those of an attempt. `actives` and `stopped` are the coordinator's own
-- state, which its other tasks change while a call is awaited; so they are read off the world.
pub record Control : Type 1 where
  pub out : Outside
  pub settings : Settings
  pub has_session : String → Bool
  pub stopped : out.World → Bool
  pub actives : out.World → Actives
  pub set_actives : Actives → out.World → out.World
  -- `RobotSession.wait_connected`, and `wait_for_flow` for the paused step of a target, with the
  -- connection and the revision to start after
  pub wait_connected : out.World → Result Done × out.World
  pub wait_paused : PointerTarget → ℕ → ℕ → out.World → Result (Option FlowPointer) × out.World
  pub wait_for_commands : ℕ → out.World → Result CommandsFrame × out.World
  -- `asyncio.wait_for(self._stop_event.wait(), ...)`; its own timeout is no error
  pub start_grace : out.World → Result Done × out.World
  -- the database
  pub fetch_failure : String → out.World → Result (Option Fields) × out.World
  pub attach : String → String → out.World → Result Done × out.World
  pub mark_non_executable : String → out.World → Result Done × out.World
  pub prepare : PrepareCall → out.World → Result Fields × out.World
  pub project : String → out.World → Result Fields × out.World
  pub claim : ClaimCall → out.World → Result Fields × out.World

-- The call as it is logged.
abbrev pub logged_claim : ClaimCall → Result Fields → Claim
logged_claim c x = record {
  failure_id = c.failure_id;
  recovery_session_id = c.recovery_session_id;
  reply = x;
}

module _ (ctl : Control) where
  open ctl use {out}

  abbrev pub Act : Type 0 → Type 0
  Act A = M out.World A

  -- A call that changes no log.
  unfoldable pub call : {A : Type 0} → (out.World → Result A × out.World) → Act A
  call f r = let (x, w) = f r.world in (x, record r { world = w })

  unfoldable pub read : {A : Type 0} → (out.World → A) → Act A
  read f r = (ok (f r.world), r)

  unfoldable pub update_actives : (Actives → Actives) → Act Done
  update_actives f r =
      (ok tt, record r { world = ctl.set_actives (f (ctl.actives r.world)) r.world })

  unfoldable pub claim : ClaimCall → Act Fields
  claim c r =
      let (x, w) = ctl.claim c r.world in
      (x, record r { world = w; claims = r.claims ++ logged_claim c x ∷ [] })

  -- `database.finish`, at the identifiers that the caller has.
  unfoldable pub finish_at : FinishCall → Act Fields
  finish_at c r =
      let (x, w) = out.finish c r.world in
      (x, record r { world = w; finishes = r.finishes ++ c.result ∷ [] })

-- ===== src/Recovery/Outcome.antt =====
-- `classify_flow_outcome` and `_execution_outcome_predicate` of recovery_executor.py.
pub mod Started
pub mod Awaited
use failure_resolver.Prelude.{
  ℕ, String, Bool, true, false, not, ◌&&◌, ◌||◌, Option, none, some, List, [], ◌∷◌, ◌==◌, ltb, leb,
  str_eq, if◌then◌else◌,
}
use failure_resolver.Runtime.{Runtime}
use failure_resolver.Robot.Pointer.{FlowPointer, is_success_status}
use failure_resolver.Recovery.Session.{SessionRecord}
use failure_resolver.Recovery.Checks.{index_is, text_is, folded_status}

pub data Outcome : Type 0 where
  recovered failed unknown : Outcome

-- `_same_flow`
unfoldable pub same_flow : FlowPointer → SessionRecord → Bool
same_flow p s = str_eq p.flow_id s.flow_id

-- `action_index is not None and action_index > n`, and the same with `>=`.
abbrev pub is_past : Option ℕ → ℕ → Bool
is_past none n = false
is_past (some i) n = ltb n i

abbrev pub is_at_least : Option ℕ → ℕ → Bool
is_at_least none n = false
is_at_least (some i) n = leb n i

module _ (py : Runtime) where
  abbrev pub has_succeeded : FlowPointer → Bool
  has_succeeded p = is_success_status (folded_status py p)

  abbrev pub has_status : FlowPointer → String → Bool
  has_status p status = str_eq (folded_status py p) status

  unfoldable pub classify_flow_outcome : Option FlowPointer → SessionRecord → Outcome
  classify_flow_outcome none s = unknown
  classify_flow_outcome (some p) s =
      if not (same_flow p s)
      then unknown
      else if p.completed && has_succeeded p
      then recovered
      else if has_status p "paused"
          && index_is p.action_index s.action_index
          && text_is p.action_command s.action_command
      then failed
      else if is_past p.action_index s.action_index
      then recovered
      else if has_succeeded p && is_at_least p.action_index s.action_index
      then recovered
      else unknown

  -- A call of `decisive`: its answer, and `execution_started` after it.
  unfoldable pub decisive : SessionRecord → ℕ → Bool → Option FlowPointer → Bool × Bool
  decisive s generation started none = (true, started)
  decisive s generation started (some p) =
      if not (p.generation == generation) || not (same_flow p s)
      then (true, started)
      else if p.completed && has_succeeded p
      then (true, started)
      else if is_past p.action_index s.action_index
      then (true, started)
      else if has_succeeded p
      then (true, started)
      else if not started
      then (if has_status p "paused"
          then (false, false)
          else if has_status p "in_progress"
          then (false, true)
          else (true, false))
      else if has_status p "paused"
      then (true, true)
      else if has_status p "aborted" || has_status p "error"
      then (true, true)
      else (false, true)

  -- The first decisive frame of those that the wait sees, in their order.
  unfoldable pub first_decisive :
      SessionRecord → ℕ → Bool → List (Option FlowPointer) → Option (Option FlowPointer)
  first_decisive s generation started [] = none
  first_decisive s generation started (frame ∷ frames) =
      let answer = decisive s generation started frame in
      let later = first_decisive s generation answer.1 frames in
      if answer.0 then some frame else later

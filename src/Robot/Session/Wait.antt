-- ===== src/Robot/Session/Wait.antt =====
-- `RobotSession.wait_for_flow`: the cursor that each evaluation of `changed_and_matches` moves over
-- the history, and the states at which the condition is evaluated.
pub mod Scan
pub mod Fresh
use failure_resolver.Prelude.{
  ℕ, Bool, true, false, not, ◌&&◌, ◌||◌, Option, none, some, List, [], ◌∷◌, ◌==◌, leb,
  if◌then◌else◌,
}
use failure_resolver.Errors.{Result, ok, err, outcome_unknown}
use failure_resolver.Robot.Pointer.{FlowPointer}
use failure_resolver.Robot.Frames.{FlowFrame}
use failure_resolver.Robot.Session.{Session}

-- A predicate on frames with a state of its own, as a closure over a `nonlocal` has.
abbrev pub Predicate : Type 0 → Type 0
Predicate S = S → Option FlowPointer → Bool × S

-- `cursor`, `selected` with `selected_set`, and the state of the predicate.
pub record Cursor (S : Type 0) : Type 0 where
  pub seen : ℕ
  pub state : S
  pub selected : Option (Option FlowPointer)

module _ {S : Type 0} (predicate : Predicate S) (generation : ℕ) where
  abbrev pub is_stale : FlowFrame → ℕ → Bool
  is_stale f seen = leb f.revision seen || not (f.generation == generation)

  -- The loop over the history.
  unfoldable pub scan : List FlowFrame → Cursor S → Cursor S
  scan [] c = c
  scan (f ∷ fs) c =
      let answer = predicate c.state f.pointer in
      let skipped = scan fs c in
      let passed = scan fs (record { seen = f.revision; state = answer.1; selected = none }) in
      if is_stale f c.seen
      then skipped
      else if answer.0
      then record { seen = f.revision; state = answer.1; selected = some f.pointer }
      else passed

  -- The states at which the condition is evaluated, until the wait times out.
  unfoldable pub wait_from : List Session → Cursor S → Result (Option FlowPointer)
  wait_from [] c = err outcome_unknown
  wait_from (s ∷ states) c =
      let c' = scan s.flow_history c in
      let later = wait_from states c' in
      if not s.connected || not (s.generation == generation)
      then err outcome_unknown
      else elim c'.selected [ some p ↦ ok p | none ↦ later ]

  unfoldable pub wait_for_flow : ℕ → S → List Session → Result (Option FlowPointer)
  wait_for_flow after_revision start states =
      wait_from states (record { seen = after_revision; state = start; selected = none })

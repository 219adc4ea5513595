-- ===== src/Recovery/Outcome/Awaited.antt =====
-- The wait of an attempt for its outcome: `RobotSession.wait_for_flow` with the predicate of
-- `_execution_outcome_predicate`.
use failure_resolver.Prelude.{
  ℕ, ◌≡◌, refl, sym, ap, ◌∙◌, Bool, false, not, ◌||◌, ◌==◌, leb, Option, none, some, List, [], ◌∷◌,
  All, Bool-cases, inl, inr, arith,
}
use failure_resolver.Errors.{ok}
use failure_resolver.Runtime.{Runtime}
use failure_resolver.Robot.Pointer.{FlowPointer}
use failure_resolver.Robot.Frames.{FlowFrame}
use failure_resolver.Robot.Session.{Session}
use failure_resolver.Robot.Session.Wait.{wait_for_flow}
use failure_resolver.Robot.Session.Wait.Scan.{Watches, outcome_of}
use failure_resolver.Robot.Session.Wait.Fresh.{Rising, fresh_frames, select, wait_for_flow-select}
use failure_resolver.Robot.Session.History.{IsTag, Tagged}
use failure_resolver.Recovery.Session.{SessionRecord}
use failure_resolver.Recovery.Outcome.{failed, classify_flow_outcome, decisive, first_decisive}
use failure_resolver.Recovery.Outcome.Started.{FromGeneration, StartedBefore, starts_before}

module _ (py : Runtime) (s : SessionRecord) (g : ℕ) where
  select-decisive :
      (started : Bool) (frames : List (Option FlowPointer))
      → select (decisive py s g) started frames ≡ first_decisive py s g started frames
  unfolding select first_decisive
  select-decisive started [] = refl
  select-decisive started (f ∷ fs) = elim (Bool-cases (decisive py s g started f).0) [
    | inl hit ↦ rw (hit, select, first_decisive) refl
    | inr miss ↦
        rw (miss, select, first_decisive) (select-decisive (decisive py s g started f).1 fs)
  ]

  tag : (h r : ℕ) (p : Option FlowPointer) → IsTag h r p → h ≡ g → FromGeneration g p
  tag h r none t e = tt
  tag h r (some q) t e = t.0 ∙ e

  Tagged-FromGeneration : (f : FlowFrame) → Tagged f → f.generation ≡ g → FromGeneration g f.pointer
  Tagged-FromGeneration f t e = tag f.generation f.revision f.pointer t e

  fresh_frames-FromGeneration :
      (after : ℕ) (log : List FlowFrame)
      → All Tagged log
      → All (FromGeneration g) (fresh_frames g after log)
  unfolding fresh_frames
  fresh_frames-FromGeneration after [] h = tt
  fresh_frames-FromGeneration after (f ∷ fs) h =
      elim (Bool-cases (leb f.revision after || not (f.generation == g))) [
        | inl old ↦ rw (old, fresh_frames) (fresh_frames-FromGeneration after fs h.1)
        | inr young ↦
            rw (young, fresh_frames)
              (Tagged-FromGeneration f h.0 (same young), fresh_frames-FromGeneration after fs h.1)
      ]
    where
      same : (leb f.revision after || not (f.generation == g)) ≡ false → f.generation ≡ g
      same e = ground arith

ok-injective : {A : Type 0} {a b : A} → ok a ≡ ok b → a ≡ b
ok-injective h = cc

selected :
    (o : Option (Option FlowPointer)) {p : Option FlowPointer} → outcome_of o ≡ ok p → o ≡ some p
selected (some q) h = ap some (ok-injective h)
selected none h = cc

-- If an attempt's wait for its outcome, from the revision of the robot's acknowledgement on, returns
-- a frame that is classified as `failed`, then the Flow was in progress in a frame that the same
-- connection published between the acknowledgement and that frame. The wait is woken before an
-- unseen frame is dropped, the revisions rise, and each frame has the tag of its connection.
pub wait_for_flow-StartedBefore :
    (py : Runtime) (s : SessionRecord) (g after n : ℕ) {log : List FlowFrame}
    {states : List Session} {f : Option FlowPointer}
    → Watches g [] states log
    → Rising n log
    → All Tagged log
    → wait_for_flow (decisive py s g) g after false states ≡ ok f
    → classify_flow_outcome py f s ≡ failed
    → StartedBefore py s g (fresh_frames g after log) f
wait_for_flow-StartedBefore py s g after n {log} w rising tagged h c =
    starts_before py s g (fresh_frames g after log) _
      (fresh_frames-FromGeneration py s g after log tagged)
      (sym (select-decisive py s g false (fresh_frames g after log))
        ∙ selected _ (sym (wait_for_flow-select (decisive py s g) g after false n w rising) ∙ h))
      c

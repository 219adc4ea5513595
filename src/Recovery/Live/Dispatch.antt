-- ===== src/Recovery/Live/Dispatch.antt =====
-- What is known of the robot when a command of a plan is about to be sent.
use failure_resolver.Robot.Frames.{CommandsFrame}
use failure_resolver.Prelude.{
  ℕ, ◌≡◌, true, false, some, List, [], ◌∷◌, arith, All, refl, ap, String, none, ==→eq, eq_iff,
  Option, str_eq, ◌&&◌, ◌==◌, Bool,
}
use failure_resolver.Json.{Json, obj, Fields, get}
use failure_resolver.Errors.{
  Result, ok, err, ◌>>◌, Ensures, returns, raises, bind-Ensures, raise_if-Ensures, Ensures-ok, Done,
}
use failure_resolver.Runtime.{Runtime}
use failure_resolver.Robot.Pointer.{FlowPointer}
use failure_resolver.Recovery.Target.{as_object}
use failure_resolver.Recovery.Plan.{parse_recovery_plan}
use failure_resolver.Recovery.Plan.Action.{RecoveryAction}
use failure_resolver.Recovery.Plan.Continuation.{RecoveryPlan}
use failure_resolver.Recovery.Checks.{validate_plan_for_flow}
use failure_resolver.Recovery.Checks.Live.{IsLive, validate_plan_for_flow-IsLive}
use failure_resolver.Recovery.Commands.{
  command_requires_confirmation, validate_correction, validate_each,
  validate_corrections_against_commands,
}
use failure_resolver.Recovery.Live.{
  SessionView, same_pointer, same_index, same_text, live_flow, live_frame, as_non_executable,
  require_live_execution_state,
}

-- The robot offers the command, and needs no confirmation for it.
abbrev pub IsUnconfirmed : Fields → RecoveryAction → Type 0
IsUnconfirmed commands a =
    (schema : Fields) × (get a.command commands ≡ obj schema)
    × (command_requires_confirmation a.command a.arguments schema ≡ false)

-- The two pointers are of one frame of one connection, and stand at one step of one Flow.
pub record IsSameStep (a b : FlowPointer) : Type 0 where
  pub generation_eq : a.generation ≡ b.generation
  pub revision_eq : a.revision ≡ b.revision
  pub flow_id_eq : a.flow_id ≡ b.flow_id
  pub status_eq : a.status ≡ b.status
  pub index_eq : a.action_index ≡ b.action_index
  pub command_eq : a.action_command ≡ b.action_command

pub record IsDispatchable (view : SessionView) (p : FlowPointer) (plan : RecoveryPlan)
    (frame : CommandsFrame) : Type 0 where
  pub connected : view.connected ≡ true
  pub generation_eq : view.generation ≡ p.generation
  pub latest : FlowPointer
  pub latest_eq : view.latest_flow ≡ some latest
  pub same : IsSameStep latest p
  pub live : IsLive plan latest
  pub frame_eq : view.latest_commands_frame ≡ some frame
  pub frame_generation : frame.generation ≡ p.generation
  pub unconfirmed : All (IsUnconfirmed frame.commands) plan.corrections

same_index_eq : (a b : Option ℕ) → same_index a b ≡ true → a ≡ b
unfolding same_index
same_index_eq none none h = refl
same_index_eq (some a) (some b) h = ap some (==→eq a b h)
same_index_eq none (some b) h = cc
same_index_eq (some a) none h = cc

same_text_eq : (a b : Option String) → same_text a b ≡ true → a ≡ b
unfolding same_text
same_text_eq none none h = refl
same_text_eq (some a) (some b) h = ap some ((eq_iff a b).0 h)
same_text_eq none (some b) h = cc
same_text_eq (some a) none h = cc

six_true :
    (a b c d e f : Bool)
    → (a && b && c && d && e && f) ≡ true
    → (a ≡ true) × (b ≡ true) × (c ≡ true) × (d ≡ true) × (e ≡ true) × (f ≡ true)
six_true a b c d e f h = ground arith

same_pointer-IsSameStep : (a b : FlowPointer) → same_pointer a b ≡ true → IsSameStep a b
unfolding same_pointer
same_pointer-IsSameStep a b h =
    let (g, r, f, st, i, c) =
      six_true (a.generation == b.generation) (a.revision == b.revision)
        (str_eq a.flow_id b.flow_id) (str_eq a.status b.status)
        (same_index a.action_index b.action_index) (same_text a.action_command b.action_command)
        h in
    record {
      generation_eq = ==→eq _ _ g;
      revision_eq = ==→eq _ _ r;
      flow_id_eq = (eq_iff a.flow_id b.flow_id).0 f;
      status_eq = (eq_iff a.status b.status).0 st;
      index_eq = same_index_eq a.action_index b.action_index i;
      command_eq = same_text_eq a.action_command b.action_command c;
    }

object_eq : (v : Json) {d : Fields} → as_object v ≡ ok d → v ≡ obj d
object_eq (obj d) h = cc
object_eq _ h = cc

live_flow_facts :
    (view : SessionView) (p : FlowPointer) {latest : FlowPointer}
    → live_flow view p ≡ ok latest
    → (view.latest_flow ≡ some latest)
      × (view.connected ≡ true)
      × (view.generation ≡ p.generation)
      × (same_pointer latest p ≡ true)
unfolding live_flow
live_flow_facts view p h = ground arith

live_frame_facts :
    (view : SessionView) (p : FlowPointer) {frame : CommandsFrame}
    → live_frame view p ≡ ok frame
    → (view.latest_commands_frame ≡ some frame) × (frame.generation ≡ p.generation)
unfolding live_frame
live_frame_facts view p h = ground arith

executable : {A : Type 0} (m : Result A) {a : A} → as_non_executable m ≡ ok a → m ≡ ok a
unfolding as_non_executable
executable (ok a) h = h
executable (err e) h = ground arith

module _ (py : Runtime) where
  validate_correction-IsUnconfirmed :
      (a : RecoveryAction) (commands : Fields)
      → Ensures (λ _. IsUnconfirmed commands a) (validate_correction py a commands)
  unfolding validate_correction
  validate_correction-IsUnconfirmed a commands = bind-Ensures _ λ schema e.
      raise_if-Ensures _ _ λ h. bind-Ensures _ λ _ _. always (schema, object_eq _ e, h) _
    where
      always : {P : Type 0} → P → (m : Result Done) → Ensures (λ _. P) m
      always q (ok a) = returns q
      always q (err e) = raises e

  validate_each-IsUnconfirmed :
      (cs : List RecoveryAction) (commands : Fields)
      → Ensures (λ _. All (IsUnconfirmed commands) cs) (validate_each py cs commands)
  unfolding validate_each
  validate_each-IsUnconfirmed [] commands = returns tt
  validate_each-IsUnconfirmed (a ∷ cs) commands = bind-Ensures _ λ done e.
      with_rest (Ensures-ok (validate_correction-IsUnconfirmed a commands) e)
        (validate_each-IsUnconfirmed cs commands)
    where
      with_rest : {P Q : Type 0} {m : Result Done} → P → Ensures (λ _. Q) m → Ensures (λ _. P × Q) m
      with_rest q (returns r) = returns (q, r)
      with_rest q (raises e) = raises e

  validate_corrections-IsUnconfirmed :
      (cs : List RecoveryAction) (frame : CommandsFrame) (g : ℕ)
      → Ensures
          (λ _. All (IsUnconfirmed frame.commands) cs)
          (validate_corrections_against_commands py cs frame g)
  unfolding validate_corrections_against_commands
  validate_corrections-IsUnconfirmed cs frame g =
      raise_if-Ensures _ _ λ h. validate_each-IsUnconfirmed cs frame.commands

-- The two checks behind the live frames, both passed.
checks_passed :
    (py : Runtime) (value : Json) (plan : RecoveryPlan) (latest : FlowPointer)
    (frame : CommandsFrame) (g : ℕ)
    → parse_recovery_plan py value ≡ ok plan
    → Ensures
        (λ _. IsLive plan latest × All (IsUnconfirmed frame.commands) plan.corrections)
        (validate_plan_for_flow plan latest
          >> validate_corrections_against_commands py plan.corrections frame g)
checks_passed py value plan latest frame g parsed = bind-Ensures _ λ _ e.
    passed (validate_plan_for_flow-IsLive py value plan latest parsed e)
      (validate_corrections-IsUnconfirmed py plan.corrections frame g)
  where
    passed : {P Q : Type 0} {m : Result Done} → P → Ensures (λ _. Q) m → Ensures (λ _. P × Q) m
    passed q (returns r) = returns (q, r)
    passed q (raises e) = raises e

require_live-Ensures :
    (py : Runtime) (value : Json) (view : SessionView) (p : FlowPointer) (plan : RecoveryPlan)
    → parse_recovery_plan py value ≡ ok plan
    → Ensures (IsDispatchable view p plan) (require_live_execution_state py view p plan)
unfolding require_live_execution_state
require_live-Ensures py value view p plan parsed = bind-Ensures _ λ latest e1.
    bind-Ensures _ λ frame e2. bind-Ensures _ λ _ e3.
      let (latest_eq, connected, generation_eq, same) = live_flow_facts view p e1 in
      let (frame_eq, frame_generation) = live_frame_facts view p e2 in
      let (live, unconfirmed) =
        Ensures-ok (checks_passed py value plan latest frame p.generation parsed)
          (executable _ e3) in
      returns (record {
        connected = connected;
        generation_eq = generation_eq;
        latest = latest;
        latest_eq = latest_eq;
        same = same_pointer-IsSameStep latest p same;
        live = live;
        frame_eq = frame_eq;
        frame_generation = frame_generation;
        unconfirmed = unconfirmed;
      })

-- If the check before a dispatch passes for a parsed plan, the robot is connected on the pointer's own
-- connection, its latest Flow frame shows the same step as the pointer and is the live Flow that the
-- plan was pinned to, its latest spec is of that connection too, and every correction is in that
-- spec and needs no confirmation there.
pub require_live_execution_state-IsDispatchable :
    (py : Runtime) (value : Json) (view : SessionView) (p : FlowPointer) (plan : RecoveryPlan)
    {frame : CommandsFrame}
    → parse_recovery_plan py value ≡ ok plan
    → require_live_execution_state py view p plan ≡ ok frame
    → IsDispatchable view p plan frame
require_live_execution_state-IsDispatchable py value view p plan parsed h =
    Ensures-ok (require_live-Ensures py value view p plan parsed) h

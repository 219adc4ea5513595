-- ===== src/Robot/Pointer/Reading.antt =====
-- What a parsed Flow pointer says of the step that the Flow stands at.
use mathlib.Core.Path.{subst}
use failure_resolver.Prelude.{
  ℕ, ◌≡◌, refl, ◌∙◌, String, Bool, true, false, Option, none, some, Option-cases, inl, inr, ◌⊎◌,
  if◌then◌else◌, ◌&&◌,
}
use failure_resolver.Prelude.Int.{pos, negsuc}
use failure_resolver.Json.{Json, obj, Fields, get}
use failure_resolver.Runtime.{Runtime}
use failure_resolver.Robot.Pointer.Current.{
  IsCurrent, IsPastEnd, current_action-IsCurrent, is_past_end-IsPastEnd, IsPastEnd-is_past_end,
}
use failure_resolver.Robot.Pointer.{
  is_past_end, FlowPointer, text, integer, flow_actions, current_action, is_success_status,
  parse_flow_pointer, flow_pointer, or_else, pointer_at, completed_pointer, flow_identity,
}

-- The pointer stands behind the last action of a Flow that has succeeded, or at the action that the
-- frame of any other Flow is at.
abbrev pub StandsAt : Runtime → FlowPointer → Type 0
StandsAt py p =
    ((p.completed ≡ true)
      × (p.action_index ≡ none)
      × (p.action_command ≡ none)
      × IsPastEnd p.raw
      × (is_success_status (py.casefold p.status) ≡ true))
    ⊎ ((p.completed ≡ false)
        × ¬ (IsPastEnd p.raw × (is_success_status (py.casefold p.status) ≡ true))
        × (action : Fields) × (i : ℕ) × (command : String) × IsCurrent p.raw action
        × (get "action_index" action ≡ Json.int (pos i))
        × (text (get "command" action) ≡ some command)
        × (p.action_index ≡ some i)
        × (p.action_command ≡ some command))

-- The Flow's name: the frame's `id`, else its `filename`, else its `fid`.
abbrev pub IsName : Fields → String → Type 0
IsName flow name =
    (text (get "id" flow) ≡ some name)
    ⊎ ((text (get "id" flow) ≡ none) × (text (get "filename" flow) ≡ some name))
    ⊎ ((text (get "id" flow) ≡ none)
        × (text (get "filename" flow) ≡ none)
        × (text (get "fid" flow) ≡ some name))

pub record IsReading (py : Runtime) (frame : Json) (revision generation : ℕ) (p : FlowPointer)
    : Type 0 where
  pub frame_eq : frame ≡ obj p.raw
  pub revision_eq : p.revision ≡ revision
  pub generation_eq : p.generation ≡ generation
  pub status_eq : text (get "status" p.raw) ≡ some p.status
  pub name : IsName p.raw p.flow_id
  pub filename_eq : p.filename ≡ text (get "filename" p.raw)
  pub fid_eq : p.fid ≡ text (get "fid" p.raw)
  pub flow_commit_eq : p.flow_commit ≡ text (get "flow_commit" p.raw)
  pub stands : StandsAt py p

flow_identity-IsName :
    (py : Runtime) (flow : Fields) {name : String}
    → flow_identity py flow ≡ some name
    → IsName flow name
unfolding flow_identity
flow_identity-IsName py flow e = at _ _ _ refl refl refl e
  where
    at :
        (a b c : Option String) {name : String}
        → text (get "id" flow) ≡ a
        → text (get "filename" flow) ≡ b
        → text (get "fid" flow) ≡ c
        → or_else a (or_else b c) ≡ some name
        → IsName flow name
    at (some x) b c ea eb ec h = inl (ea ∙ h)
    at none (some x) c ea eb ec h = inr (inl (ea, eb ∙ h))
    at none none c ea eb ec h = inr (inr (ea, eb, ec ∙ h))

none-not_some : {A : Type 0} {a : A} → none ≡ some a → ⊥
none-not_some h = cc

some_injective : {A : Type 0} {a b : A} → some a ≡ some b → a ≡ b
some_injective h = cc

module _ (py : Runtime) (flow : Fields) (flow_id status : String) (revision generation : ℕ)
    (has_status : text (get "status" flow) ≡ some status) (named : IsName flow flow_id) where
  abbrev Reads : FlowPointer → Type 0
  Reads p = IsReading py (obj flow) revision generation p

  -- The Flow has not run to its end.
  abbrev Unfinished : Type 0
  Unfinished = ¬ (IsPastEnd flow × (is_success_status (py.casefold status) ≡ true))

  read_command :
      (action : Fields) (n : ℕ) {p : FlowPointer}
      → Unfinished
      → IsCurrent flow action
      → get "action_index" action ≡ Json.int (pos n)
      → pointer_at flow flow_id status revision generation action ≡ some p
      → Reads p
  unfolding pointer_at
  read_command action n u c at h = elim (Option-cases (text (get "command" action))) [
    | inl no_command ↦ absurd (none-not_some (rw (at, no_command, pointer_at) at h))
    | inr (command, there) ↦
        subst Reads (some_injective (rw (at, there, pointer_at) at h)) (record {
          frame_eq = refl;
          revision_eq = refl;
          generation_eq = refl;
          status_eq = has_status;
          name = named;
          filename_eq = refl;
          fid_eq = refl;
          flow_commit_eq = refl;
          stands = inr (refl, u, action, n, command, c, at, there, refl, refl);
        })
  ]

  read_action :
      (action : Fields) (v : Json) {p : FlowPointer}
      → Unfinished
      → IsCurrent flow action
      → get "action_index" action ≡ v
      → pointer_at flow flow_id status revision generation action ≡ some p
      → Reads p
  unfolding pointer_at
  read_action action (Json.int (pos n)) u c at h = read_command action n u c at h
  read_action action (Json.int (negsuc n)) u c at h =
      absurd (none-not_some (rw (at, pointer_at) at h))
  read_action action _ u c at h = absurd (none-not_some (rw (at, pointer_at) at h))

  read_completed :
      IsPastEnd flow
      → is_success_status (py.casefold status) ≡ true
      → Reads (completed_pointer flow flow_id status revision generation)
  unfolding completed_pointer
  read_completed past e = record {
    frame_eq = refl;
    revision_eq = refl;
    generation_eq = refl;
    status_eq = has_status;
    name = named;
    filename_eq = refl;
    fid_eq = refl;
    flow_commit_eq = refl;
    stands = inl (refl, refl, refl, past, e);
  }

  read_at :
      (a : Option Fields) {p : FlowPointer}
      → Unfinished
      → current_action (integer (get "current_action_index" flow)) (flow_actions flow) ≡ a
      → elim a [
        | none ↦ none
        | some action ↦ pointer_at flow flow_id status revision generation action
      ]
        ≡ some p
      → Reads p
  read_at none u e h = absurd (none-not_some h)
  read_at (some action) u e h = read_action action _ u (current_action-IsCurrent flow e) refl h

  read_either :
      (past success : Bool) {p : FlowPointer}
      → is_past_end (integer (get "current_action_index" flow)) (flow_actions flow) ≡ past
      → is_success_status (py.casefold status) ≡ success
      → (if past && success
          then some (completed_pointer flow flow_id status revision generation)
          else elim (current_action
              (integer (get "current_action_index" flow))
              (flow_actions flow)) [
                | none ↦ none
                | some action ↦ pointer_at flow flow_id status revision generation action
              ])
        ≡ some p
      → Reads p
  read_either true true at e h =
      subst Reads (some_injective h) (read_completed (is_past_end-IsPastEnd flow at) e)
  read_either true false at e h = read_at _ (λ u. let f = u.1 in cc) refl h
  read_either false success at e h =
      read_at _ (λ u. let t = IsPastEnd-is_past_end flow u.0 in cc) refl h

  read_flow :
      {p : FlowPointer} → flow_pointer py flow flow_id status revision generation ≡ some p → Reads p
  unfolding flow_pointer
  read_flow h = read_either _ _ refl refl h

-- A pointer that is parsed from a Flow frame keeps the frame, its status, its revision, its
-- connection and its `filename`, `fid` and `flow_commit`; its name is the frame's `id`, else its
-- `filename`, else its `fid`. It is completed, with no index and no command, exactly if the
-- frame's current index is the number of its actions and its status is one of success. If it is
-- not completed, its index and command are those of the first action that carries the frame's
-- current index; where no action does, of the first action that failed, else of the first that was
-- aborted, else of the first in progress.
pub parse_flow_pointer-IsReading :
    (py : Runtime) (frame : Json) (revision generation : ℕ) {p : FlowPointer}
    → parse_flow_pointer py frame revision generation ≡ some p
    → IsReading py frame revision generation p
unfolding parse_flow_pointer
parse_flow_pointer-IsReading py (obj flow) revision generation h =
    elim (Option-cases (flow_identity py flow)) [
      | inl no_id ↦ absurd (none-not_some (rw (no_id, parse_flow_pointer) at h))
      | inr (flow_id, named) ↦ elim (Option-cases (text (get "status" flow))) [
        | inl no_status ↦ absurd (none-not_some (rw (named, no_status, parse_flow_pointer) at h))
        | inr (status, has_status) ↦
            read_flow py flow flow_id status revision generation has_status
              (flow_identity-IsName py flow named) (rw (named, has_status, parse_flow_pointer) at h)
      ]
    ]
parse_flow_pointer-IsReading py _ revision generation h = absurd (none-not_some h)

-- ===== src/Robot/Pointer.antt =====
-- `FlowPointer` and `parse_flow_pointer` of robot_session.py.
pub mod Current
pub mod Reading
use failure_resolver.Prelude.{
  ℕ, zero, suc, String, Bool, true, false, not, ◌&&◌, ◌||◌, Option, none, some, List, [], ◌∷◌, ◌++◌,
  ◌==◌, str_eq, if◌then◌else◌, strip, is_empty, length,
}
use failure_resolver.Prelude.Int.{ℤ, pos, negsuc, int_eq}
use failure_resolver.Json.{
  Json, null, int, str, arr, obj, Items, nil, cons, Fields, end, field, get, mem,
}
use failure_resolver.Runtime.{Runtime}

pub record FlowPointer : Type 0 where
  pub revision : ℕ
  pub flow_id : String
  pub status : String
  pub action_index : Option ℕ
  pub action_command : Option String
  pub filename : Option String
  pub fid : Option String
  pub flow_commit : Option String
  pub raw : Fields
  pub generation : ℕ
  pub completed : Bool

-- `_text`: the stripped text, if any is left.
unfoldable pub text : Json → Option String
text (str s) = let normalized = strip s in if is_empty normalized then none else some normalized
text _ = none

-- `_integer`
abbrev pub integer : Json → Option ℤ
integer (int n) = some n
integer _ = none

-- The dicts of a JSON list; of anything else, none.
unfoldable pub item_objects : Items → List Fields
item_objects nil = []
item_objects (cons (obj d) xs) = d ∷ item_objects xs
item_objects (cons _ xs) = item_objects xs

abbrev pub objects : Json → List Fields
objects (arr xs) = item_objects xs
objects _ = []

item_actions : List Fields → List Fields
item_actions [] = []
item_actions (item ∷ items) = objects (get "actions" item) ++ item_actions items

area_actions : List Fields → List Fields
area_actions [] = []
area_actions (area ∷ areas) = item_actions (objects (get "items" area)) ++ area_actions areas

-- `_flow_actions`
unfoldable pub flow_actions : Fields → List Fields
unfolding item_actions area_actions
flow_actions flow = area_actions (objects (get "areas" flow))

-- The first element that passes the test.
unfoldable pub find : (Fields → Bool) → List Fields → Option Fields
find p [] = none
find p (x ∷ xs) = if p x then some x else find p xs

abbrev pub or_else {ℓ} : {A : Type ℓ} → Option A → Option A → Option A
or_else (some a) b = some a
or_else none b = b

abbrev text_eq : Option String → String → Bool
text_eq none t = false
text_eq (some s) t = str_eq s t

has_index : ℤ → Fields → Bool
has_index i action = elim (integer (get "action_index" action)) [
  | none ↦ false
  | some j ↦ int_eq j i
]

has_status : String → Fields → Bool
has_status s action = text_eq (text (get "status" action)) s

-- `_STOPPED_ACTION_STATUSES`, in their order of preference.
stopped_action : List Fields → Option Fields
unfolding has_status
stopped_action actions =
    or_else (find (has_status "failed") actions)
      (or_else (find (has_status "aborted") actions) (find (has_status "in_progress") actions))

-- `_COMPLETED_FLOW_STATUSES`, which is also `_SUCCESS_FLOW_STATUSES` of recovery_executor.py.
unfoldable pub is_success_status : String → Bool
unfolding mem
is_success_status s =
    mem s ("ready" ∷ "completed" ∷ "complete" ∷ "finished" ∷ "succeeded" ∷ "success" ∷ [])

-- The action that the Flow stands at: the one with the current index, or the first stopped one.
unfoldable pub current_action : Option ℤ → List Fields → Option Fields
unfolding has_index stopped_action
current_action none actions = stopped_action actions
current_action (some i) actions = or_else (find (has_index i) actions) (stopped_action actions)

-- `current_index == len(actions)`
abbrev pub is_past_end : Option ℤ → List Fields → Bool
is_past_end none actions = false
is_past_end (some i) actions = int_eq i (pos (length actions))

pointer_at : Fields → String → String → ℕ → ℕ → Fields → Option FlowPointer
pointer_at flow flow_id status revision generation action =
    elim (integer (get "action_index" action)) [
      | none ↦ none
      | some i ↦ elim i [
        | negsuc n ↦ none
        | pos n ↦ elim (text (get "command" action)) [
          | none ↦ none
          | some command ↦ some (record {
            revision = revision;
            flow_id = flow_id;
            status = status;
            action_index = some n;
            action_command = some command;
            filename = text (get "filename" flow);
            fid = text (get "fid" flow);
            flow_commit = text (get "flow_commit" flow);
            raw = flow;
            generation = generation;
            completed = false;
          })
        ]
      ]
    ]

completed_pointer : Fields → String → String → ℕ → ℕ → FlowPointer
completed_pointer flow flow_id status revision generation = record {
  revision = revision;
  flow_id = flow_id;
  status = status;
  action_index = none;
  action_command = none;
  filename = text (get "filename" flow);
  fid = text (get "fid" flow);
  flow_commit = text (get "flow_commit" flow);
  raw = flow;
  generation = generation;
  completed = true;
}

module _ (py : Runtime) where
  flow_pointer : Fields → String → String → ℕ → ℕ → Option FlowPointer
  unfolding completed_pointer
  flow_pointer flow flow_id status revision generation =
      let actions = flow_actions flow in
      let current_index = integer (get "current_action_index" flow) in
      if is_past_end current_index actions && is_success_status (py.casefold status)
      then some (completed_pointer flow flow_id status revision generation)
      else elim (current_action current_index actions) [
        | none ↦ none
        | some action ↦ pointer_at flow flow_id status revision generation action
      ]

  -- The first of the names that the frame carries.
  flow_identity : Fields → Option String
  flow_identity flow =
      or_else (text (get "id" flow)) (or_else (text (get "filename" flow)) (text (get "fid" flow)))

  unfoldable pub parse_flow_pointer : Json → ℕ → ℕ → Option FlowPointer
  unfolding flow_pointer flow_identity pointer_at
  parse_flow_pointer (obj flow) revision generation = elim (flow_identity flow) [
    | none ↦ none
    | some flow_id ↦ elim (text (get "status" flow)) [
      | none ↦ none
      | some status ↦ flow_pointer flow flow_id status revision generation
    ]
  ]
  parse_flow_pointer _ revision generation = none

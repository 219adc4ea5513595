-- ===== src/Recovery/Flow.antt =====
-- `FlowActionContext` and `flow_action_contexts` of recovery_executor.py: the enabled actions of
-- a live Flow tree, in order, with the area and the item that they stand in.
pub mod Unique
use failure_resolver.Prelude.{
  ℕ, String, Bool, true, false, not, ◌&&◌, ◌||◌, Option, none, some, List, [], ◌∷◌, ◌++◌, ◌==◌,
  str_eq, if◌then◌else◌, is_some, is_none,
}
use failure_resolver.Json.{Json, str, arr, obj, Items, nil, cons, Fields, get, is_true}
use failure_resolver.Errors.{Result, ok, err, contract, ◌>>=◌, ◌>>◌, raise_if}
use failure_resolver.Recovery.Inputs.{required_text, required_int}

pub record ActionContext : Type 0 where
  pub action_index : ℕ
  pub command : String
  pub area_name : String
  pub item_name : String

unfoldable pub context_eq : ActionContext → ActionContext → Bool
context_eq a b =
    (a.action_index == b.action_index)
    && str_eq a.command b.command
    && str_eq a.area_name b.area_name
    && str_eq a.item_name b.item_name

-- `a == b`, where either may be `None`.
unfoldable pub same_context : Option ActionContext → Option ActionContext → Bool
same_context none none = true
same_context (some a) (some b) = context_eq a b
same_context _ _ = false

-- `contexts` and `seen_indices` of the loops.
pub record Seen : Type 0 where
  pub contexts : List ActionContext
  pub seen_indices : List ℕ

unfoldable pub has : ℕ → List ℕ → Bool
has i [] = false
has i (j ∷ js) = (i == j) || has i js

abbrev pub is_disabled : Fields → Bool
is_disabled d = is_true (get "_disabled" d)

add_action : String → String → Fields → Seen → Result Seen
add_action area_name item_name action s = do
  action_index ← required_int (get "action_index" action) 0 1_000_000
  raise_if (has action_index s.seen_indices) contract
  command ← required_text (get "command" action) 128
  ok (record {
    contexts =
        s.contexts
        ++ record {
          action_index = action_index;
          command = command;
          area_name = area_name;
          item_name = item_name;
        }
          ∷ [];
    seen_indices = action_index ∷ s.seen_indices;
  })

-- Runs `body` on each enabled dict of a list, in order.
unfoldable pub each : (Fields → Seen → Result Seen) → Items → Seen → Result Seen
each body nil s = ok s
each body (cons (obj d) xs) s =
    let run = body d s >>= (λ s'. each body xs s') in if is_disabled d then each body xs s else run
each body (cons _ xs) s = each body xs s

abbrev pub required_list : Json → Result Items
required_list (arr xs) = ok xs
required_list _ = err contract

add_item : String → Fields → Seen → Result Seen
unfolding add_action
add_item area_name item s = do
  item_name ← required_text (get "name" item) 300
  actions ← required_list (get "actions" item)
  each (add_action area_name item_name) actions s

add_area : Fields → Seen → Result Seen
unfolding add_item
add_area area s = do
  area_name ← required_text (get "name" area) 300
  items ← required_list (get "items" area)
  each (add_item area_name) items s

unfoldable pub flow_action_contexts : Fields → Result (List ActionContext)
unfolding add_area
flow_action_contexts flow = do
  areas ← required_list (get "areas" flow)
  s ← each add_area areas (record { contexts = []; seen_indices = [] })
  ok s.contexts

-- `{context.action_index: context for context in contexts}.get(i)`: the last one wins.
unfoldable pub by_index : ℕ → List ActionContext → Option ActionContext
by_index i [] = none
by_index i (c ∷ cs) =
    let later = by_index i cs in
    if is_some later then later else if c.action_index == i then some c else none

abbrev pub head? : List ActionContext → Option ActionContext
head? [] = none
head? (c ∷ cs) = some c

-- The context after the first one that equals `c`.
unfoldable pub next_after : ActionContext → List ActionContext → Option ActionContext
next_after c [] = none
next_after c (x ∷ xs) = if context_eq x c then head? xs else next_after c xs

-- ===== src/Recovery/Flow/Unique.antt =====
-- The indices of the live Flow actions are distinct, so each action is found under its own index.
use failure_resolver.Prelude.{
  ℕ, ◌≡◌, refl, sym, ◌∙◌, ap, String, Bool, true, false, ◌||◌, none, some, List, [], ◌∷◌, ◌++◌,
  arith, ◌==◌, Bool-cases, inl, inr, get_elem?, Any, here, there, zero, suc,
}
use failure_resolver.Json.{null, obj, Items, nil, cons, Fields}
use failure_resolver.Errors.{
  Result, ok, Ensures, returns, bind-Ensures, raise_if-Ensures, Ensures-ok,
}
use failure_resolver.Recovery.Flow.{
  ActionContext, Seen, has, is_disabled, add_action, each, add_item, add_area, flow_action_contexts,
  by_index,
}

abbrev uses : ℕ → List ActionContext → Bool
uses i [] = false
uses i (c ∷ cs) = (i == c.action_index) || uses i cs

abbrev Distinct : List ActionContext → Type 0
Distinct [] = Unit
Distinct (c ∷ cs) = (uses c.action_index cs ≡ false) × Distinct cs

uses-snoc :
    (i : ℕ) (cs : List ActionContext) (c : ActionContext)
    → uses i (cs ++ c ∷ []) ≡ (i == c.action_index) || uses i cs
uses-snoc i [] c = refl
uses-snoc i (x ∷ cs) c = ground (arith, uses-snoc i cs c)

Distinct-snoc :
    (cs : List ActionContext) (c : ActionContext)
    → Distinct cs
    → uses c.action_index cs ≡ false
    → Distinct (cs ++ c ∷ [])
Distinct-snoc [] c h e = (refl, tt)
Distinct-snoc (x ∷ cs) c h e = ground (arith, Distinct-snoc cs c h.1, uses-snoc x.action_index cs c)

-- The invariant of the loops: the indices seen are those of the contexts, and none repeats.
record IsConsistent (s : Seen) : Type 0 where
  tracked : (i : ℕ) → has i s.seen_indices ≡ uses i s.contexts
  distinct : Distinct s.contexts

tracked_after :
    (s : Seen) (c : ActionContext)
    → IsConsistent s
    → (i : ℕ) → has i (c.action_index ∷ s.seen_indices) ≡ uses i (s.contexts ++ c ∷ [])
unfolding has
tracked_after s c h i = ground (arith, uses-snoc i s.contexts c, h.tracked i)

add_action-IsConsistent :
    (area item : String) (d : Fields) (s : Seen)
    → IsConsistent s
    → Ensures IsConsistent (add_action area item d s)
unfolding add_action
add_action-IsConsistent area item d s h = bind-Ensures _ λ index e. raise_if-Ensures _ _ λ fresh.
    bind-Ensures _ λ command e'.
      let c : ActionContext = record {
        action_index = index;
        command = command;
        area_name = area;
        item_name = item;
      } in
      returns (record {
        tracked = tracked_after s c h;
        distinct = Distinct-snoc s.contexts c h.distinct (sym (h.tracked index) ∙ fresh);
      })

-- A loop keeps what its body keeps.
each-IsConsistent :
    (body : Fields → Seen → Result Seen)
    → ((d : Fields) (s : Seen) → IsConsistent s → Ensures IsConsistent (body d s))
    → (xs : Items) (s : Seen) → IsConsistent s
    → Ensures IsConsistent (each body xs s)
unfolding each
each-IsConsistent body keep nil s h = returns h
each-IsConsistent body keep (cons (obj d) xs) s h = elim (Bool-cases (is_disabled d)) [
  | inl off ↦ rw off (each-IsConsistent body keep xs s h)
  | inr on ↦ rw on (
      bind-Ensures (body d s) λ s' e. each-IsConsistent body keep xs s' (Ensures-ok (keep d s h) e))
]
each-IsConsistent body keep (cons null xs) s h = each-IsConsistent body keep xs s h
each-IsConsistent body keep (cons _ xs) s h = each-IsConsistent body keep xs s h

add_item-IsConsistent :
    (area : String) (d : Fields) (s : Seen)
    → IsConsistent s
    → Ensures IsConsistent (add_item area d s)
unfolding add_item
add_item-IsConsistent area d s h = bind-Ensures _ λ name e. bind-Ensures _ λ actions e'.
    each-IsConsistent (add_action area name) (add_action-IsConsistent area name) actions s h

add_area-IsConsistent :
    (d : Fields) (s : Seen) → IsConsistent s → Ensures IsConsistent (add_area d s)
unfolding add_area
add_area-IsConsistent d s h = bind-Ensures _ λ name e.
    bind-Ensures _
      λ items e'. each-IsConsistent (add_item name) (add_item-IsConsistent name) items s h

contexts-Distinct : (flow : Fields) → Ensures Distinct (flow_action_contexts flow)
unfolding flow_action_contexts has
contexts-Distinct flow = bind-Ensures _ λ areas e. bind-Ensures _ λ s e'.
    returns
      (Ensures-ok
        (each-IsConsistent add_area add_area-IsConsistent areas _
          (record { tracked = λ i. refl; distinct = tt }))
        e').distinct

unused_by_index : (i : ℕ) (cs : List ActionContext) → uses i cs ≡ false → by_index i cs ≡ none
unfolding by_index
unused_by_index i [] h = refl
unused_by_index i (c ∷ cs) h = ground (arith, unused_by_index i cs)

uses_at :
    (cs : List ActionContext) (j : ℕ) {d : ActionContext}
    → get_elem? cs j ≡ some d
    → uses d.action_index cs ≡ true
uses_at [] j h = cc
uses_at (x ∷ cs) zero h = ground arith
uses_at (x ∷ cs) (suc j) h = ground (arith, uses_at cs j h)

-- Two places of a list with distinct indices that hold the same index are one place.
same_place :
    (cs : List ActionContext) (i j : ℕ) {c d : ActionContext}
    → Distinct cs
    → get_elem? cs i ≡ some c
    → get_elem? cs j ≡ some d
    → c.action_index ≡ d.action_index
    → i ≡ j
same_place [] i j distinct hi hj e = cc
same_place (x ∷ cs) zero zero distinct hi hj e = refl
same_place (x ∷ cs) zero (suc j) distinct hi hj e = ground (arith, uses_at cs j hj)
same_place (x ∷ cs) (suc i) zero distinct hi hj e = ground (arith, uses_at cs i hi)
same_place (x ∷ cs) (suc i) (suc j) distinct hi hj e = ap suc (same_place cs i j distinct.1 hi hj e)

by_index_at :
    (cs : List ActionContext) (i : ℕ) {c : ActionContext}
    → Distinct cs
    → get_elem? cs i ≡ some c
    → by_index c.action_index cs ≡ some c
unfolding by_index
by_index_at [] i distinct h = cc
by_index_at (x ∷ cs) zero distinct h = ground (arith, unused_by_index x.action_index cs)
by_index_at (x ∷ cs) (suc i) distinct h = ground (arith, by_index_at cs i distinct.1 h)

uses_of_mem :
    (c : ActionContext) {cs : List ActionContext}
    → Any (λ x. x ≡ c) cs
    → uses c.action_index cs ≡ true
uses_of_mem c (here e) = ground arith
uses_of_mem c (there m) = ground (arith, uses_of_mem c m)

by_index_mem :
    (c : ActionContext) (cs : List ActionContext)
    → Distinct cs
    → Any (λ x. x ≡ c) cs
    → by_index c.action_index cs ≡ some c
unfolding by_index
by_index_mem c [] d m = elim m [ ]
by_index_mem c (x ∷ cs) d (here e) =
    ground (arith, unused_by_index c.action_index cs, ap (λ (y : ActionContext). y.action_index) e)
by_index_mem c (x ∷ cs) d (there m) = ground (arith, by_index_mem c cs d.1 m)

-- Two enabled actions of a live Flow with the same index are one.
pub listed_once :
    (flow : Fields) {cs : List ActionContext} {c d : ActionContext}
    → flow_action_contexts flow ≡ ok cs
    → Any (λ x. x ≡ c) cs
    → Any (λ x. x ≡ d) cs
    → c.action_index ≡ d.action_index
    → c ≡ d
listed_once flow {cs} {c} {d} e mc md same =
    let distinct = Ensures-ok (contexts-Distinct flow) e in
    let by_c = by_index_mem c cs distinct mc in
    let by_d = by_index_mem d cs distinct md in
    let by_d' : by_index c.action_index cs ≡ some d = rw same by_d in cc

-- In every live Flow that is read without an error, two places of the list of its enabled actions that
-- hold the same action index are the same place, and that index leads to the action that stands there.
pub by_index-flow_action_contexts :
    (flow : Fields) (cs : List ActionContext) (i j : ℕ) (c d : ActionContext)
    → flow_action_contexts flow ≡ ok cs
    → get_elem? cs i ≡ some c
    → get_elem? cs j ≡ some d
    → c.action_index ≡ d.action_index
    → (i ≡ j) × (by_index c.action_index cs ≡ some c)
by_index-flow_action_contexts flow cs i j c d e at_i at_j same =
    let distinct = Ensures-ok (contexts-Distinct flow) e in
    (same_place cs i j distinct at_i at_j same, by_index_at cs i distinct at_i)

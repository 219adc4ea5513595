-- ===== src/Robot/Pointer/Current.antt =====
-- The action that a Flow stands at, described by what the frame holds.
use failure_resolver.Prelude.{
  ◌≡◌, refl, ap, sym, ◌∙◌, String, Bool, true, false, Option, none, some, List, [], ◌∷◌,
  Option-cases, Bool-cases, inl, inr, All, length, eq_iff, arith,
}
use failure_resolver.Prelude.Int.{ℤ, pos, negsuc, int_eq, int_eq_lem}
use failure_resolver.Json.{Json, null, int, Fields, get, nat}
use failure_resolver.Robot.Pointer.{
  text, integer, flow_actions, find, text_eq, has_index, has_status, stopped_action, current_action,
  is_past_end,
}

-- The first element with the property.
pub data First (P : Fields → Type 0) : List Fields → Fields → Type 0 where
  here : {d : Fields} {ds : List Fields} → P d → First P (d ∷ ds) d
  there : {x d : Fields} {ds : List Fields} → (P x → ⊥) → First P ds d → First P (x ∷ ds) d

abbrev pub NoneOf : (Fields → Type 0) → List Fields → Type 0
NoneOf P ds = All (λ d. P d → ⊥) ds

abbrev pub HasIndex : ℤ → Fields → Type 0
HasIndex i action = get "action_index" action ≡ int i

abbrev pub HasStatus : String → Fields → Type 0
HasStatus s action = text (get "status" action) ≡ some s

-- Where no action has the current index: the first that failed, else the first that was aborted, else
-- the first in progress.
pub data StopsAt (actions : List Fields) (d : Fields) : Type 0 where
  failed : First (HasStatus "failed") actions d → StopsAt actions d
  aborted :
      NoneOf (HasStatus "failed") actions
      → First (HasStatus "aborted") actions d
      → StopsAt actions d
  in_progress :
      NoneOf (HasStatus "failed") actions
      → NoneOf (HasStatus "aborted") actions
      → First (HasStatus "in_progress") actions d
      → StopsAt actions d

pub data IsCurrent (flow : Fields) (d : Fields) : Type 0 where
  indexed :
      (i : ℤ)
      → get "current_action_index" flow ≡ int i
      → First (HasIndex i) (flow_actions flow) d
      → IsCurrent flow d
  stopped :
      ((i : ℤ) → get "current_action_index" flow ≡ int i → NoneOf (HasIndex i) (flow_actions flow))
      → StopsAt (flow_actions flow) d
      → IsCurrent flow d

-- The current index is the number of the actions.
abbrev pub IsPastEnd : Fields → Type 0
IsPastEnd flow = get "current_action_index" flow ≡ nat (length (flow_actions flow))

int_eq_self : (i : ℤ) → int_eq i i ≡ true
int_eq_self (pos n) = ground arith
int_eq_self (negsuc n) = ground arith

pub integer_eq : (v : Json) {i : ℤ} → integer v ≡ some i → v ≡ int i
integer_eq (int j) e = cc
integer_eq null e = cc
integer_eq _ e = cc

find-First :
    {P : Fields → Type 0} (p : Fields → Bool)
    → ((d : Fields) → p d ≡ true → P d)
    → ((d : Fields) → P d → p d ≡ true)
    → (ds : List Fields) {d : Fields} → find p ds ≡ some d
    → First P ds d
unfolding find
find-First {P} p sound complete [] e = cc
find-First {P} p sound complete (x ∷ ds) {d} e = elim (Bool-cases (p x)) [
  | inl t ↦ let same : x ≡ d = ground arith in rw (← same) (here (sound x t))
  | inr f ↦ there (λ h. let t = complete x h in cc) (find-First p sound complete ds (rw f at e))
]

find-none :
    {P : Fields → Type 0} (p : Fields → Bool)
    → ((d : Fields) → P d → p d ≡ true)
    → (ds : List Fields) → find p ds ≡ none
    → NoneOf P ds
unfolding find
find-none p complete [] e = tt
find-none p complete (x ∷ ds) e = elim (Bool-cases (p x)) [
  | inl t ↦ cc (rw t at e)
  | inr f ↦ ((λ h. let t = complete x h in cc), find-none p complete ds (rw f at e))
]

has_index-HasIndex : (i : ℤ) (d : Fields) → has_index i d ≡ true → HasIndex i d
unfolding has_index
has_index-HasIndex i d h = at (get "action_index" d) h
  where
    at : (v : Json) → elim (integer v) [ none ↦ false | some j ↦ int_eq j i ] ≡ true → v ≡ int i
    at (int j) h = ap int (int_eq_lem j i h)
    at null h = cc
    at _ h = cc

HasIndex-has_index : (i : ℤ) (d : Fields) → HasIndex i d → has_index i d ≡ true
unfolding has_index
HasIndex-has_index i d e = rw (e, has_index) (int_eq_self i)

has_status-HasStatus : (s : String) (d : Fields) → has_status s d ≡ true → HasStatus s d
unfolding has_status
has_status-HasStatus s d h = at (text (get "status" d)) h
  where
    at : (o : Option String) → text_eq o s ≡ true → o ≡ some s
    at none h = cc
    at (some t) h = ap some ((eq_iff t s).0 h)

HasStatus-has_status : (s : String) (d : Fields) → HasStatus s d → has_status s d ≡ true
unfolding has_status
HasStatus-has_status s d e = rw (e, has_status) ((eq_iff s s).1 refl)

found_status :
    (s : String) (ds : List Fields) {d : Fields}
    → find (has_status s) ds ≡ some d
    → First (HasStatus s) ds d
found_status s = find-First (has_status s) (has_status-HasStatus s) (HasStatus-has_status s)

no_status :
    (s : String) (ds : List Fields) → find (has_status s) ds ≡ none → NoneOf (HasStatus s) ds
no_status s = find-none (has_status s) (HasStatus-has_status s)

stopped_action-StopsAt : (ds : List Fields) {d : Fields} → stopped_action ds ≡ some d → StopsAt ds d
unfolding stopped_action
stopped_action-StopsAt ds e = elim (Option-cases (find (has_status "failed") ds)) [
  | inr (x, f) ↦ failed (found_status "failed" ds (f ∙ (rw (f, stopped_action) at e)))
  | inl f ↦ elim (Option-cases (find (has_status "aborted") ds)) [
    | inr (x, a) ↦
        aborted (no_status "failed" ds f)
          (found_status "aborted" ds (a ∙ (rw (f, a, stopped_action) at e)))
    | inl a ↦
        in_progress (no_status "failed" ds f) (no_status "aborted" ds a)
          (found_status "in_progress" ds (rw (f, a, stopped_action) at e))
  ]
]

at_index :
    (flow : Fields) (v : Json) {d : Fields}
    → get "current_action_index" flow ≡ v
    → current_action (integer v) (flow_actions flow) ≡ some d
    → IsCurrent flow d
unfolding current_action
at_index flow (int i) at e = elim (Option-cases (find (has_index i) (flow_actions flow))) [
  | inr (x, f) ↦ indexed i at (
      find-First (has_index i) (has_index-HasIndex i) (HasIndex-has_index i) (flow_actions flow)
        (f ∙ (rw (f, current_action) at e)))
  | inl f ↦
      stopped (λ j at'. no_index j (sym at ∙ at') f)
        (stopped_action-StopsAt (flow_actions flow) (rw (f, current_action) at e))
]
  where
    no_index :
        (j : ℤ)
        → int i ≡ int j
        → find (has_index i) (flow_actions flow) ≡ none
        → NoneOf (HasIndex j) (flow_actions flow)
    no_index j same f =
        let same' : i ≡ j = cc in
        find-none (has_index j) (HasIndex-has_index j) (flow_actions flow) (rw same' at f)
at_index flow null at e =
    stopped (λ j at'. cc (sym at ∙ at')) (stopped_action-StopsAt (flow_actions flow) e)
at_index flow _ at e =
    stopped (λ j at'. cc (sym at ∙ at')) (stopped_action-StopsAt (flow_actions flow) e)

pub current_action-IsCurrent :
    (flow : Fields) {d : Fields}
    → current_action (integer (get "current_action_index" flow)) (flow_actions flow) ≡ some d
    → IsCurrent flow d
current_action-IsCurrent flow e = at_index flow _ refl e

pub is_past_end-IsPastEnd :
    (flow : Fields)
    → is_past_end (integer (get "current_action_index" flow)) (flow_actions flow) ≡ true
    → IsPastEnd flow
is_past_end-IsPastEnd flow h = at (get "current_action_index" flow) h
  where
    at :
        (v : Json)
        → is_past_end (integer v) (flow_actions flow) ≡ true
        → v ≡ nat (length (flow_actions flow))
    at (int i) h = ap int (int_eq_lem i _ h)
    at null h = cc
    at _ h = cc

pub IsPastEnd-is_past_end :
    (flow : Fields)
    → IsPastEnd flow
    → is_past_end (integer (get "current_action_index" flow)) (flow_actions flow) ≡ true
IsPastEnd-is_past_end flow e = rw e (int_eq_self (pos (length (flow_actions flow))))

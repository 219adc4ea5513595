-- ===== src/Recovery/Rebind/Refreshed.antt =====
-- What a list of actions holds once its last action is refreshed.
use mathlib.Core.Option
use failure_resolver.Prelude.{
  ◌≡◌, refl, ap, sym, ◌∙◌, String, false, some, Bool-cases, inl, inr, str_eq, eq_iff, arith,
}
use failure_resolver.Json.{
  Json, or_null, str, obj, Items, nil, cons, Fields, end, field, lookup, get, contains,
}
use failure_resolver.Recovery.Flow.{ActionContext}
use failure_resolver.Recovery.Plan.Continuation.{terminal_of, RecoveryPlan}
use failure_resolver.Recovery.Plan.Last.{last_item, EndsIn}
use failure_resolver.Recovery.Rebind.{put, put_present, refresh_terminal, map_last}

lookup-put : (k : String) (v : Json) (d : Fields) → lookup k (put k v d) ≡ some v
unfolding lookup put
lookup-put k v end = ground (arith, eq_iff k k)
lookup-put k v (field j w d) = ground (arith, eq_iff j k, eq_iff k k, lookup-put k v d)

lookup-put_other :
    (k j : String) (v : Json) (d : Fields) → str_eq j k ≡ false → lookup k (put j v d) ≡ lookup k d
unfolding lookup put
lookup-put_other k j v end h = ground arith
lookup-put_other k j v (field i w d) h =
    ground (arith, eq_iff i k, eq_iff i j, eq_iff j k, lookup-put_other k j v d)

lookup-put_present_other :
    (k j : String) (v : Json) (d : Fields)
    → str_eq j k ≡ false
    → lookup k (put_present j v d) ≡ lookup k d
lookup-put_present_other k j v d h = elim (Bool-cases (contains j d)) [
  | inl there ↦ rw there (lookup-put_other k j v d h)
  | inr missing ↦ rw missing refl
]

some_injective : {A : Type 0} {a b : A} → some a ≡ some b → a ≡ b
some_injective e = cc

obj_injective : {d e : Fields} → obj d ≡ obj e → d ≡ e
obj_injective e = cc

str_injective : {s t : String} → str s ≡ str t → s ≡ t
str_injective e = cc

abbrev fields_of : Json → Fields
fields_of (obj d) = d
fields_of _ = end

module _ (fresh : Fields) (c t : ActionContext) where
  -- The action `d` once it is refreshed.
  abbrev refreshed : Fields → Fields
  refreshed d = fields_of (refresh_terminal fresh c t (obj d))

  -- It has the fresh arguments.
  refreshed_arguments : (d : Fields) → get "arguments" (refreshed d) ≡ obj fresh
  unfolding refresh_terminal
  refreshed_arguments d = ap or_null (
      lookup-put_other "arguments" "continuation_context" _ _ refl
      ∙ lookup-put_present_other "arguments" "explicit_arguments" _ _ refl
      ∙ lookup-put_present_other "arguments" "arguments_effective" _ _ refl
      ∙ lookup-put "arguments" (obj fresh) d)

  -- And the command that it had.
  refreshed_command : (d : Fields) → get "command" (refreshed d) ≡ get "command" d
  unfolding refresh_terminal
  refreshed_command d = ap or_null (
      lookup-put_other "command" "continuation_context" _ _ refl
      ∙ lookup-put_present_other "command" "explicit_arguments" _ _ refl
      ∙ lookup-put_present_other "command" "arguments_effective" _ _ refl
      ∙ lookup-put_other "command" "arguments" _ _ refl)

  last_item-map_last :
      (f : Json → Json) (xs : Items) {x : Json}
      → last_item xs ≡ some x
      → last_item (map_last f xs) ≡ some (f x)
  unfolding last_item map_last
  last_item-map_last f nil e = cc
  last_item-map_last f (cons x nil) e = ap (Option.map f) e
  last_item-map_last f (cons x (cons y nil)) e = ap (Option.map f) e
  last_item-map_last f (cons x (cons y (cons z zs))) e = last_item-map_last f (cons y (cons z zs)) e

  -- A plan that is read from refreshed actions has the terminal command of the plan that it replaces,
  -- with the fresh arguments.
  pub refreshed_plan :
      (xs : Items) (old new : RecoveryPlan)
      → EndsIn xs old
      → EndsIn (map_last (refresh_terminal fresh c t) xs) new
      → (new.terminal_command ≡ old.terminal_command) × (new.terminal_arguments ≡ fresh)
  unfolding refresh_terminal
  refreshed_plan xs old new o n =
      let last = last_item-map_last (refresh_terminal fresh c t) xs o.last in
      let raw : n.raw ≡ refreshed o.raw = obj_injective (some_injective (sym n.last ∙ last)) in
      let name : n.name ≡ o.name =
        str_injective
          (sym n.command ∙ ap (get "command") raw ∙ refreshed_command o.raw ∙ o.command) in
      (
        some_injective (sym n.terminal ∙ ap terminal_of name ∙ o.terminal),
        obj_injective (sym n.arguments ∙ ap (get "arguments") raw ∙ refreshed_arguments o.raw),
      )

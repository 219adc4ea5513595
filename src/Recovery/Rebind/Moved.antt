-- ===== src/Recovery/Rebind/Moved.antt =====
-- What becomes of a remembered plan when it is bound to another Flow: its mode, its rewind and the
-- steps that it pins.
use mathlib.Core.Path.{subst}
use failure_resolver.Prelude.{
  ℕ, ◌+◌, ◌≡◌, refl, sym, ap, ◌∙◌, String, Bool, true, false, not, ◌||◌, ◌==◌, Option, none, some,
  List, arith, eq_iff,
}
use failure_resolver.Json.{str, nat, get, Fields, Items}
use failure_resolver.Errors.{ok}
use failure_resolver.Runtime.{Runtime}
use failure_resolver.Robot.Pointer.{FlowPointer}
use failure_resolver.Recovery.Flow.{ActionContext, flow_action_contexts, by_index}
use failure_resolver.Recovery.Flow.Unique.{listed_once}
use failure_resolver.Recovery.Plan.Continuation.{
  Terminal, rerun, resume_flow, Mode, retry_current, rewind, mode_text, RecoveryPlan,
}
use failure_resolver.Recovery.Plan.Shape.{IsSafe, Pins}
use failure_resolver.Recovery.Checks.{is_paused_at, action_before}
use failure_resolver.Recovery.Checks.Live.{IsLive, Lists, PinnedAt, by_index_found, before_found}
use failure_resolver.Recovery.Resume.Guard.{NamesRewind}
use failure_resolver.Recovery.Rebind.{required, same_structure}

-- The same command on the same item.
pub record SameStep (a b : ActionContext) : Type 0 where
  pub command : a.command ≡ b.command
  pub area_name : a.area_name ≡ b.area_name
  pub item_name : a.item_name ≡ b.item_name

-- What becomes of the steps that a remembered plan has pinned.
abbrev pub Moves : Terminal → RecoveryPlan → RecoveryPlan → Items → Items → Type 0
Moves rerun old new actions rebound = rebound ≡ actions
Moves resume_flow old new actions rebound =
    (c c' t t' : ActionContext) × (old.captured_current_context ≡ some c)
    × (new.captured_current_context ≡ some c')
    × SameStep c c'
    × (old.captured_target_context ≡ some t)
    × (new.captured_target_context ≡ some t')
    × SameStep t t'

pub required_eq : (o : Option ActionContext) {c : ActionContext} → required o ≡ ok c → o ≡ some c
required_eq none e = cc
required_eq (some d) e = cc

pub paused_index :
    (py : Runtime) (p : FlowPointer) (flow_id : String) (index : ℕ) (command : String)
    → is_paused_at py p flow_id index command ≡ true
    → p.action_index ≡ some index
unfolding is_paused_at
paused_index py p flow_id index command h = ground arith

same_structure-SameStep : (a b : ActionContext) → same_structure a b ≡ true → SameStep a b
unfolding same_structure
same_structure-SameStep a b h = ground (
  arith,
  eq_iff a.command b.command,
  eq_iff a.area_name b.area_name,
  eq_iff a.item_name b.item_name,
)

nat_injective : {m n : ℕ} → nat m ≡ nat n → m ≡ n
nat_injective e = ground arith

mode_injective : (m n : Mode) → str (mode_text m) ≡ str (mode_text n) → m ≡ n
mode_injective retry_current retry_current e = refl
mode_injective rewind rewind e = refl
mode_injective retry_current rewind e = ground (arith, eq_iff "retry_current" "rewind")
mode_injective rewind retry_current e = ground (arith, eq_iff "rewind" "retry_current")

-- A plan whose arguments were built for the rewind of another plan has that rewind and that mode.
pub same_names :
    (new old : RecoveryPlan) {fresh : Fields}
    → new.terminal_command ≡ resume_flow
    → IsSafe new
    → new.terminal_arguments ≡ fresh
    → NamesRewind fresh old.rewind_steps old.resume_mode
    → (new.rewind_steps ≡ old.rewind_steps) × (new.resume_mode ≡ old.resume_mode)
same_names new old terminal safe arguments names =
    let (_, _, _, _, _, _, _, _, n) = subst (λ k. Pins k new) terminal safe.pins in
    (
      nat_injective (sym n.rewind_steps ∙ ap (get "rewind_steps") arguments ∙ names.0),
      mode_injective new.resume_mode old.resume_mode
          (sym n.mode ∙ ap (get "mode") arguments ∙ names.1),
    )

alike : (a b x : Bool) → (not a || not b || x) ≡ false → (a ≡ true) × (b ≡ true)
alike a b x h = ground arith

some_injective : {A : Type 0} {a b : A} → some a ≡ some b → a ≡ b
some_injective e = cc

module _ (old new : RecoveryPlan) (p : FlowPointer) (index : ℕ) (contexts : List ActionContext)
    (c t live live_target : ActionContext) where
  -- The steps that the new plan pins are the ones that were compared with the remembered steps.
  pub moved :
      (actions rebound : Items)
      → new.terminal_command ≡ resume_flow
      → IsLive new p
      → new.rewind_steps ≡ old.rewind_steps
      → p.action_index ≡ some index
      → flow_action_contexts p.raw ≡ ok contexts
      → old.captured_current_context ≡ some c
      → old.captured_target_context ≡ some t
      → by_index index contexts ≡ some live
      → action_before index old.rewind_steps contexts ≡ some live_target
      → (not (same_structure c live)
          || not (same_structure t live_target)
          || not (c.action_index == t.action_index + old.rewind_steps))
        ≡ false
      → Moves resume_flow old new actions rebound
  moved actions rebound terminal l same_rewind at reads ec et el ef fits =
      let (now, t', target_now, listed, rewound) =
        subst (λ k. PinnedAt k new l.contexts l.current) terminal l.pinned in
      let same_contexts : l.contexts ≡ contexts = cc (l.reads, reads) in
      let (i_live, in_live) = by_index_found index contexts live el in
      let (i_target, in_target) = before_found index old.rewind_steps contexts live_target ef in
      let i_current = some_injective (sym l.at_index ∙ at) in
      let is_live =
        listed_once p.raw l.reads l.listed (subst (λ cs. Lists cs live) (sym same_contexts) in_live)
          (i_current ∙ sym i_live) in
      let is_target =
        listed_once p.raw l.reads listed
          (subst (λ cs. Lists cs live_target) (sym same_contexts) in_target)
          (omega (arith, rewound, same_rewind, i_current, i_target)) in
      let (like_live, like_target) = alike _ _ _ fits in
      (
        c,
        l.current,
        t,
        t',
        ec,
        now,
        subst (SameStep c) (sym is_live) (same_structure-SameStep c live like_live),
        et,
        target_now,
        subst (SameStep t) (sym is_target) (same_structure-SameStep t live_target like_target),
      )

-- ===== src/Robot/Session/Settled.antt =====
-- The futures of the pending requests of a session, over what changes them.
use failure_resolver.Prelude.{
  ◌≡◌, refl, String, Bool, true, false, not, ◌&&◌, List, [], ◌∷◌, any, arith,
}
use failure_resolver.Errors.{Error, outcome_unknown}
use failure_resolver.Robot.Session.{
  Future, waiting, answered, failed, Pending, settle_future, settle_at, reject_all,
}
use failure_resolver.Robot.Session.Request.{pop_pending}

abbrev pub waits : Future → Bool
waits waiting = true
waits _ = false

abbrev pub is_waiting : Pending → Bool
is_waiting p = waits p.future

pub still_waiting :
    (a b c : Bool) → (a ≡ true → b ≡ true) → (b && not c) ≡ false → (a && not c) ≡ false
still_waiting true b c f h = ground (arith, f refl)
still_waiting false b c f h = refl

pub settle_future-waiting :
    (f result : Future) → waits (settle_future f result) ≡ true → waits f ≡ true
unfolding settle_future
settle_future-waiting waiting result h = refl
settle_future-waiting (answered r) result h = cc
settle_future-waiting (failed e) result h = cc

pub settle_at-waiting :
    (id : String) (result : Future) (ps : List Pending)
    → any is_waiting (settle_at id result ps) ≡ true
    → any is_waiting ps ≡ true
unfolding settle_at
settle_at-waiting id result [] h = h
settle_at-waiting id result (p ∷ ps) h =
    ground (arith, settle_at-waiting id result ps, settle_future-waiting p.future result)

pub pop_pending-waiting :
    (id : String) (ps : List Pending)
    → any is_waiting (pop_pending id ps) ≡ true
    → any is_waiting ps ≡ true
unfolding pop_pending
pop_pending-waiting id [] h = h
pop_pending-waiting id (p ∷ ps) h = ground (arith, pop_pending-waiting id ps)

pub settle_future-done : (f : Future) (e : Error) → waits (settle_future f (failed e)) ≡ false
unfolding settle_future
settle_future-done waiting e = refl
settle_future-done (answered r) e = refl
settle_future-done (failed d) e = refl

pub reject_all-waiting : (ps : List Pending) → any is_waiting (reject_all ps) ≡ false
unfolding reject_all
reject_all-waiting [] = refl
reject_all-waiting (p ∷ ps) =
    ground (arith, settle_future-done p.future outcome_unknown, reject_all-waiting ps)

-- ===== src/Recovery/Coordinator/Ends.antt =====
-- The loop of the attempts ends: the database lets a session claim only its attempts.
use failure_resolver.Prelude.{
  ℕ, zero, suc, ◌≡◌, ◌≢◌, ◌≤◌, ◌<◌, refl, String, Bool, true, false, Bool-cases, inl, inr,
  if◌then◌else◌, arith, [], ◌∷◌, ◌++◌, ◌+◌,
}
use failure_resolver.Json.{Fields}
use failure_resolver.Errors.{Result, ok, err}
use failure_resolver.Runtime.{Runtime}
use failure_resolver.Robot.Pointer.{FlowPointer}
use failure_resolver.Recovery.Target.{RecoveryTarget}
use failure_resolver.Recovery.Session.{SessionRecord, parse_recovery_session}
use failure_resolver.Recovery.Plan.Continuation.{RecoveryPlan}
use failure_resolver.Recovery.Attempt.{FinishCall, finish, request, wait_for_flow, count}
use failure_resolver.Recovery.Attempt.Monad.{Run, M, pure, continue, ◌>>=◌, ◌>>◌}
use failure_resolver.Recovery.Attempt.Rules.{Post, returned, raised, bind-Post, weaken-Post}
use failure_resolver.Recovery.Attempt.Stable.{Keeps, Stable, Keeps-bind, Keeps-count, Keeps-live}
use failure_resolver.Recovery.Coordinator.{
  Control, Act, read, claim, logged_claim, ClaimCall, finish_at,
}
use failure_resolver.Recovery.Coordinator.Attempts.{
  Next, over, again, Loop, ended, out_of_rounds, read_claim, claim_round, round, rounds,
  run_attempts, execute_session, execute_target,
}
use failure_resolver.Recovery.Coordinator.Spent.{read_claim-Keeps}

-- The attempts that one session has left, as the database counts them: a claim for that session that
-- returns takes one, and no call of an attempt gives one back. A session has at most 20. Of the claims
-- for other sessions nothing is said.
pub record Metered (ctl : Control) (session_id : String) (left : ctl.out.World → ℕ) : Type 0 where
  pub bounded : (w : ctl.out.World) → left w ≤ 20
  pub claimed :
      (c : ClaimCall) (w w' : ctl.out.World) (row : Fields)
      → c.recovery_session_id ≡ session_id
      → ctl.claim c w ≡ (ok row, w')
      → left w' < left w
  pub requested :
      (name : String) (arguments : Fields) (w : ctl.out.World)
      → left (ctl.out.request_command name arguments w).1 ≤ left w
  pub waited :
      (s : SessionRecord) (generation revision : ℕ) (w : ctl.out.World)
      → left (ctl.out.wait_for_flow s generation revision w).1 ≤ left w
  pub finished : (c : FinishCall) (w : ctl.out.World) → left (ctl.out.finish c w).1 ≤ left w

module _ {W : Type 0} where
  Never : M W Loop → Type 0
  Never k = (r : Run W) → (k r).0 ≢ ok out_of_rounds

  bind-Never :
      {A : Type 0} (k : M W A) (f : A → M W Loop) → ((a : A) → Never (f a)) → Never (k >>= f)
  unfolding Never ◌>>=◌ continue
  bind-Never {A = A} k f h r = at (k r).0
    where
      at : (x : Result A) → (continue x f (k r).1).0 ≢ ok out_of_rounds
      at (ok a) = h a (k r).1
      at (err e) = λ d. cc

  if-Never : (b : Bool) (k k' : M W Loop) → Never k → Never k' → Never (if b then k else k')
  if-Never true k k' h h' = h
  if-Never false k k' h h' = h'

ended-Never : (W : Type 0) → Never (pure {W = W} ended)
unfolding Never pure
ended-Never W r = λ e. cc

module _ (py : Runtime) (ctl : Control) (session_id : String) (left : ctl.out.World → ℕ)
    (m : Metered ctl session_id left) where
  abbrev W : Type 0
  W = ctl.out.World

  NotMore : Run W → Run W → Type 0
  NotMore r r' = left r'.world ≤ left r.world

  NotMore-Stable : Stable py ctl.out NotMore
  unfolding NotMore finish wait_for_flow request
  NotMore-Stable = record {
    order = record {
      none = λ r. omega arith;
      both = λ h k. omega (arith, h, k);
      counted = λ r s. omega arith;
    };
    begun = λ r. omega arith;
    requested = λ name arguments r. m.requested name arguments r.world;
    finished = λ claimed failure_id token result r. m.finished _ r.world;
    waited = λ claimed generation revision r. m.waited claimed generation revision r.world;
  }

  closes : (c : FinishCall) → Keeps NotMore (finish_at ctl c)
  unfolding NotMore finish_at
  closes c r = m.finished c r.world

  -- An end that returned has fewer attempts left than the run `r`.
  Spent : {A : Type 0} → Run W → Result A × Run W → Type 0
  Spent r q = Post (λ _ r'. left r'.world < left r.world) (λ _ _. Unit) q

  Keeps-Spent :
      {A : Type 0} (r r' : Run W) (x : Result A) (r'' : Run W)
      → left r'.world < left r.world
      → NotMore r' r''
      → Spent r (x, r'')
  unfolding Spent NotMore
  Keeps-Spent r r' (ok a) r'' h k = returned (omega (arith, h, k))
  Keeps-Spent r r' (err e) r'' h k = raised tt

  claim-Spent :
      (c : ClaimCall) (r : Run W) → c.recovery_session_id ≡ session_id → Spent r (claim ctl c r)
  unfolding Spent claim
  claim-Spent c r same = at _ _ refl
    where
      at :
          (x : Result Fields) (w : W)
          → ctl.claim c r.world ≡ (x, w)
          → Post
              (λ _ r'. left r'.world < left r.world)
              (λ _ _. Unit)
              (x, record r { world = w; claims = r.claims ++ logged_claim c x ∷ [] })
      at (ok row) w e = returned (m.claimed c r.world w row same e)
      at (err d) w e = raised tt

  claim_round-Spent :
      (p : FlowPointer) (failure_id : String) (r : Run W)
      → Spent r (claim_round py ctl session_id p failure_id r)
  unfolding claim_round Spent
  claim_round-Spent p failure_id r =
      bind-Post _ (claim-Spent _ r refl) (λ row r' h. Keeps-Spent r r' _ _ h (then_read row r'))
        (λ e r' h. tt)
    where
      then_read :
          (row : Fields)
          → Keeps NotMore (
              count py ctl.out (λ s. record s { attempts_claimed = s.attempts_claimed + 1 })
              >> read_claim py ctl session_id failure_id p row (parse_recovery_session py row true))
      then_read row =
          Keeps-bind NotMore-Stable.order _ _ (Keeps-count py ctl.out NotMore-Stable.order _)
            λ _. read_claim-Keeps py ctl NotMore-Stable closes session_id failure_id p row _

  NotMore-Post :
      {A : Type 0} (r : Run W) (x : Result A) (r' : Run W)
      → NotMore r r'
      → Post (λ _ r'. NotMore r r') (λ _ _. Unit) (x, r')
  NotMore-Post r (ok a) r' h = returned h
  NotMore-Post r (err e) r' h = raised tt

  -- A first line that spends nothing.
  before-Spent :
      {A B : Type 0} (k : M W A) (f : A → M W B)
      → Keeps NotMore k
      → ((a : A) (r : Run W) → Spent r (f a r))
      → (r : Run W) → Spent r ((k >>= f) r)
  unfolding Spent NotMore
  before-Spent k f h then_spent r =
      bind-Post k (NotMore-Post r _ _ (h r))
        (λ a r' le.
          weaken-Post (then_spent a r') (λ b r'' lt. omega (arith, lt, le)) (λ e r'' u. tt))
        (λ e r' u. tt)

  round-Spent :
      (target : RecoveryTarget) (plan : RecoveryPlan) (p : FlowPointer) (r : Run W)
      → Spent r (round py ctl target session_id plan p r)
  unfolding round read
  round-Spent target plan p r =
      before-Spent _ _ (λ r. NotMore-Stable.order.none r)
        (λ active.
          before-Spent _ _ (Keeps-live py ctl.out NotMore-Stable.order plan p)
            λ _. claim_round-Spent p _)
        r

  go_on : ℕ → RecoveryTarget → RecoveryPlan → Next → Act ctl Loop
  go_on n target plan over = pure ended
  go_on n target plan (again latest) = rounds py ctl n target session_id plan latest

  after_round :
      (n : ℕ) (target : RecoveryTarget) (plan : RecoveryPlan) (r : Run W) (q : Result Next × Run W)
      → Spent r q
      → ((latest : FlowPointer) (r' : Run W)
          → left r'.world < left r.world
          → (rounds py ctl n target session_id plan latest r').0 ≢ ok out_of_rounds)
      → (continue q.0 (go_on n target plan) q.1).0 ≢ ok out_of_rounds
  unfolding continue go_on Spent pure
  after_round n target plan r _ (returned {a = over} h) k = λ e. cc
  after_round n target plan r _ (returned {a = again latest} {r = r'} h) k = k latest r' h
  after_round n target plan r _ (raised u) k = λ e. cc

  rounds-ends :
      (n : ℕ) (target : RecoveryTarget) (plan : RecoveryPlan) (p : FlowPointer) (r : Run W)
      → left r.world < n
      → (rounds py ctl n target session_id plan p r).0 ≢ ok out_of_rounds
  unfolding rounds ◌>>=◌ read continue go_on pure
  rounds-ends zero target plan p r h = ground (arith, h)
  rounds-ends (suc n) target plan p r h = elim (Bool-cases (ctl.stopped r.world)) [
    | inl stop ↦ rw (stop) (λ e. cc)
    | inr run ↦ rw (run) (
        after_round n target plan r _ (round-Spent target plan p r)
          λ latest r' lt. rounds-ends n target plan latest r' (omega (arith, lt, h)))
  ]

  run_attempts-Never :
      (n : ℕ) (target : RecoveryTarget) (plan : RecoveryPlan) (p : FlowPointer)
      → 20 < n
      → Never (run_attempts py ctl n target session_id plan p)
  unfolding run_attempts Never
  run_attempts-Never n target plan p h r =
      bind-Never _ _ (λ _ r'. rounds-ends n target plan p r' (omega (arith, h, m.bounded r'.world)))
        r

-- The attempts that each session has left.
module _ (py : Runtime) (ctl : Control) (left : String → ctl.out.World → ℕ)
    (m : (session_id : String) → Metered ctl session_id (left session_id)) where
  execute_session-Never :
      (n : ℕ) (target : RecoveryTarget) (prepared : SessionRecord) (session_id : String)
      (p : FlowPointer)
      → 20 < n
      → Never (execute_session py ctl n target prepared session_id p)
  unfolding execute_session
  execute_session-Never n target prepared session_id p h =
      if-Never _ _ _
        (bind-Never _ _ λ plan. bind-Never _ _ λ go.
          if-Never _ _ _
            (run_attempts-Never py ctl session_id (left session_id) (m session_id) n target plan p
              h)
            (ended-Never _))
        (bind-Never _ _ λ _. (ended-Never _))

-- Where the database counts, for each session by itself, the at most 20 attempts that it has left, so
-- that a claim for a session that returns takes one of that session's, and no command, no wait and no
-- `finish` gives one back: the loop over the attempts of a failure ends by itself. With 21 or more
-- rounds allowed it never runs out of them, whatever else the robot, the database and the other tasks
-- do.
pub execute_target-ends :
    (py : Runtime) (ctl : Control) (left : String → ctl.out.World → ℕ)
    → ((session_id : String) → Metered ctl session_id (left session_id))
    → (n : ℕ) (target : RecoveryTarget) (new_id : String) (r : Run ctl.out.World) → 20 < n
    → (execute_target py ctl n target new_id r).0 ≢ ok out_of_rounds
unfolding execute_target Never
execute_target-ends py ctl left m n target new_id r h =
    bind-Never _ _
      (λ _. bind-Never _ _ λ _. bind-Never _ _ λ p. bind-Never _ _ λ _.
        bind-Never _ _ λ prepared.
          bind-Never _ _ λ _. execute_session-Never py ctl left m n target prepared _ p h)
      r

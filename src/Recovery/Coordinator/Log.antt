-- ===== src/Recovery/Coordinator/Log.antt =====
-- The claims and the commands that the coordinator logs, and the relations that they add up by.
use mathlib.Core.Path.{subst}
use failure_resolver.Prelude.{
  ◌≡◌, refl, sym, ap, ◌∙◌, true, List, [], ◌∷◌, ◌++◌, append-nil, append_assoc,
}
use failure_resolver.Json.{arr, Fields}
use failure_resolver.Errors.{ok}
use failure_resolver.Runtime.{Runtime}
use failure_resolver.Robot.Pointer.{FlowPointer}
use failure_resolver.Recovery.Session.{SessionRecord, parse_recovery_session}
use failure_resolver.Recovery.Checks.{validate_plan_for_session, validate_plan_for_flow}
use failure_resolver.Recovery.Plan.{parse_recovery_plan}
use failure_resolver.Recovery.Plan.Continuation.{RecoveryPlan}
use failure_resolver.Recovery.Attempt.Monad.{Command, Claim, Run}
use failure_resolver.Recovery.Attempt.Sent.{planned}
use failure_resolver.Recovery.Attempt.Settled.{Sends}
use failure_resolver.Recovery.Coordinator.Quiet.{Blind}

-- A plan that may be dispatched for a row that a claim returned: the row was read with its run token,
-- the plan is the one that the row has pinned, and it was checked against that session and a Flow
-- pointer.
pub record Checked (py : Runtime) (row : Fields) (plan : RecoveryPlan) (p : FlowPointer)
    : Type 0 where
  pub claimed : SessionRecord
  pub read : parse_recovery_session py row true ≡ ok claimed
  pub pinned : parse_recovery_plan py (arr claimed.pinned_actions) ≡ ok plan
  pub rewind : plan.rewind_steps ≡ claimed.recovery_rewind_steps
  pub for_session : validate_plan_for_session plan claimed ≡ ok tt
  pub for_flow : validate_plan_for_flow plan p ≡ ok tt

-- The commands sent for the claims made, claim by claim: nothing, or, for a claim that returned a row,
-- a first part of a plan that was checked against that row.
pub data Dispatches (py : Runtime) : List Claim → List Command → Type 0 where
  no_claim : Dispatches py [] []
  idle :
      (c : Claim) {claims : List Claim} {cs : List Command}
      → Dispatches py claims cs
      → Dispatches py (c ∷ claims) cs
  sends :
      (c : Claim) {claims : List Claim} {cs : List Command} (row : Fields) (plan : RecoveryPlan)
      (p : FlowPointer) (seen rest : List Command)
      → c.reply ≡ ok row
      → Checked py row plan p
      → planned plan p ≡ seen ++ rest
      → Dispatches py claims cs
      → Dispatches py (c ∷ claims) (seen ++ cs)

Dispatches-append :
    {py : Runtime} {claims claims' : List Claim} {cs cs' : List Command}
    → Dispatches py claims cs
    → Dispatches py claims' cs'
    → Dispatches py (claims ++ claims') (cs ++ cs')
Dispatches-append no_claim d' = d'
Dispatches-append (idle c d) d' = idle c (Dispatches-append d d')
Dispatches-append {py} {claims' = claims'} {cs' = cs'}
      (sends c {cs = cs} row plan p seen rest reply checked split d) d' =
    subst (Dispatches py _) (sym (append_assoc seen cs cs'))
      (sends c row plan p seen rest reply checked split (Dispatches-append d d'))

module _ {W : Type 0} where
  -- The claims and the commands between two runs.
  pub record Logged (py : Runtime) (r r' : Run W) : Type 0 where
    pub made_claims : List Claim
    pub commands : List Command
    pub claims : r'.claims ≡ r.claims ++ made_claims
    pub sent : r'.sent ≡ r.sent ++ commands
    pub made : Dispatches py made_claims commands

  pub record Silent (r r' : Run W) : Type 0 where
    pub claims : r'.claims ≡ r.claims
    pub sent : r'.sent ≡ r.sent

  pub Silent-Blind : Blind Silent
  Silent-Blind = record {
    order = record {
      none = λ r. record { claims = refl; sent = refl };
      both = λ h k. record { claims = k.claims ∙ h.claims; sent = k.sent ∙ h.sent };
      counted = λ r s. record { claims = refl; sent = refl };
    };
    moved = λ r w. record { claims = refl; sent = refl };
  }

  module _ (py : Runtime) where
    pub Silent→Logged : {r r' : Run W} → Silent r r' → Logged py r r'
    Silent→Logged {r} h = record {
      made_claims = [];
      commands = [];
      claims = h.claims ∙ sym (append-nil r.claims);
      sent = h.sent ∙ sym (append-nil r.sent);
      made = no_claim;
    }

    Logged-both : {r r' r'' : Run W} → Logged py r r' → Logged py r' r'' → Logged py r r''
    Logged-both {r} h k = record {
      made_claims = h.made_claims ++ k.made_claims;
      commands = h.commands ++ k.commands;
      claims =
          k.claims
          ∙ ap (λ l. l ++ k.made_claims) h.claims
          ∙ append_assoc r.claims h.made_claims k.made_claims;
      sent = k.sent ∙ ap (λ l. l ++ k.commands) h.sent ∙ append_assoc r.sent h.commands k.commands;
      made = Dispatches-append h.made k.made;
    }

    pub Logged-Blind : Blind (Logged py)
    Logged-Blind = record {
      order = record {
        none = λ r. Silent→Logged (Silent-Blind.order.none r);
        both = Logged-both;
        counted = λ r s. Silent→Logged (Silent-Blind.order.counted r s);
      };
      moved = λ r w. Silent→Logged (Silent-Blind.moved r w);
    }

    -- After a claim that returned the row, at most one plan is begun, and it was checked against it.
    pub data Once (row : Fields) (r r' : Run W) : Type 0 where
      nothing : Silent r r' → Once row r r'
      part :
          (plan : RecoveryPlan) (p : FlowPointer)
          → Checked py row plan p
          → r'.claims ≡ r.claims
          → Sends plan p r r'
          → Once row r r'

    pub Silent-Once :
        {row : Fields} {r r' r'' : Run W} → Silent r r' → Once row r' r'' → Once row r r''
    Silent-Once h (nothing k) = nothing (Silent-Blind.order.both h k)
    Silent-Once h (part plan p c claims (seen, rest, split, e)) =
        part plan p c (claims ∙ h.claims) (seen, rest, split, e ∙ ap (λ l. l ++ seen) h.sent)

    pub Once-Silent :
        {row : Fields} {r r' r'' : Run W} → Once row r r' → Silent r' r'' → Once row r r''
    Once-Silent (nothing h) k = nothing (Silent-Blind.order.both h k)
    Once-Silent (part plan p c claims (seen, rest, split, e)) k =
        part plan p c (k.claims ∙ claims) (seen, rest, split, k.sent ∙ e)

    pub record Claims (c : Claim) (r r' : Run W) : Type 0 where
      pub claims : r'.claims ≡ r.claims ++ c ∷ []
      pub sent : r'.sent ≡ r.sent

    pub Claims→Logged : {c : Claim} {r r' : Run W} → Claims c r r' → Logged py r r'
    Claims→Logged {c} {r} h = record {
      made_claims = c ∷ [];
      commands = [];
      claims = h.claims;
      sent = h.sent ∙ sym (append-nil r.sent);
      made = idle c no_claim;
    }

    pub Claims-Once :
        {c : Claim} {row : Fields} {r r' r'' : Run W}
        → c.reply ≡ ok row
        → Claims c r r'
        → Once row r' r''
        → Logged py r r''
    Claims-Once reply h (nothing k) = Logged-both (Claims→Logged h) (Silent→Logged k)
    Claims-Once {c} {row} {r} reply h (part plan p checked claims (seen, rest, split, e)) = record {
      made_claims = c ∷ [];
      commands = seen ++ [];
      claims = claims ∙ h.claims;
      sent = e ∙ ap (λ l. l ++ seen) h.sent ∙ ap (λ l. r.sent ++ l) (sym (append-nil seen));
      made = sends c row plan p seen rest reply checked split no_claim;
    }

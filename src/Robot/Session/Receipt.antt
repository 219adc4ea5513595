-- ===== src/Robot/Session/Receipt.antt =====
-- The receipt that a request returns for its ticket.
use mathlib.Core.Path.{subst}
use failure_resolver.Prelude.{
  ◌≡◌, ◌≤◌, refl, String, Bool, true, false, if◌then◌else◌, Bool-cases, Option-cases, inl, inr,
  arith, strip, is_empty,
}
use failure_resolver.Errors.{Error, Result, ok, err}
use failure_resolver.Runtime.{Runtime}
use failure_resolver.Robot.Frames.{CommandReceipt}
use failure_resolver.Robot.Session.{Future, waiting, answered, failed, Session}
use failure_resolver.Robot.Session.Request.{
  Ticket, register_request, read_future, future_of, conclude,
}
use failure_resolver.Robot.Session.History.{Runs}
use failure_resolver.Robot.Session.Since.{Fine, Kept, Since, Kept-fresh, future_of-Fine, Runs-Since}

-- What a request that returns `r` for its ticket has found: the connection that it was registered on
-- is the present one, and the receipt was made on it, no earlier than the request.
pub record Confirmed (s : Session) (t : Ticket) (s' : Session) (r : CommandReceipt) : Type 0 where
  pub online : s'.connected ≡ true
  pub same_connection : s'.generation ≡ s.generation
  pub ticket : t.generation ≡ s.generation
  pub receipt : r.generation ≡ s.generation
  pub revision_from : s.flow_revision ≤ r.flow_revision_at_correlated_ack
  pub revision_to : r.flow_revision_at_correlated_ack ≤ s'.flow_revision

-- What a registration gives: a ticket of the present connection and what the session holds of it,
-- or an error.
data Opened (s : Session) : Result Ticket × Session → Type 0 where
  opened :
      {t : Ticket} {s₁ : Session}
      → t.generation ≡ s.generation
      → Since s.generation s.flow_revision t.request_id s₁
      → Opened s (ok t, s₁)
  refused : {e : Error} {s₁ : Session} → Opened s (err e, s₁)

register-Opened : (i command : String) (s : Session) → Opened s (register_request i command s)
unfolding register_request Kept Fine
register-Opened i command s = elim (Bool-cases s.connected) [
  | inr off ↦ simp (off, register_request) refused
  | inl on ↦ elim (Option-cases s.websocket) [
    | inl no_socket ↦ simp (on, no_socket, register_request) refused
    | inr (w, here) ↦ elim (Bool-cases (is_empty (strip command))) [
      | inl blank ↦ simp (on, here, blank, register_request) refused
      | inr full ↦
          simp (on, here, full, register_request)
            (opened refl (record {
              generation = omega arith;
              revision = omega arith;
              kept = (
                λ _. tt,
                Kept-fresh s.generation s.flow_revision i s.generation s.flow_revision s.pending,
              );
            }))
    ]
  ]
]

Opened-ok :
    {s s₁ : Session} {t : Ticket}
    → Opened s (ok t, s₁)
    → (t.generation ≡ s.generation) × Since s.generation s.flow_revision t.request_id s₁
Opened-ok (opened e v) = (e, v)

if-ok :
    {A : Type 0} {x y : A} (e : Error) (b : Bool)
    → (if b then err e else ok x) ≡ ok y
    → (b ≡ false) × (x ≡ y)
if-ok e true h = cc
if-ok e false h = (refl, cc)

read_future-Confirmed :
    {s s' : Session} {t : Ticket} {r : CommandReceipt} (f : Future)
    → t.generation ≡ s.generation
    → Fine s.generation s.flow_revision s'.generation s'.flow_revision f
    → read_future t f s' ≡ ok r
    → Confirmed s t s' r
unfolding read_future Fine
read_future-Confirmed waiting e k h = cc
read_future-Confirmed (failed d) e k h = cc
read_future-Confirmed {s} {s'} {t} {r} (answered x) e k h =
    let (held, same_receipt) = if-ok _ _ h in
    subst (Confirmed s t s') same_receipt (record {
      online = ground (arith, held);
      same_connection = ground (arith, held, e);
      ticket = e;
      receipt = ground (arith, held, e, k.generation_from, k.generation_to);
      revision_from = k.revision_from;
      revision_to = k.revision_to;
    })

-- A request that is registered in state `s` and returns a receipt after anything that may happen to
-- the session meanwhile returns one of the connection of `s`, which is still the present one; the
-- receipt's Flow revision lies between the revision of `s` and the present one.
pub conclude-Confirmed :
    (py : Runtime) (i command : String) {s s₁ s' : Session} {t : Ticket} {r : CommandReceipt}
    → register_request i command s ≡ (ok t, s₁)
    → Runs py s₁ s'
    → (conclude t s').0 ≡ ok r
    → Confirmed s t s' r
unfolding conclude
conclude-Confirmed py i command {s} {s₁} {s'} {t} start run end =
    let (ticket, v) = Opened-ok (subst (Opened s) start (register-Opened i command s)) in
    let v' = Runs-Since s.generation s.flow_revision t.request_id py run v in
    read_future-Confirmed (future_of t.request_id s'.pending) ticket
      (future_of-Fine s.generation s.flow_revision t.request_id s'.generation s'.flow_revision
        s'.pending v'.kept)
      end

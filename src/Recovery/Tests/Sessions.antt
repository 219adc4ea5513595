-- ===== src/Recovery/Tests/Sessions.antt =====
-- A robot session at concrete inputs: a connection with a Flow, a request that is answered, and a
-- wait for the outcome of a retry.
use failure_resolver.Prelude.{
  ℕ, ◌≡◌, refl, String, true, false, some, List, [], ◌∷◌, arith, All, strip,
}
use failure_resolver.Json.{null, bool, str, obj, Fields, end, field, lookup}
use failure_resolver.Errors.{ok}
use failure_resolver.Robot.Frames.{FlowFrame, CommandReceipt}
use failure_resolver.Robot.Pointer.{is_success_status, text}
use failure_resolver.Robot.Session.{
  Session, fresh, activate_connection, response_section, flow_section, settle_response, settle_at,
  settle_future, answer, waiting,
}
use failure_resolver.Robot.Session.Request.{
  Ticket, register_request, pop_pending, conclude, future_of, read_future,
}
use failure_resolver.Robot.Session.History.{
  Tagged, activated, answered_to, flow_shown, Reachable, new, after, same, more,
}
use failure_resolver.Robot.Session.Consistent.{IsConsistent, Reachable-IsConsistent}
use failure_resolver.Robot.Session.Receipt.{Confirmed, conclude-Confirmed}
use failure_resolver.Robot.Session.Wait.{wait_for_flow, wait_from, scan}
use failure_resolver.Robot.Session.Wait.Scan.{Watches, woken, over, outcome_of}
use failure_resolver.Robot.Session.Wait.Fresh.{Rising, fresh_frames, select, wait_for_flow-select}
use failure_resolver.Recovery.Outcome
use failure_resolver.Recovery.Outcome.{decisive, classify_flow_outcome, same_flow}
use failure_resolver.Recovery.Outcome.Started.{StartedBefore}
use failure_resolver.Recovery.Outcome.Awaited.{wait_for_flow-StartedBefore}
use failure_resolver.Recovery.Tests.Samples.{python, flow_at, pointer, session}

abbrev flow_payload : Fields
flow_payload = field "flow" (obj (flow_at "paused")) end

abbrev online : Session
online = record fresh { websocket = some 3; generation = 1; connected = true }

connected_then : activate_connection 3 fresh ≡ online
unfolding activate_connection
connected_then = refl

abbrev reached : Session
reached = flow_section python flow_payload online

reached-Reachable : Reachable python reached
unfolding activate_connection
reached-Reachable = after (after new (activated 3 fresh)) (flow_shown flow_payload online refl)

Reachable-IsConsistent_example : IsConsistent reached
Reachable-IsConsistent_example = Reachable-IsConsistent python reached-Reachable

abbrev ticket : Ticket
ticket = record { request_id = "r1"; websocket = 3; generation = 1 }

abbrev asked : Session
asked = record online { pending = record { request_id = "r1"; future = waiting } ∷ [] }

registers : register_request "r1" "home" online ≡ (ok ticket, asked)
unfolding register_request strip pop_pending
registers = refl

abbrev reply : Fields
reply =
    field "response"
      (obj (field "request_id" (str "r1") (field "error" null (field "result" (bool true) end))))
      end

abbrev receipt : CommandReceipt
receipt = record { result = bool true; generation = 1; flow_revision_at_correlated_ack = 0 }

abbrev replied : Session
replied = response_section reply asked

returns_receipt : (conclude ticket replied).0 ≡ ok receipt
unfolding conclude response_section settle_response settle_at settle_future answer lookup strip
    future_of read_future text
returns_receipt = refl

conclude-Confirmed_example : Confirmed online ticket replied receipt
conclude-Confirmed_example =
    conclude-Confirmed python "r1" "home" registers (more same (answered_to reply asked))
      returns_receipt

abbrev shown : ℕ → String → FlowFrame
shown n status = record {
  revision = n;
  generation = 2;
  pointer = some (record pointer { revision = n; status = status; raw = flow_at status });
}

-- The stale pause, the progress after the jump, and the new pause.
abbrev frames : List FlowFrame
frames = shown 7 "paused" ∷ shown 8 "in_progress" ∷ shown 9 "paused" ∷ []

abbrev woken_up : Session
woken_up = record fresh {
  connected = true;
  generation = 2;
  flow_revision = 9;
  flow_history = frames;
}

watches : Watches 2 [] (woken_up ∷ []) frames
watches = woken frames [] 0 (omega arith) refl refl refl over

frames-Rising : Rising 0 frames
frames-Rising = (omega arith, (omega arith, (omega arith, tt)))

frames-Tagged : All Tagged frames
frames-Tagged = ((refl, refl), ((refl, refl), ((refl, refl), tt)))

wait_for_flow-select_example :
    wait_for_flow (decisive python session 2) 2 7 false (woken_up ∷ [])
    ≡ outcome_of (select (decisive python session 2) false (fresh_frames 2 7 frames))
wait_for_flow-select_example =
    wait_for_flow-select (decisive python session 2) 2 7 false 0 watches frames-Rising

waits_for :
    wait_for_flow (decisive python session 2) 2 7 false (woken_up ∷ [])
    ≡ ok (shown 9 "paused").pointer
unfolding wait_for_flow wait_from scan decisive strip same_flow is_success_status
waits_for = refl

pause_failed : classify_flow_outcome python (shown 9 "paused").pointer session ≡ Outcome.failed
unfolding classify_flow_outcome strip same_flow
pause_failed = refl

wait_for_flow-StartedBefore_example :
    StartedBefore python session 2 (fresh_frames 2 7 frames) (shown 9 "paused").pointer
wait_for_flow-StartedBefore_example =
    wait_for_flow-StartedBefore python session 2 7 0 watches frames-Rising frames-Tagged waits_for
      pause_failed

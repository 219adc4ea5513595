-- ===== src/Lib.antt =====
-- The automatic recovery of failed robot Flows: recovery_executor.py, and the session with the robot
-- that it acts through, robot_session.py; the sanitizing of the database rows that are kept as
-- evidence, episode_evidence.py; and the reading of remembered solutions from the snapshot of them,
-- retrieval.py.
--
-- The program receives the row of a failed Flow step, with a remembered solution pinned to it as a
-- list of actions, and repeats that solution on the live robot. It trusts neither the database row
-- nor the stored actions nor the robot's frames: each is parsed, the plan is compared with the live
-- Flow tree and the robot's live action spec, and only then are its corrections and one final
-- continuation command sent. What the robot does next is read from the later Flow frames, and the
-- database is told the result.
--
--   Prelude, Prelude/*      Boolean tests, lists by native numbers, integers, Python's text methods
--   Json, Json/*            JSON values; `==` on them (Equal), the bounds of `_validate_json`
--                           (Bounds), the length of `json.dumps` in bytes (Dump) and in characters
--                           (Length), `_json_values_equal` (Strict)
--   Errors                  the exceptions as values, `Result`, and a rule per line of a `do` block
--   Runtime                 what is taken from the Python runtime, as a record of functions
--   Robot/Pointer           `FlowPointer` and `parse_flow_pointer` of robot_session.py: the action that
--                           a frame is at (Current), what a pointer says of its frame (Reading)
--   Robot/Frames            the frames that a session publishes, and the receipt of a command
--   Robot/Session           `RobotSession`: its state and the messages; the sections of
--                           `request_command` (Request), `wait_for_flow` (Wait), the states that it
--                           reaches (History) and what holds in them (Consistent, Receipt)
--   Recovery/Inputs         `_required_text`, `_required_int`, `_required_uuid`, the patterns
--   Recovery/Target         the failure row: `parse_failure_recovery_target`
--   Recovery/Session        the database's session row: `parse_recovery_session`
--   Recovery/Flow           `flow_action_contexts`, the enabled actions of a live Flow
--   Recovery/Plan           `parse_recovery_plan`: the actions (Action), the two terminal commands
--                           (Continuation); what a plan takes from its last action (Last)
--   Recovery/Checks         `validate_plan_for_target`, `_for_session` and `_for_flow`
--   Recovery/Commands       `validate_corrections_against_commands`: arguments (Arguments), schemas
--                           (Schema), recorded defaults (Defaults)
--   Recovery/Resume         `resume_arguments_for_plan` and `validate_resume_acknowledgement`
--   Recovery/Outcome        `classify_flow_outcome` and `_execution_outcome_predicate`
--   Recovery/Live           `RecoveryCoordinator._require_live_execution_state`
--   Recovery/Attempt        `RecoveryCoordinator._execute_attempt` and its exception handlers
--   Recovery/Queue          `RecoveryCoordinator.notify_failure` and the end of `_process_notified`
--   Recovery/Coordinator    `process_failure` and `_attach_active_recurrence` (Process),
--                           `_execute_target` up to the first claim (Prepare) and its loop over the
--                           attempts (Attempts); what they send (Log, Claimed, Sent) and that the
--                           loop ends (Spent, Ends); `reconcile` (Reconcile)
--   Episode, Episode/*      episode_evidence.py: `_sanitize_value` and `_is_sensitive_key`, what they
--                           leave (Clean), the evidence of an episode (Evidence)
--   Recovery/Rebind         `rebind_recovery_actions` and `_context_payload`: the actions that it
--                           writes (Refreshed), what becomes of the plan (Moved, Rebound)
--   Retrieval               `MemoryRetrievalIndex.read` and `auto_read_eligibility` of retrieval.py,
--                           and its errors: what is read (Reads), what can be read at once (Fits)
--   Recovery/Tests          sample data, runs and the witnesses of the theorems
--
-- A Python function that raises is a function into `Result`. The text of an exception is not kept.
-- JSON is what `json.loads` gives: a dict is a list of its items, looked up at the first entry of a
-- key; a finite float is the exact value m / 2 ^ k of the double, and whether an integer has a
-- double is asked of the runtime. Python's integers are unbounded, and so are the models'; where the
-- source checks a range, what passes is a natural number. Loops over JSON and lists are structural
-- recursion, so there is no fuel but that of the number of decimal digits, where a number is enough
-- fuel for itself.
--
-- An attempt is an action on `Run`: the outside world, the commands sent, the results given to the
-- database, `command_dispatched` and the counters. The robot session and the database are the
-- interface `Outside`, which gives each awaited call's result or exception and the world after it,
-- with no law assumed; timeouts and cancellation arrive there as exceptions. The logs of sent
-- commands, given results and claims with their replies are only there to speak about the calls.
--
-- The coordinator runs over `Control`, which adds its further calls to `Outside`. What its tasks share,
-- the stop event and the active sessions, is read off the world, since it changes while a call is
-- awaited. The loop over the attempts is on fuel, a number of rounds; what is sent is stated for any
-- number. The sessions of the robot are a relation of steps, one for each section of code between two
-- awaits, in any order.
--
-- Not modelled: `_reconcile_loop`, `start` and `stop` of `RecoveryCoordinator` and the checks of its
-- settings; the Supabase client; the socket and the reconnect delays of `RobotSession.run`;
-- `wait_connected` and `wait_for_commands`; the building of the snapshot of memories and the search in
-- it; the texts of messages and logs; and the other programs of the repository (resolver.py,
-- memory_store.py, agent.py, observer.py), which are mostly calls of models and services.
pub mod Prelude
pub mod Json
pub mod Errors
pub mod Runtime
pub mod Robot
pub mod Recovery
pub mod Episode
pub mod Retrieval

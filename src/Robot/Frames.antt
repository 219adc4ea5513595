-- ===== src/Robot/Frames.antt =====
-- What robot_session.py publishes to its clients: `CommandsFrame`, `CommandReceipt`, `_FlowFrame`.
use failure_resolver.Prelude.{ℕ, Option}
use failure_resolver.Json.{Json, Fields}
use failure_resolver.Robot.Pointer.{FlowPointer}

pub record CommandsFrame : Type 0 where
  pub revision : ℕ
  pub generation : ℕ
  pub commands : Fields

pub record CommandReceipt : Type 0 where
  pub result : Json
  pub generation : ℕ
  pub flow_revision_at_correlated_ack : ℕ

-- A Flow frame in the history, which may hold no pointer.
pub record FlowFrame : Type 0 where
  pub revision : ℕ
  pub generation : ℕ
  pub pointer : Option FlowPointer

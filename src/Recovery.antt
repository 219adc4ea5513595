-- ===== src/Recovery.antt =====
-- recovery_executor.py, a module for each part of it.
pub mod Inputs
pub mod Target
pub mod Session
pub mod Flow
pub mod Plan
pub mod Checks
pub mod Resume
pub mod Outcome
pub mod Commands
pub mod Live
pub mod Attempt
pub mod Queue
pub mod Coordinator
pub mod Rebind
mod Tests

-- ===== src/Robot.antt =====
-- robot_session.py: the Flow pointer, and the session of one robot.
pub mod Pointer
pub mod Frames
pub mod Session

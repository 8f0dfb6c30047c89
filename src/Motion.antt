-- ===== src/Motion.antt =====
-- The operator's inputs (include/motion, src/motion).
pub mod HoldTrigger
pub mod TapDetector
pub mod Handler
pub mod Locomotion
pub mod InputHandler

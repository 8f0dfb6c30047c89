-- ===== src/Planner.antt =====
-- The planner's thread (include/planner, src/planner).
mod Tests
pub mod Resample
pub mod Replan
pub mod Context
pub mod Inference

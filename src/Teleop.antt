-- ===== src/Teleop.antt =====
-- The operator's body as reference (include/teleop, src/teleop).
pub mod Pose
pub mod Ring
pub mod Resampler
pub mod Skeleton
pub mod ArmFk
pub mod Body
pub mod Matrix
pub mod SmplFk
pub mod ArmReach
pub mod Calibration
pub mod Tracker
pub mod Full

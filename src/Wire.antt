-- ===== src/Wire.antt =====
-- The robot's link: the checksum, the command writer and the state reader (src/unitree).
pub mod Checksum
pub mod Writer
pub mod Reader
mod Tests

-- ===== src/Control.antt =====
-- The control side of the program (include/control, src/control).
pub mod Arbiter
pub mod StateLogger
pub mod Playback
pub mod Buffer
pub mod Commands
pub mod WholeBody
pub mod Encoder
pub mod Decoder

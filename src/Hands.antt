-- ===== src/Hands.antt =====
-- The Dex3 hands (include/unitree/hand_*.hpp, src/unitree/hand_command_writer.cpp).
pub mod Command
pub mod Guard
pub mod Message
pub mod Writer
mod Tests

-- ===== src/Channels.antt =====
-- The channels between threads (include/common/data_buffer.hpp, include/common/event_queue.hpp) and the
-- receivers that fill them from outside (src/vla/vla_token_receiver.cpp, src/motion/nav_cmd_receiver.cpp).
pub mod DataBuffer
pub mod EventQueue
pub mod Receivers
mod Tests

-- ===== src/Robot.antt =====
-- The robot's constants (include/common/robot_params.hpp, include/common/joint_order.hpp).
pub mod Params
pub mod JointOrder

-- ===== src/Robot/JointOrder/Tests.antt =====
-- The joint orders at one joint.
use gearsonic_inference.Common.{◌<◌, ◌≡◌, length, arith}
use gearsonic_inference.Robot.JointOrder.{
  mujoco_to_isaaclab, isaaclab_to_mujoco, remap, remap_inverse,
}

remap_inverse_example :
    (length mujoco_to_isaaclab ≡ 29)
    × (length isaaclab_to_mujoco ≡ 29)
    × (remap mujoco_to_isaaclab 12 < 29)
    × (remap isaaclab_to_mujoco 12 < 29)
    × (remap isaaclab_to_mujoco (remap mujoco_to_isaaclab 12) ≡ 12)
    × (remap mujoco_to_isaaclab (remap isaaclab_to_mujoco 12) ≡ 12)
remap_inverse_example = remap_inverse 12 (omega arith)

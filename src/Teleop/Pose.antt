-- ===== src/Teleop/Pose.antt =====
-- SmplPose of include/teleop/smpl_pose.hpp, SmplPoseWindow of include/teleop/smpl_pose_window.hpp and
-- VR3Point of include/teleop/vr_3point.hpp.
use gearsonic_inference.Common.{ℕ, List}
use gearsonic_inference.Common.Quaternion.{Quat}
use gearsonic_inference.Common.Rotation.{Vec3}

pub record SmplPose (Real : Type 0) : Type 0 where
  pub joints_local : List (Vec3 Real)  -- 24
  pub anchor_quat : Quat Real
  pub wrist_joint_pos : List Real  -- 6

-- SmplPoseWindow::kFrames.
abbrev pub window_frames : ℕ
window_frames = 10

-- The frames of a SmplPoseWindow.
abbrev pub Window : Type 0 → Type 0
Window Real = List (SmplPose Real)

pub record Vr3Point (Real : Type 0) : Type 0 where
  pub position : List Real  -- 9
  pub orientation : List Real  -- 12

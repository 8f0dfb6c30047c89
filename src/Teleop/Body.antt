-- ===== src/Teleop/Body.antt =====
-- PicoVRBodyPose (include/pico/pico_vr_body_pose.hpp), and the map from the headset's axes to the
-- robot's that extract_raw and smpl_arm_reach.cpp share.
use gearsonic_inference.Common.{ℕ, List, get_or}
use gearsonic_inference.Common.Float.{Float, nil}
use gearsonic_inference.Common.Quaternion.{Quat}
use gearsonic_inference.Common.Rotation.{Vec3, quat_mul, quat_conjugate}

-- A joint as the stream has it: x, y, z and the orientation.
pub record Joint (Real : Type 0) : Type 0 where
  pub position : Vec3 Real
  pub rotation : Quat Real

-- 24 joints.
abbrev pub Body : Type 0 → Type 0
Body Real = List (Joint Real)

module _ (f : Float) where
  open f use {Real, ratio, neg, sqrt}

  abbrev pub zero_vec : Vec3 Real
  zero_vec = record { x = nil f; y = nil f; z = nil f }

  abbrev pub zero_quat : Quat Real
  zero_quat = record { w = nil f; x = nil f; y = nil f; z = nil f }

  abbrev pub joint : Body Real → ℕ → Joint Real
  joint body k = get_or body k (record { position = zero_vec; rotation = zero_quat })

  -- kUnityToRobot.
  abbrev pub unity_to_robot : Quat Real
  unity_to_robot = record { w = nil f; x = nil f; y = sqrt (ratio 5 10); z = sqrt (ratio 5 10) }

  abbrev pub robot_position : Vec3 Real → Vec3 Real
  robot_position v = record { x = neg v.x; y = v.z; z = v.y }

  abbrev pub robot_rotation : Quat Real → Quat Real
  robot_rotation q = quat_mul f unity_to_robot (quat_mul f q (quat_conjugate f unity_to_robot))

  -- M_PI.
  abbrev pub m_pi : Real
  m_pi = ratio 314159265358979323846 100_000_000_000_000_000_000

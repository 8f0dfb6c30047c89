-- ===== src/Teleop/ArmFk.antt =====
-- g1_wrist_fk (src/teleop/g1_arm_fk.cpp): the wrist key frames from the measured joints.
use gearsonic_inference.Common.{ℕ, Bool, List, [], ◌∷◌, get_or, if◌then◌else◌}
use gearsonic_inference.Common.Float.{Float, nil}
use gearsonic_inference.Common.Quaternion.{Quat, identity}
use gearsonic_inference.Common.Rotation.{
  Vec3, map_vec_two, x_axis, y_axis, z_axis, quat_mul, quat_rotate, quat_from_angle_axis,
}

-- A revolute joint: its origin, its axis and its index among the robot's joints.
pub record Link (Real : Type 0) : Type 0 where
  pub xyz : Vec3 Real
  pub rpy : Vec3 Real
  pub axis : Vec3 Real
  pub q_idx : ℕ

pub record G1WristPose (Real : Type 0) : Type 0 where
  pub position : Vec3 Real
  pub quaternion : Quat Real

module _ (f : Float) where
  open f use {Real, ratio, neg, add}

  -- R = Rz(c) * Ry(b) * Rx(a).
  unfoldable pub rpy_to_quat : Vec3 Real → Quat Real
  unfolding quat_mul quat_from_angle_axis
  rpy_to_quat rpy = quat_mul f (quat_from_angle_axis f rpy.z (z_axis f)) (
      quat_mul f (quat_from_angle_axis f rpy.y (y_axis f))
        (quat_from_angle_axis f rpy.x (x_axis f)))

  abbrev at : Real → Real → Real → Vec3 Real
  at x y z = record { x = x; y = y; z = z }

  abbrev link : Vec3 Real → Vec3 Real → Vec3 Real → ℕ → Link Real
  link xyz rpy axis q_idx = record { xyz = xyz; rpy = rpy; axis = axis; q_idx = q_idx }

  -- kLeftChain.
  unfoldable pub left_chain : List (Link Real)
  left_chain =
      link (at (nil f) (nil f) (nil f)) (at (nil f) (nil f) (nil f)) (z_axis f) 12
      ∷ link (at (neg (ratio 39635 10000000)) (nil f) (ratio 35 1000)) (at (nil f) (nil f) (nil f))
          (x_axis f) 13
      ∷ link (at (nil f) (nil f) (ratio 19 1000)) (at (nil f) (nil f) (nil f)) (y_axis f) 14
      ∷ link (at (ratio 39563 10000000) (ratio 10022 100000) (ratio 23778 100000))
          (at (ratio 27931 100000) (ratio 54949 1000000000) (neg (ratio 19159 100000000)))
          (y_axis f) 15
      ∷ link (at (nil f) (ratio 38 1000) (neg (ratio 13831 1000000)))
          (at (neg (ratio 27925 100000)) (nil f) (nil f)) (x_axis f) 16
      ∷ link (at (nil f) (ratio 624 100000) (neg (ratio 1032 10000))) (at (nil f) (nil f) (nil f))
          (z_axis f) 17
      ∷ link (at (ratio 15783 1000000) (nil f) (neg (ratio 80518 1000000)))
          (at (nil f) (nil f) (nil f)) (y_axis f) 18
      ∷ link (at (ratio 100 1000) (ratio 188791 100000000) (neg (ratio 10 1000)))
          (at (nil f) (nil f) (nil f)) (x_axis f) 19
      ∷ link (at (ratio 38 1000) (nil f) (nil f)) (at (nil f) (nil f) (nil f)) (y_axis f) 20
      ∷ link (at (ratio 46 1000) (nil f) (nil f)) (at (nil f) (nil f) (nil f)) (z_axis f) 21
      ∷ []

  -- kRightChain.
  unfoldable pub right_chain : List (Link Real)
  right_chain =
      link (at (nil f) (nil f) (nil f)) (at (nil f) (nil f) (nil f)) (z_axis f) 12
      ∷ link (at (neg (ratio 39635 10000000)) (nil f) (ratio 35 1000)) (at (nil f) (nil f) (nil f))
          (x_axis f) 13
      ∷ link (at (nil f) (nil f) (ratio 19 1000)) (at (nil f) (nil f) (nil f)) (y_axis f) 14
      ∷ link (at (ratio 39563 10000000) (neg (ratio 10021 100000)) (ratio 23778 100000))
          (at (neg (ratio 27931 100000)) (ratio 54949 1000000000) (ratio 19159 100000000))
          (y_axis f) 22
      ∷ link (at (nil f) (neg (ratio 38 1000)) (neg (ratio 13831 1000000)))
          (at (ratio 27925 100000) (nil f) (nil f)) (x_axis f) 23
      ∷ link (at (nil f) (neg (ratio 624 100000)) (neg (ratio 1032 10000)))
          (at (nil f) (nil f) (nil f)) (z_axis f) 24
      ∷ link (at (ratio 15783 1000000) (nil f) (neg (ratio 80518 1000000)))
          (at (nil f) (nil f) (nil f)) (y_axis f) 25
      ∷ link (at (ratio 100 1000) (neg (ratio 188791 100000000)) (neg (ratio 10 1000)))
          (at (nil f) (nil f) (nil f)) (x_axis f) 26
      ∷ link (at (ratio 38 1000) (nil f) (nil f)) (at (nil f) (nil f) (nil f)) (y_axis f) 27
      ∷ link (at (ratio 46 1000) (nil f) (nil f)) (at (nil f) (nil f) (nil f)) (z_axis f) 28
      ∷ []

  -- kLeftOffset and kRightOffset.
  abbrev pub wrist_offset : Bool → Vec3 Real
  wrist_offset left =
      if left
      then at (ratio 18 100) (neg (ratio 25 1000)) (nil f)
      else at (ratio 18 100) (ratio 25 1000) (nil f)

  -- The loop over the links, on the position and the orientation.
  unfoldable pub follow :
      List Real → List (Link Real) → Vec3 Real → Quat Real → Vec3 Real × Quat Real
  unfolding rpy_to_quat
  follow q [] p r = (p, r)
  follow q (l ∷ rest) p r =
      let d = quat_rotate f r l.xyz in
      let turned = quat_mul f r (rpy_to_quat l.rpy) in
      follow q rest (map_vec_two f add p d)
        (quat_mul f turned (quat_from_angle_axis f (get_or q l.q_idx (nil f)) l.axis))

  unfoldable pub g1_wrist_fk : List Real → Bool → G1WristPose Real
  unfolding left_chain right_chain follow
  g1_wrist_fk q left =
      let chain = if left then left_chain else right_chain in
      let (p, r) = follow q chain (at (nil f) (nil f) (nil f)) (identity f) in
      record {
        position = map_vec_two f add p (quat_rotate f r (wrist_offset left));
        quaternion = r;
      }

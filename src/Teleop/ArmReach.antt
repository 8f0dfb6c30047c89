-- ===== src/Teleop/ArmReach.antt =====
-- smpl_arms_from_tracked_wrists (src/teleop/smpl_arm_reach.cpp): the arms from the tracked wrists.
use gearsonic_inference.Common.{ℕ, set, get_or, if◌then◌else◌}
use gearsonic_inference.Common.Float.{Float, nil, one, of_nat, fmax, fmin, fclamp, fabs}
use gearsonic_inference.Common.Quaternion.{Quat}
use gearsonic_inference.Common.Rotation.{
  Vec3, map_vec, map_vec_two, y_axis, z_axis, quat_mul, quat_conjugate, quat_rotate,
  quat_from_angle_axis,
}
use gearsonic_inference.Teleop.Pose.{SmplPose}
use gearsonic_inference.Teleop.Body.{Body, joint, zero_vec, robot_position, robot_rotation, m_pi}
use gearsonic_inference.Teleop.Skeleton.{smpl_x_rest_joints}
use gearsonic_inference.Teleop.Matrix.{dot_of}

-- max_reach[0] and max_reach[1].
pub record ArmReachState (Real : Type 0) : Type 0 where
  pub left_reach : Real
  pub right_reach : Real

-- The joints of one arm: the shoulder, the elbow, the wrist, the thumb tip and the tracked wrist.
pub record Arm : Type 0 where
  pub s : ℕ
  pub e : ℕ
  pub w : ℕ
  pub t : ℕ
  pub tw : ℕ

module _ (f : Float) where
  open f use {Real, ratio, neg, add, sub, mul, div, lt, sqrt}

  abbrev pub fresh_reach : ArmReachState Real
  fresh_reach = record { left_reach = ratio 55 100; right_reach = ratio 55 100 }

  abbrev minus : Vec3 Real → Vec3 Real → Vec3 Real
  minus a b = map_vec_two f sub a b

  abbrev plus : Vec3 Real → Vec3 Real → Vec3 Real
  plus a b = map_vec_two f add a b

  abbrev scale : Vec3 Real → Real → Vec3 Real
  scale a s = map_vec f (λ c. mul c s) a

  abbrev norm : Vec3 Real → Real
  norm a = sqrt (dot_of f a a)

  abbrev cross : Vec3 Real → Vec3 Real → Vec3 Real
  cross a b = record {
    x = sub (mul a.y b.z) (mul a.z b.y);
    y = sub (mul a.z b.x) (mul a.x b.z);
    z = sub (mul a.x b.y) (mul a.y b.x);
  }

  -- kRootYawOffset.
  abbrev root_yaw_offset : Quat Real
  root_yaw_offset = quat_from_angle_axis f (div (neg (m_pi f)) (of_nat f 2)) (z_axis f)

  unfoldable pub tracked_root_relative : Body Real → ℕ → Vec3 Real
  tracked_root_relative body k =
      let pos_robot = λ (i : ℕ). robot_position f (joint f body i).position in
      let q_root = quat_mul f (robot_rotation f (joint f body 0).rotation) root_yaw_offset in
      quat_rotate f (quat_conjugate f q_root) (minus (pos_robot k) (pos_robot 0))

  unfoldable pub seg_len : ℕ → ℕ → Real
  seg_len a b = norm (
      minus (get_or (smpl_x_rest_joints f) a (zero_vec f))
        (get_or (smpl_x_rest_joints f) b (zero_vec f)))

  -- The direction off the arm's line in which the elbow lies, of length one.
  unfoldable pub swivel : Vec3 Real → Vec3 Real → Vec3 Real
  swivel h u =
      let off = λ (v : Vec3 Real). minus v (scale u (dot_of f v u)) in
      let down : Vec3 Real = record { x = nil f; y = nil f; z = neg (one f) } in
      let small = λ (v : Vec3 Real). lt (norm v) (ratio 1 10000) in
      let default = if small (off down) then cross u (y_axis f) else off down in
      let h_perp = if small (off h) then default else off h in
      scale h_perp (div (one f) (norm h_perp))

  -- The arm with its wrist at d from the shoulder along u, the segments a and b.
  unfoldable pub place_arm : SmplPose Real → Arm → Real → Real → Real → Vec3 Real → SmplPose Real
  unfolding swivel
  place_arm pose arm a b target u =
      let at = λ (k : ℕ). get_or pose.joints_local k (zero_vec f) in
      let thumb_off = minus (at arm.t) (at arm.w) in
      let tiny = ratio 1 1_000_000 in
      let d = fclamp f target (add (fabs f (sub a b)) tiny) (sub (add a b) tiny) in
      let along = div (add (sub (mul a a) (mul b b)) (mul d d)) (mul (of_nat f 2) d) in
      let r = sqrt (fmax f (sub (mul a a) (mul along along)) (nil f)) in
      let h_perp = swivel (minus (at arm.e) (at arm.s)) u in
      let elbow = plus (at arm.s) (plus (scale u along) (scale h_perp r)) in
      let wrist = plus (at arm.s) (scale u d) in
      record pose {
        joints_local =
            set (set (set pose.joints_local arm.e elbow) arm.w wrist) arm.t (plus wrist thumb_off);
      }

  -- The pose and the arm's reach. Degenerate tracking keeps both.
  unfoldable pub solve_arm : SmplPose Real → Body Real → Real → Arm → SmplPose Real × Real
  unfolding tracked_root_relative seg_len place_arm
  solve_arm pose body reach arm =
      let a = seg_len arm.s arm.e in
      let b = seg_len arm.e arm.w in
      let v = minus (tracked_root_relative body arm.tw) (tracked_root_relative body arm.s) in
      let len = norm v in
      let max_reach = fmax f reach len in
      let target = mul (fmin f (div len max_reach) (one f)) (add a b) in
      if lt len (ratio 1 1000)
      then (pose, reach)
      else (place_arm pose arm a b target (scale v (div (one f) len)), max_reach)

  abbrev pub left_arm : Arm
  left_arm = record { s = 16; e = 18; w = 20; t = 22; tw = 22 }

  abbrev pub right_arm : Arm
  right_arm = record { s = 17; e = 19; w = 21; t = 23; tw = 23 }

  unfoldable pub smpl_arms_from_tracked_wrists :
      SmplPose Real → Body Real → ArmReachState Real → SmplPose Real × ArmReachState Real
  unfolding solve_arm
  smpl_arms_from_tracked_wrists pose body reach =
      let (pose1, left_reach) = solve_arm pose body reach.left_reach left_arm in
      let (pose2, right_reach) = solve_arm pose1 body reach.right_reach right_arm in
      (pose2, record { left_reach = left_reach; right_reach = right_reach })

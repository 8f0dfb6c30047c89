-- ===== src/Teleop/Calibration.antt =====
-- The three points of TeleopTracker (src/teleop/teleop_tracker.cpp) and their calibration.
use gearsonic_inference.Common.{
  ℕ, Bool, true, false, Option, none, some, List, [], ◌∷◌, if◌then◌else◌,
}
use gearsonic_inference.Common.Float.{Float, nil, of_nat}
use gearsonic_inference.Common.Quaternion.{Quat}
use gearsonic_inference.Common.Rotation.{
  Vec3, map_vec_two, z_axis, quat_mul, quat_conjugate, quat_rotate,
}
use gearsonic_inference.Teleop.Pose.{Vr3Point}
use gearsonic_inference.Teleop.Body.{
  Body, joint, zero_vec, zero_quat, robot_position, robot_rotation, m_pi,
}
use gearsonic_inference.Teleop.ArmFk.{rpy_to_quat, g1_wrist_fk}

-- Raw3Point: the left wrist, the right wrist and the neck.
pub record Keypoint (Real : Type 0) : Type 0 where
  pub pos : Vec3 Real
  pub quat : Quat Real

pub record Raw3Point (Real : Type 0) : Type 0 where
  pub left : Keypoint Real
  pub right : Keypoint Real
  pub neck : Keypoint Real

pub record Calibration (Real : Type 0) : Type 0 where
  pub have_neck_calib : Bool
  pub neck_quat_inv : Quat Real
  pub lwrist_pos_offset : Vec3 Real
  pub rwrist_pos_offset : Vec3 Real
  pub lwrist_rot_offset : Quat Real
  pub rwrist_rot_offset : Quat Real

module _ (f : Float) where
  open f use {Real, ratio, neg, add, sub, mul, div}

  abbrev pub no_calibration : Calibration Real
  no_calibration = record {
    have_neck_calib = false;
    neck_quat_inv = zero_quat f;
    lwrist_pos_offset = zero_vec f;
    rwrist_pos_offset = zero_vec f;
    lwrist_rot_offset = zero_quat f;
    rwrist_rot_offset = zero_quat f;
  }

  -- A whole number of degrees, as `n * kDeg`.
  abbrev degrees : ℕ → Real
  degrees n = mul (of_nat f n) (div (m_pi f) (of_nat f 180))

  abbrev minus_degrees : ℕ → Real
  minus_degrees n = mul (neg (of_nat f n)) (div (m_pi f) (of_nat f 180))

  -- euler_xyz_extrinsic, which is the formula of rpy_to_quat.
  abbrev euler_xyz_extrinsic : Real → Real → Real → Quat Real
  euler_xyz_extrinsic a b c = rpy_to_quat f (record { x = a; y = b; z = c })

  -- kOffsets: of the root and the neck, of the left and of the right wrist.
  abbrev yaw_offset : Quat Real
  yaw_offset = euler_xyz_extrinsic (nil f) (nil f) (minus_degrees 90)

  abbrev left_offset : Quat Real
  left_offset = euler_xyz_extrinsic (degrees 90) (nil f) (nil f)

  abbrev right_offset : Quat Real
  right_offset = euler_xyz_extrinsic (minus_degrees 90) (nil f) (degrees 180)

  abbrev at : Real → Real → Real → Vec3 Real
  at x y z = record { x = x; y = y; z = z }

  -- kG1LWristPos, kG1LWristQuat and the right ones.
  abbrev zero_pose_left : Keypoint Real
  zero_pose_left = record {
    pos =
        at (ratio 3797694914 10_000_000_000) (ratio 1236272185 10_000_000_000)
          (ratio 952214409 10_000_000_000);
    quat = record {
      w = ratio 9999999946 10_000_000_000;
      x = ratio 300026 10_000_000_000;
      y = ratio 274716 10_000_000_000;
      z = neg (ratio 957958 10_000_000_000);
    };
  }

  abbrev zero_pose_right : Keypoint Real
  zero_pose_right = record {
    pos =
        at (ratio 3797694914 10_000_000_000) (neg (ratio 1236172185 10_000_000_000))
          (ratio 952214409 10_000_000_000);
    quat = record {
      w = ratio 9999999946 10_000_000_000;
      x = neg (ratio 300026 10_000_000_000);
      y = ratio 274716 10_000_000_000;
      z = ratio 957958 10_000_000_000;
    };
  }

  unfoldable pub extract_raw : Body Real → Raw3Point Real
  extract_raw body =
      let pos = λ (k : ℕ). robot_position f (joint f body k).position in
      let quat = λ (k : ℕ) (offset : Quat Real).
        quat_mul f (robot_rotation f (joint f body k).rotation) offset in
      let root_inv = quat_conjugate f (quat 0 yaw_offset) in
      let point : ℕ → Quat Real → Keypoint Real = λ k offset. record {
        pos = quat_rotate f root_inv (map_vec_two f sub (pos k) (pos 0));
        quat = quat_mul f root_inv (quat k offset);
      } in
      record {
        left = point 22 left_offset;
        right = point 23 right_offset;
        neck = point 12 yaw_offset;
      }

  -- The wrist reference: from the measured joints where the provider gives them, else the zero pose.
  abbrev reference : Option (List Real) → Bool → Keypoint Real
  reference none left = if left then zero_pose_left else zero_pose_right
  reference (some q) left =
      let fk = g1_wrist_fk f q left in record { pos = fk.position; quat = fk.quaternion }

  -- The wrist and its rotation in the neck-corrected frame.
  abbrev corrected : Quat Real → Keypoint Real → Keypoint Real
  corrected inv p = record { pos = quat_rotate f inv p.pos; quat = quat_mul f inv p.quat }

  unfoldable pub capture_calibration :
      Calibration Real → Raw3Point Real → Option (List Real) → Calibration Real
  capture_calibration c raw measured =
      let inv = if c.have_neck_calib then c.neck_quat_inv else quat_conjugate f raw.neck.quat in
      let lw = corrected inv raw.left in
      let rw_point = corrected inv raw.right in
      record {
        have_neck_calib = true;
        neck_quat_inv = inv;
        lwrist_pos_offset = map_vec_two f sub lw.pos (reference measured true).pos;
        rwrist_pos_offset = map_vec_two f sub rw_point.pos (reference measured false).pos;
        lwrist_rot_offset = quat_mul f (reference measured true).quat (quat_conjugate f lw.quat);
        rwrist_rot_offset =
            quat_mul f (reference measured false).quat (quat_conjugate f rw_point.quat);
      }

  unfoldable pub apply_calibration : Calibration Real → Raw3Point Real → Vr3Point Real
  apply_calibration c raw =
      let neck_q = quat_mul f c.neck_quat_inv raw.neck.quat in
      let lw = corrected c.neck_quat_inv raw.left in
      let rw_point = corrected c.neck_quat_inv raw.right in
      let l = map_vec_two f sub lw.pos c.lwrist_pos_offset in
      let r = map_vec_two f sub rw_point.pos c.rwrist_pos_offset in
      let lq = quat_mul f c.lwrist_rot_offset lw.quat in
      let rq = quat_mul f c.rwrist_rot_offset rw_point.quat in
      let n = quat_rotate f neck_q (z_axis f) in
      let neck = λ (base c : Real). add base (mul (ratio 35 100) c) in
      record {
        position =
            l.x
            ∷ l.y
            ∷ l.z
            ∷ r.x
            ∷ r.y
            ∷ r.z
            ∷ neck (nil f) n.x
            ∷ neck (nil f) n.y
            ∷ neck (ratio 5 100) n.z
            ∷ [];
        orientation =
            lq.w ∷ lq.x ∷ lq.y ∷ lq.z ∷ rq.w ∷ rq.x ∷ rq.y ∷ rq.z ∷ neck_q.w ∷ neck_q.x ∷ neck_q.y
            ∷ neck_q.z ∷ [];
      }

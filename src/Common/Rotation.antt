-- ===== src/Common/Rotation.antt =====
-- The quaternion algebra, the headings and the conversions of include/common/math_utils.hpp.
use gearsonic_inference.Common.Float.{Float, nil, one, of_nat, fmax}
use gearsonic_inference.Common.Quaternion.{Quat, quat_unit}

pub record Vec3 (Real : Type 0) : Type 0 where
  pub x : Real
  pub y : Real
  pub z : Real

module _ (f : Float) where
  open f use {Real, ratio, neg, add, sub, mul, div, cos, sin, atan2, sqrt}

  abbrev pub map_vec : (Real → Real) → Vec3 Real → Vec3 Real
  map_vec g v = record { x = g v.x; y = g v.y; z = g v.z }

  abbrev pub map_vec_two : (Real → Real → Real) → Vec3 Real → Vec3 Real → Vec3 Real
  map_vec_two g u v = record { x = g u.x v.x; y = g u.y v.y; z = g u.z v.z }

  abbrev dot_vec : Vec3 Real → Vec3 Real → Real
  dot_vec u v = add (add (mul u.x v.x) (mul u.y v.y)) (mul u.z v.z)

  abbrev two : Real
  two = of_nat f 2

  unfoldable pub normalize_vector : Vec3 Real → Vec3 Real
  normalize_vector v =
      let norm = fmax f (sqrt (dot_vec v v)) (ratio 1 1_000_000_000_000) in
      map_vec (λ c. div c norm) v

  unfoldable pub quat_conjugate : Quat Real → Quat Real
  quat_conjugate q = record { w = q.w; x = neg q.x; y = neg q.y; z = neg q.z }

  unfoldable pub quat_mul : Quat Real → Quat Real → Quat Real
  quat_mul a b =
      let ww = mul (add a.z a.x) (add b.x b.y) in
      let yy = mul (sub a.w a.y) (add b.w b.z) in
      let zz = mul (add a.w a.y) (sub b.w b.z) in
      let xx = add (add ww yy) zz in
      let qq = mul (ratio 5 10) (add xx (mul (sub a.z a.x) (sub b.x b.y))) in
      record {
        w = add (sub qq ww) (mul (sub a.z a.y) (sub b.y b.z));
        x = add (sub qq xx) (mul (add a.x a.w) (add b.x b.w));
        y = add (sub qq yy) (mul (sub a.w a.x) (add b.y b.z));
        z = add (sub qq zz) (mul (add a.z a.y) (sub b.w b.x));
      }

  unfoldable pub quat_rotate : Quat Real → Vec3 Real → Vec3 Real
  quat_rotate q v =
      let scale_a = sub (mul (mul two q.w) q.w) (one f) in
      let a = map_vec (λ c. mul c scale_a) v in
      let cross : Vec3 Real = record {
        x = sub (mul q.y v.z) (mul q.z v.y);
        y = sub (mul q.z v.x) (mul q.x v.z);
        z = sub (mul q.x v.y) (mul q.y v.x);
      } in
      let b = map_vec (λ c. mul (mul c q.w) two) cross in
      let qv : Vec3 Real = record { x = q.x; y = q.y; z = q.z } in
      let along = dot_vec qv v in
      let c = map_vec (λ d. mul (mul d along) two) qv in map_vec_two add (map_vec_two add a b) c

  unfoldable pub quat_from_angle_axis : Real → Vec3 Real → Quat Real
  unfolding normalize_vector quat_unit
  quat_from_angle_axis angle axis =
      let theta = div angle two in
      let n = normalize_vector axis in
      quat_unit f (record {
        w = cos theta;
        x = mul n.x (sin theta);
        y = mul n.y (sin theta);
        z = mul n.z (sin theta);
      })

  abbrev pub x_axis : Vec3 Real
  x_axis = record { x = one f; y = nil f; z = nil f }

  abbrev pub y_axis : Vec3 Real
  y_axis = record { x = nil f; y = one f; z = nil f }

  abbrev pub z_axis : Vec3 Real
  z_axis = record { x = nil f; y = nil f; z = one f }

  -- The yaw of the body's x axis in the world.
  unfoldable pub calc_heading : Quat Real → Real
  unfolding quat_rotate
  calc_heading q = let dir = quat_rotate q x_axis in atan2 dir.y dir.x

  unfoldable pub calc_heading_quat : Quat Real → Quat Real
  unfolding calc_heading quat_from_angle_axis
  calc_heading_quat q = quat_from_angle_axis (calc_heading q) z_axis

  unfoldable pub calc_heading_quat_inv : Quat Real → Quat Real
  unfolding calc_heading quat_from_angle_axis
  calc_heading_quat_inv q = quat_from_angle_axis (neg (calc_heading q)) z_axis

  unfoldable pub euler_z_to_quat : Real → Quat Real
  unfolding quat_from_angle_axis
  euler_z_to_quat angle = quat_from_angle_axis angle z_axis

  -- The three rows.
  unfoldable pub quat_to_rotation_matrix : Quat Real → Vec3 Real × Vec3 Real × Vec3 Real
  unfolding quat_unit
  quat_to_rotation_matrix quat =
      let q = quat_unit f quat in
      let diagonal = λ (a b : Real). sub (one f) (mul two (add a b)) in
      let plus = λ (a b : Real). mul two (add a b) in
      let minus = λ (a b : Real). mul two (sub a b) in
      (
        record {
          x = diagonal (mul q.y q.y) (mul q.z q.z);
          y = minus (mul q.x q.y) (mul q.w q.z);
          z = plus (mul q.x q.z) (mul q.w q.y);
        },
        record {
          x = plus (mul q.x q.y) (mul q.w q.z);
          y = diagonal (mul q.x q.x) (mul q.z q.z);
          z = minus (mul q.y q.z) (mul q.w q.x);
        },
        record {
          x = minus (mul q.x q.z) (mul q.w q.y);
          y = plus (mul q.y q.z) (mul q.w q.x);
          z = diagonal (mul q.x q.x) (mul q.y q.y);
        },
      )

  -- The world's (0, 0, -1) in the body's frame.
  unfoldable pub gravity_in_body_frame : Quat Real → Vec3 Real
  unfolding quat_rotate quat_conjugate
  gravity_in_body_frame base_quat =
      quat_rotate (quat_conjugate base_quat) (record { x = nil f; y = nil f; z = neg (one f) })

-- ===== src/Teleop/Matrix.antt =====
-- The rotation helpers of src/teleop/smpl_fk.cpp. A matrix is its three rows.
use gearsonic_inference.Common.{if◌then◌else◌}
use gearsonic_inference.Common.Float.{Float, nil, one, of_nat, fmax}
use gearsonic_inference.Common.Quaternion.{Quat, identity, map_quat, quat_unit}
use gearsonic_inference.Common.Rotation.{
  Vec3, map_vec, quat_mul, quat_conjugate, quat_from_angle_axis,
}
use gearsonic_inference.Teleop.Body.{zero_vec}

abbrev pub Mat3 : Type 0 → Type 0
Mat3 Real = Vec3 Real × Vec3 Real × Vec3 Real

module _ (f : Float) where
  open f use {Real, ratio, neg, add, sub, mul, div, lt, le, sqrt, sin, cos, atan2}

  abbrev pub dot_of : Vec3 Real → Vec3 Real → Real
  dot_of a b = add (add (mul a.x b.x) (mul a.y b.y)) (mul a.z b.z)

  unfoldable pub quat_from_rotvec : Vec3 Real → Quat Real
  unfolding quat_from_angle_axis
  quat_from_rotvec v =
      let angle = sqrt (dot_of v v) in
      if lt angle (ratio 1 1_000_000_000_000) then identity f else quat_from_angle_axis f angle v

  unfoldable pub rotvec_from_quat : Quat Real → Vec3 Real
  unfolding quat_unit
  rotvec_from_quat q_in =
      let unit = quat_unit f q_in in
      let q = if lt unit.w (nil f) then map_quat f neg unit else unit in
      let vn = sqrt (add (add (mul q.x q.x) (mul q.y q.y)) (mul q.z q.z)) in
      let angle = mul (of_nat f 2) (atan2 vn q.w) in
      if lt vn (ratio 1 1_000_000_000_000) then zero_vec f else record {
        x = mul (div q.x vn) angle;
        y = mul (div q.y vn) angle;
        z = mul (div q.z vn) angle;
      }

  unfoldable pub euler_xyz_intrinsic : Mat3 Real → Vec3 Real
  euler_xyz_intrinsic (r0, r1, r2) = record {
    x = atan2 (neg r1.z) r2.z;
    y = atan2 r0.z (sqrt (add (mul r0.x r0.x) (mul r0.y r0.y)));
    z = atan2 (neg r0.y) r0.x;
  }

  unfoldable pub mat_apply : Mat3 Real → Vec3 Real → Vec3 Real
  mat_apply (r0, r1, r2) v = record { x = dot_of r0 v; y = dot_of r1 v; z = dot_of r2 v }

  -- A row times a matrix.
  abbrev row_mul : Vec3 Real → Mat3 Real → Vec3 Real
  row_mul r (b0, b1, b2) = record {
    x = add (add (mul r.x b0.x) (mul r.y b1.x)) (mul r.z b2.x);
    y = add (add (mul r.x b0.y) (mul r.y b1.y)) (mul r.z b2.y);
    z = add (add (mul r.x b0.z) (mul r.y b1.z)) (mul r.z b2.z);
  }

  unfoldable pub mat_mul : Mat3 Real → Mat3 Real → Mat3 Real
  mat_mul (a0, a1, a2) b = (row_mul a0 b, row_mul a1 b, row_mul a2 b)

  -- The twist about the axis and the swing.
  unfoldable pub swing_twist : Vec3 Real → Vec3 Real → Quat Real × Quat Real
  unfolding quat_from_rotvec quat_unit quat_mul quat_conjugate
  swing_twist rotvec axis =
      let q = quat_from_rotvec rotvec in
      let d = add (add (mul q.x axis.x) (mul q.y axis.y)) (mul q.z axis.z) in
      let twist =
        quat_unit f (record { w = q.w; x = mul d axis.x; y = mul d axis.y; z = mul d axis.z }) in
      (twist, quat_mul f (quat_conjugate f twist) q)

  abbrev at : Real → Real → Real → Vec3 Real
  at x y z = record { x = x; y = y; z = z }

  -- The small-angle matrix, and the other one.
  unfoldable pub rotmat_from_rotvec_kornia : Vec3 Real → Mat3 Real
  rotmat_from_rotvec_kornia v =
      let eps = ratio 1 1_000_000 in
      let theta2 = dot_of v v in
      let theta = sqrt (fmax f theta2 eps) in
      let w = map_vec f (λ c. div c (add theta eps)) v in
      let c = cos theta in
      let s = sin theta in
      let k = sub (one f) c in
      let small : Mat3 Real =
        (at (one f) (neg v.z) v.y, at v.z (one f) (neg v.x), at (neg v.y) v.x (one f)) in
      let large : Mat3 Real = (
        at (add c (mul (mul w.x w.x) k)) (sub (mul (mul w.x w.y) k) (mul w.z s))
            (add (mul w.y s) (mul (mul w.x w.z) k)),
        at (add (mul w.z s) (mul (mul w.x w.y) k)) (add c (mul (mul w.y w.y) k))
            (add (mul (neg w.x) s) (mul (mul w.y w.z) k)),
        at (add (mul (neg w.y) s) (mul (mul w.x w.z) k)) (add (mul w.x s) (mul (mul w.y w.z) k))
            (add c (mul (mul w.z w.z) k)),
      ) in
      if le theta2 eps then small else large

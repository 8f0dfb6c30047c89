-- ===== src/Common/Quaternion.antt =====
-- Interpolation of unit quaternions, from include/common/math_utils.hpp.
use gearsonic_inference.Common.Tests.{if◌then◌else◌}
use gearsonic_inference.Common.Float.{Float, nil, one, fmax}

pub record Quat (Real : Type 0) : Type 0 where
  pub w : Real
  pub x : Real
  pub y : Real
  pub z : Real

module _ (f : Float) where
  open f use {Real, ratio, neg, add, sub, mul, div, lt, cos, sin, acos, sqrt}

  abbrev pub map_quat : (Real → Real) → Quat Real → Quat Real
  map_quat g q = record { w = g q.w; x = g q.x; y = g q.y; z = g q.z }

  abbrev pub map_quat_two : (Real → Real → Real) → Quat Real → Quat Real → Quat Real
  map_quat_two g p q = record { w = g p.w q.w; x = g p.x q.x; y = g p.y q.y; z = g p.z q.z }

  abbrev pub dot : Quat Real → Quat Real → Real
  dot p q = add (add (add (mul p.w q.w) (mul p.x q.x)) (mul p.y q.y)) (mul p.z q.z)

  abbrev pub identity : Quat Real
  identity = record { w = one f; x = nil f; y = nil f; z = nil f }

  unfoldable pub quat_unit : Quat Real → Quat Real
  quat_unit q =
      let norm = fmax f (sqrt (dot q q)) (ratio 1 1_000_000_000_000) in map_quat (λ v. div v norm) q

  unfoldable pub quat_slerp : Quat Real → Quat Real → Real → Quat Real
  unfolding quat_unit
  quat_slerp a b t =
      let flip = lt (dot a b) (nil f) in
      let bb = if flip then map_quat neg b else b in
      let d = if flip then neg (dot a b) else dot a b in
      let theta = mul (acos d) t in
      let sin_t0 = sin (acos d) in
      let s0 = sub (cos theta) (div (mul d (sin theta)) sin_t0) in
      let s1 = div (sin theta) sin_t0 in
      if lt (ratio 9995 10000) d
      then quat_unit (map_quat_two (λ p q. add p (mul t (sub q p))) a bb)
      else map_quat_two (λ p q. add (mul s0 p) (mul s1 q)) a bb

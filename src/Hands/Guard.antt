-- ===== src/Hands/Guard.antt =====
-- HandGuard of include/unitree/hand_guard.hpp: the stall detector and the bound of each target.
pub mod Limits
mod Latch
use gearsonic_inference.Common.{
  ℕ, Bool, true, false, ◌&&◌, ◌||◌, not, Option, none, some, List, [], ◌∷◌, map, replicate,
  if◌then◌else◌, ltb,
}
use gearsonic_inference.Common.Int.{ℤ, pos, leb_ℤ}
use gearsonic_inference.Common.Float.{Float, nil, one, fmax, fclamp, fabs}
use gearsonic_inference.Hands.Command.{HandCommand}

-- state_stale_ms is an argument of the writer's turn, which tests it.
pub record Params (Real : Type 0) : Type 0 where
  pub enabled : Bool
  pub kp : Real
  pub kd : Real
  pub tau_max : Real
  pub stall_err_th : Real
  pub stall_vel_th : Real
  pub stall_time_s : Real
  pub stall_offset : Real
  pub kp_hold : Real
  pub temp_max_c : ℕ  -- 0, or negative, is off

-- HandMotorState, as far as the guard reads it.
pub record Measured (Real : Type 0) : Type 0 where
  pub q : Real
  pub dq : Real
  pub temp_casing : ℤ

-- One motor's stall_s_ and latched_.
pub record Finger (Real : Type 0) : Type 0 where
  pub stall_s : Real
  pub latched : Bool

module _ (f : Float) where
  open f use {Real, ratio, neg, add, sub, mul, div, lt, le}

  abbrev pub free : Finger Real
  free = record { stall_s = nil f; latched = false }

  abbrev pub reset : List (Finger Real)
  reset = replicate 7 free

  -- The stall detector, from the error e.
  unfoldable pub detect : Params Real → Real → Real → Measured Real → Finger Real → Finger Real
  detect p dt e meas finger =
      let cond = lt p.stall_err_th (fabs f e) && lt (fabs f meas.dq) p.stall_vel_th in
      let hot = ltb 0 p.temp_max_c && leb_ℤ (pos p.temp_max_c) meas.temp_casing in
      let stall = if cond then add finger.stall_s dt else nil f in
      let latched = finger.latched || (hot || le p.stall_time_s stall) in
      record {
        stall_s = stall;
        latched = if latched && not hot && le (fabs f e) p.stall_err_th then false else latched;
      }

  abbrev sign : Real → Real
  sign e = if lt (nil f) e then one f else if lt e (nil f) then neg (one f) else nil f

  -- The target within reach of the measured position, and within the limits.
  unfoldable pub bounded_target : Params Real → Bool → Real → Real → Real × Real → Real
  bounded_target p latched e q_meas (lo, hi) =
      let e_max = div p.tau_max (fmax f p.kp (ratio 1 1000)) in
      let q_cmd =
        if latched
        then add q_meas (mul p.stall_offset (sign e))
        else add q_meas (fclamp f e (neg e_max) e_max) in
      fclamp f q_cmd lo hi

  -- The loop over the motors: each motor's state, target and gain.
  unfoldable pub guard_fingers :
      Params Real
      → Real
      → List (Real × Real)
      → List (Finger Real)
      → List Real
      → List (Measured Real)
      → List (Finger Real × Real × Real)
  unfolding detect bounded_target
  guard_fingers p dt [] fingers qs meas = []
  guard_fingers p dt (l ∷ ls) [] qs meas = []
  guard_fingers p dt (l ∷ ls) (g ∷ gs) [] meas = []
  guard_fingers p dt (l ∷ ls) (g ∷ gs) (q ∷ qs) [] = []
  guard_fingers p dt (l ∷ ls) (g ∷ gs) (q ∷ qs) (x ∷ xs) =
      let e = sub q x.q in
      let g' = detect p dt e x g in
      (g', bounded_target p g'.latched e x.q l, if g'.latched then p.kp_hold else p.kp)
      ∷ guard_fingers p dt ls gs qs xs

  -- `none` for a measurement that is absent or stale.
  unfoldable pub apply :
      Params Real
      → List (Real × Real)
      → List (Finger Real)
      → HandCommand Real
      → Option (List (Measured Real))
      → Real
      → List (Finger Real) × HandCommand Real
  unfolding guard_fingers
  apply p limits fingers desired none dt = (reset, desired)
  apply p limits fingers desired (some meas) dt =
      let out = guard_fingers p dt limits fingers desired.q meas in
      if not p.enabled || not desired.enabled then (reset, desired) else (
        map (λ o. o.0) out,
        record {
          q = map (λ o. o.1) out;
          kp = map (λ o. o.2) out;
          kd = replicate 7 p.kd;
          enabled = desired.enabled;
        },
      )

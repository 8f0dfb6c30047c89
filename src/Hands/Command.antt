-- ===== src/Hands/Command.antt =====
-- include/unitree/hand_command.hpp: the hand's poses and limits, the squeeze of a held axis, and the
-- command of the two axes; from_vla_joints and stop_command of src/unitree/hand_command_writer.cpp.
use gearsonic_inference.Common.{
  ℕ, Bool, true, false, List, [], ◌∷◌, map, zip_with, replicate, if◌then◌else◌,
}
use gearsonic_inference.Common.Float.{Float, Machine, nil, one, fclamp}

pub record HandCommand (Real : Type 0) : Type 0 where
  pub q : List Real  -- 7
  pub kp : List Real
  pub kd : List Real
  pub enabled : Bool

module _ (f : Float) where
  open f use {Real, ratio, neg}

  abbrev hundredth : ℕ → Real
  hundredth n = ratio n 100

  -- kDex3LeftMin with kDex3LeftMax, and kDex3RightMin with kDex3RightMax: (least, greatest).
  unfoldable pub left_limits : List (Real × Real)
  left_limits =
      (neg (hundredth 105), hundredth 105)
      ∷ (neg (ratio 724 1000), hundredth 105)
      ∷ (nil f, hundredth 175)
      ∷ (neg (hundredth 157), nil f)
      ∷ (neg (hundredth 175), nil f)
      ∷ (neg (hundredth 157), nil f)
      ∷ (neg (hundredth 175), nil f)
      ∷ []

  unfoldable pub right_limits : List (Real × Real)
  right_limits =
      (neg (hundredth 105), hundredth 105)
      ∷ (neg (hundredth 105), ratio 742 1000)
      ∷ (neg (hundredth 175), nil f)
      ∷ (nil f, hundredth 157)
      ∷ (nil f, hundredth 175)
      ∷ (nil f, hundredth 157)
      ∷ (nil f, hundredth 175)
      ∷ []

  abbrev pub limits : Bool → List (Real × Real)
  limits is_left = if is_left then left_limits else right_limits

  -- kHandKp and kHandKd.
  abbrev pub hand_kp : Real
  hand_kp = ratio 15 10

  abbrev pub hand_kd : Real
  hand_kd = ratio 1 10

  unfoldable pub from_vla_joints : List Real → Bool → HandCommand Real
  from_vla_joints q is_left = record {
    q = zip_with (λ x (lo, hi). fclamp f x lo hi) q (limits is_left);
    kp = replicate 7 hand_kp;
    kd = replicate 7 hand_kd;
    enabled = true;
  }

  unfoldable pub stop_command : HandCommand Real
  stop_command = record {
    q = replicate 7 (nil f);
    kp = replicate 7 (nil f);
    kd = replicate 7 (nil f);
    enabled = false;
  }

-- One motor's endpoints, and whether the trigger drives it (the grip otherwise).
pub record Endpoints (Real : Type 0) : Type 0 where
  pub on_trigger : Bool
  pub open_at : Real
  pub close_at : Real
  pub fist_at : Real

module _ (m : Machine) where
  open m use {f32, f64, narrow, widen}
  open f64 use {Real, ratio, add, sub, mul, div, lt}
  open f32 use {neg}

  abbrev hundredth_f32 : ℕ → f32.Real
  hundredth_f32 n = f32.ratio n 100

  abbrev finger : Bool → f32.Real → f32.Real → f32.Real → Endpoints f32.Real
  finger on_trigger a b c = record {
    on_trigger = on_trigger;
    open_at = a;
    close_at = b;
    fist_at = c;
  }

  unfoldable pub left_endpoints : List (Endpoints f32.Real)
  left_endpoints =
      finger false (hundredth_f32 0) (hundredth_f32 0) (hundredth_f32 0)
      ∷ finger false (neg (hundredth_f32 35)) (hundredth_f32 105) (hundredth_f32 105)
      ∷ finger false (hundredth_f32 0) (hundredth_f32 175) (hundredth_f32 175)
      ∷ finger true (hundredth_f32 0) (neg (hundredth_f32 100)) (neg (hundredth_f32 157))
      ∷ finger true (hundredth_f32 0) (neg (hundredth_f32 150)) (neg (hundredth_f32 175))
      ∷ finger false (hundredth_f32 0) (neg (hundredth_f32 100)) (neg (hundredth_f32 157))
      ∷ finger false (hundredth_f32 0) (neg (hundredth_f32 150)) (neg (hundredth_f32 175))
      ∷ []

  unfoldable pub right_endpoints : List (Endpoints f32.Real)
  right_endpoints =
      finger false (hundredth_f32 0) (hundredth_f32 0) (hundredth_f32 0)
      ∷ finger false (hundredth_f32 35) (neg (hundredth_f32 105)) (neg (hundredth_f32 105))
      ∷ finger false (hundredth_f32 0) (neg (hundredth_f32 175)) (neg (hundredth_f32 175))
      ∷ finger true (hundredth_f32 0) (hundredth_f32 100) (hundredth_f32 157)
      ∷ finger true (hundredth_f32 0) (hundredth_f32 150) (hundredth_f32 175)
      ∷ finger false (hundredth_f32 0) (hundredth_f32 100) (hundredth_f32 157)
      ∷ finger false (hundredth_f32 0) (hundredth_f32 150) (hundredth_f32 175)
      ∷ []

  -- `v < 0.0 ? 0.0 : (v > 1.0 ? 1.0 : v)`.
  abbrev pub clamp01 : Real → Real
  clamp01 v = fclamp f64 v (nil f64) (one f64)

  -- HoldSqueeze: the time held so far, and the squeeze fraction.
  unfoldable pub squeeze : Real → Real → Real → Real × Real
  squeeze held axis dt =
      if lt axis (ratio 95 100)
      then (nil f64, nil f64)
      else let held' = add held dt in
        (held', clamp01 (div (sub held' (ratio 20 100)) (ratio 30 100)))

  -- `open[i] + t * (close[i] - open[i]) + s * (fist[i] - close[i])`. The differences are floats.
  unfoldable pub finger_at : Real → Real → Real → Real → Endpoints f32.Real → f32.Real
  finger_at grip trigger squeeze_grip squeeze_trigger e =
      let t = if e.on_trigger then trigger else grip in
      let s = if e.on_trigger then squeeze_trigger else squeeze_grip in
      narrow (
        add (add (widen e.open_at) (mul t (widen (f32.sub e.close_at e.open_at))))
          (mul s (widen (f32.sub e.fist_at e.close_at))))

  unfoldable pub from_axes : Real → Real → Real → Real → Bool → HandCommand f32.Real
  unfolding finger_at
  from_axes grip trigger squeeze_grip squeeze_trigger is_left = record {
    q =
        map
          (λ e.
            finger_at (clamp01 grip) (clamp01 trigger) (clamp01 squeeze_grip)
              (clamp01 squeeze_trigger) e)
          (if is_left then left_endpoints else right_endpoints);
    kp = replicate 7 (hand_kp f32);
    kd = replicate 7 (hand_kd f32);
    enabled = true;
  }

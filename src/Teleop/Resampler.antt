-- ===== src/Teleop/Resampler.antt =====
-- SmplResampler (include/teleop/smpl_resampler.hpp). Times are nanoseconds of the steady clock.
pub mod Kept
pub mod Samples
mod Tests
use gearsonic_inference.Common.{
  ℕ, zero, suc, ◌+◌, ◌-◌, ◌%◌, Option, none, some, List, replicate, set, get_or, zip_with,
  if◌then◌else◌, ltb, leb, ◌==◌,
}
use gearsonic_inference.Common.Float.{Float, of_nat, nil, one, fclamp}
use gearsonic_inference.Common.Quaternion.{identity, quat_slerp}
use gearsonic_inference.Common.Rotation.{Vec3, map_vec_two}
use gearsonic_inference.Teleop.Pose.{SmplPose}
use gearsonic_inference.Teleop.Ring.{place}

pub record Params (Real : Type 0) : Type 0 where
  pub delay_factor : Real
  pub min_delay_s : Real
  pub max_delay_s : Real
  pub ema : Real
  pub seed_interval_s : Real

-- kRing.
abbrev pub ring_slots : ℕ
ring_slots = 8

pub record Resampler (Real : Type 0) : Type 0 where
  pub params : Params Real  -- p_
  pub poses : List (SmplPose Real)
  pub times : List ℕ
  pub head : ℕ
  pub count : ℕ
  pub interval_s : Real

module _ (f : Float) where
  open f use {Real, ratio, add, sub, mul, div, floor_nat}

  abbrev pub default_params : Params Real
  default_params = record {
    delay_factor = ratio 15 10;
    min_delay_s = ratio 20 1000;
    max_delay_s = ratio 100 1000;
    ema = ratio 1 10;
    seed_interval_s = div (of_nat f 1) (of_nat f 30);
  }

  unfoldable pub blank_pose : SmplPose Real
  blank_pose = record {
    joints_local = replicate 24 (record { x = nil f; y = nil f; z = nil f });
    anchor_quat = record { w = nil f; x = nil f; y = nil f; z = nil f };
    wrist_joint_pos = replicate 6 (nil f);
  }

  unfoldable pub new : Params Real → Resampler Real
  new p = record {
    params = p;
    poses = replicate ring_slots blank_pose;
    times = replicate ring_slots 0;
    head = 0;
    count = 0;
    interval_s = p.seed_interval_s;
  }

  unfoldable pub reset : Resampler Real → Resampler Real
  reset r = record r { count = 0; head = 0; interval_s = r.params.seed_interval_s }

  -- `std::chrono::duration<double>(t1 - t0).count()`, of t1 not before t0.
  abbrev seconds : ℕ → ℕ → Real
  seconds t1 t0 = div (of_nat f (t1 - t0)) (of_nat f 1_000_000_000)

  abbrev pub newest_t : Resampler Real → ℕ
  newest_t r = get_or r.times r.head 0

  -- The two writes at the head, and the count.
  abbrev store : Resampler Real → SmplPose Real → ℕ → Resampler Real
  store r pose t = record r {
    poses = set r.poses r.head pose;
    times = set r.times r.head t;
    count = if ltb r.count ring_slots then r.count + 1 else r.count;
  }

  -- A sample at or before the newest one's time is dropped: `dt <= 0.0` is the sign of the difference.
  unfoldable pub push : Resampler Real → SmplPose Real → ℕ → Resampler Real
  push r pose t =
      let dt = seconds t (newest_t r) in
      let interval =
        if r.count == 1
        then dt
        else add (mul (sub (one f) r.params.ema) r.interval_s) (mul r.params.ema dt) in
      if r.count == 0
      then store r pose t
      else if leb t (newest_t r)
      then r
      else store (record r { interval_s = interval; head = (r.head + 1) % ring_slots }) pose t

  unfoldable pub delay_s : Resampler Real → Real
  delay_s r =
      fclamp f (mul r.params.delay_factor r.interval_s) r.params.min_delay_s r.params.max_delay_s

  -- `duration_cast<clock::duration>(duration<double>(delay_s()))`, in whole nanoseconds.
  abbrev pub delay : Resampler Real → ℕ
  delay r = floor_nat (mul (delay_s r) (of_nat f 1_000_000_000))

  -- Of a target not before t0.
  unfoldable pub alpha_for : ℕ → ℕ → ℕ → Real
  alpha_for t0 t1 target =
      if leb t1 t0
      then one f
      else fclamp f (div (seconds target t0) (seconds t1 t0)) (nil f) (one f)

  unfoldable pub lerp : SmplPose Real → SmplPose Real → Real → SmplPose Real
  lerp a b alpha =
      let mix = λ (x y : Real). add x (mul alpha (sub y x)) in
      record {
        joints_local = zip_with (λ u v. map_vec_two f mix u v) a.joints_local b.joints_local;
        anchor_quat = quat_slerp f a.anchor_quat b.anchor_quat alpha;
        wrist_joint_pos = zip_with mix a.wrist_joint_pos b.wrist_joint_pos;
      }

  abbrev pub pose_in : Resampler Real → ℕ → SmplPose Real
  pose_in r i = get_or r.poses i blank_pose

  abbrev pub time_in : Resampler Real → ℕ → ℕ
  time_in r i = get_or r.times i 0

  -- The loop over k with `left` rounds left. `times[i] <= now - d` is tested as `times[i] + d <= now`,
  -- since the difference can be negative.
  unfoldable pub walk : Resampler Real → ℕ → ℕ → ℕ → ℕ → ℕ → SmplPose Real
  walk r now d zero k newer = pose_in r newer
  walk r now d (suc left) k newer =
      let older = (r.head + ring_slots - k) % ring_slots in
      let rest = walk r now d left (k + 1) older in
      if leb (time_in r older + d) now
      then lerp (pose_in r older) (pose_in r newer)
          (alpha_for (time_in r older) (time_in r newer) (now - d))
      else rest

  -- `none` before the first sample.
  unfoldable pub sample : Resampler Real → ℕ → Option (SmplPose Real)
  sample r now =
      let d = delay r in
      if r.count == 0
      then none
      else if leb (time_in r r.head + d) now
      then some (pose_in r r.head)
      else some (walk r now d (r.count - 1) 1 r.head)

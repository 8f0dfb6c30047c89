-- ===== src/Control/Playback.antt =====
-- Playback of the planner's motion: MotionSequence50Hz of include/planner/motion_sequence_50hz.hpp
-- and advance_playback of src/control/whole_body_controller.cpp. Frame indices and generation
-- frames are not negative, so `int` is ℕ; where a difference can be negative the code's own test or
-- clamp is written with the terms on the other side.
pub mod Timeline
pub mod Blend
mod Tests
use gearsonic_inference.Common.{
  ℕ, zero, suc, ◌+◌, ◌-◌, min, Bool, true, false, ◌&&◌, not, Option, none, some, List, [], ◌∷◌,
  replicate, zip_with, get_or, if◌then◌else◌, ltb, leb, ◌==◌,
}
use gearsonic_inference.Common.Float.{Float, of_nat, nil, one, fclamp}
use gearsonic_inference.Common.Quaternion.{Quat, quat_slerp, identity}

-- 30 s at 50 Hz.
abbrev pub sequence_capacity : ℕ
sequence_capacity = 1500

abbrev pub num_joints : ℕ
num_joints = 29

-- The width of the planner crossfade.
abbrev pub blend_frames : ℕ
blend_frames = 8

pub record Frame (Real : Type 0) : Type 0 where
  pub position : List Real  -- 3
  pub quaternion : Quat Real
  pub joints : List Real  -- 29
  pub joint_velocities : List Real  -- 29

pub record Motion (Real : Type 0) : Type 0 where
  pub frames : List (Frame Real)
  pub timesteps : ℕ
  pub gen_frame : ℕ

-- A motion as the planner's buffer has it, with its time stamp.
pub record Plan (Real : Type 0) : Type 0 where
  pub motion : Motion Real
  pub stamp : ℕ

-- `last_plan_stamp` is 0 for the default time point.
pub record Playback (Real : Type 0) : Type 0 where
  pub motion : Motion Real
  pub cursor : ℕ
  pub playing : Bool
  pub last_plan_stamp : ℕ

abbrev pub tabulate {ℓ} : {A : Type ℓ} → (ℕ → A) → ℕ → ℕ → List A
tabulate g zero i = []
tabulate g (suc k) i = g i ∷ tabulate g k (i + 1)

-- MotionSequence50Hz{}, and the playback that starts over.
abbrev pub no_motion : (R : Type 0) → Motion R
no_motion R = record { frames = []; timesteps = 0; gen_frame = 0 }

abbrev pub start_over : (R : Type 0) → Playback R
start_over R = record { motion = no_motion R; cursor = 0; playing = false; last_plan_stamp = 0 }

-- One frame further, the last one held.
unfoldable pub advance_cursor : (R : Type 0) → Playback R → Playback R
advance_cursor R p =
    if p.playing && ltb 0 p.motion.timesteps
    then record p { cursor = min (p.cursor + 1) (p.motion.timesteps - 1) }
    else p

-- `std::clamp(f + cursor, 0, timesteps - 1)`, and `std::clamp(f + cursor - gen_frame, 0, …)`, where
-- `-` stops at 0 as the clamp does.
unfoldable pub old_frame : ℕ → ℕ → ℕ → ℕ
old_frame f cursor timesteps = min (f + cursor) (timesteps - 1)

unfoldable pub new_frame : ℕ → ℕ → ℕ → ℕ → ℕ
new_frame f cursor gen_frame timesteps = min (f + cursor - gen_frame) (timesteps - 1)

module _ (f : Float) where
  open f use {Real, neg, add, sub, mul, div}

  abbrev pub blank : Frame Real
  blank = record {
    position = replicate 3 (nil f);
    quaternion = identity f;
    joints = replicate num_joints (nil f);
    joint_velocities = replicate num_joints (nil f);
  }

  -- `std::clamp(double(f - blend_start) / kBlendFrames, 0.0, 1.0)`.
  unfoldable pub blend_weight : ℕ → ℕ → Real
  blend_weight i blend_start =
      let d =
        if ltb i blend_start
        then neg (of_nat f (blend_start - i))
        else of_nat f (i - blend_start) in
      fclamp f (div d (of_nat f blend_frames)) (nil f) (one f)

  unfoldable pub mix : Real → List Real → List Real → List Real
  mix w_new a b = zip_with (λ x y. add (mul (sub (one f) w_new) x) (mul w_new y)) a b

  unfoldable pub mix_frame : Real → Frame Real → Frame Real → Frame Real
  unfolding mix
  mix_frame w_new a b = record {
    position = mix w_new a.position b.position;
    quaternion = quat_slerp f a.quaternion b.quaternion w_new;
    joints = mix w_new a.joints b.joints;
    joint_velocities = mix w_new a.joint_velocities b.joint_velocities;
  }

  -- Frame i of the blend of the old motion, from its cursor on, with the new one.
  unfoldable pub blended_frame : Playback Real → Motion Real → ℕ → Frame Real
  unfolding old_frame new_frame
  blended_frame p gen i =
      mix_frame (blend_weight i (gen.gen_frame - p.cursor))
        (get_or p.motion.frames (old_frame i p.cursor p.motion.timesteps) blank)
        (get_or gen.frames (new_frame i p.cursor gen.gen_frame gen.timesteps) blank)

  -- `new_len = gen_frame - cursor + timesteps`; a plan that ends before the cursor is dropped.
  unfoldable pub blend_motion : Playback Real → Motion Real → Playback Real
  blend_motion p gen =
      let new_len = min (gen.gen_frame + gen.timesteps - p.cursor) sequence_capacity in
      if ltb p.cursor (gen.gen_frame + gen.timesteps)
      then record p {
        motion = record {
          frames = tabulate (blended_frame p gen) new_len 0;
          timesteps = new_len;
          gen_frame = 0;
        };
        cursor = 0;
      }
      else p

  -- Adopts the first motion, blends a later one. The second value is the request to re-anchor the
  -- encoder's heading.
  unfoldable pub adopt : Playback Real → Plan Real → Playback Real × Bool
  adopt p plan =
      let q = record p { last_plan_stamp = plan.stamp } in
      if p.motion.timesteps == 0
      then (record q { motion = plan.motion; cursor = 0; playing = true }, true)
      else (blend_motion q plan.motion, false)

  unfoldable pub take_plan : Playback Real → Option (Plan Real) → Playback Real × Bool
  take_plan p none = (p, false)
  take_plan p (some plan) = if plan.stamp == p.last_plan_stamp then (p, false) else adopt p plan

  unfoldable pub advance_playback : Playback Real → Option (Plan Real) → Playback Real × Bool
  advance_playback p plan = let (q, heading) = take_plan p plan in (advance_cursor Real q, heading)

-- ===== src/Control/Playback/Timeline.antt =====
-- The playback's timeline: where its cursor and its frames lie.
use gearsonic_inference.Common.{
  ℕ, zero, suc, ◌+◌, ◌-◌, ◌≤◌, ◌<◌, min, true, ◌≡◌, refl, sym, subst, ap, inl, inr, Option, none,
  some, length, ◌==◌, arith, Bool-cases,
}
use gearsonic_inference.Common.Float.{Float}
use gearsonic_inference.Control.Playback.{
  Motion, Plan, Playback, tabulate, start_over, advance_cursor, blended_frame, blend_motion, adopt,
  take_plan, advance_playback, sequence_capacity,
}

pub length-tabulate {ℓ} : {A : Type ℓ} (g : ℕ → A) (k i : ℕ) → length (tabulate g k i) ≡ k
length-tabulate g zero i = refl
length-tabulate g (suc k) i = ap suc (length-tabulate g k (i + 1))

-- What the planner publishes (resample_30hz_to_50hz makes at least 2 frames).
pub record IsPlanned (R : Type 0) (m : Motion R) : Type 0 where
  pub frames_are : length m.frames ≡ m.timesteps
  pub some_frame : 0 < m.timesteps
  pub capped : m.timesteps ≤ sequence_capacity

-- The playback between two ticks: no motion, or a motion with the cursor on one of its frames.
pub record IsTimeline (R : Type 0) (p : Playback R) : Type 0 where
  pub frames_are : length p.motion.frames ≡ p.motion.timesteps
  pub capped : p.motion.timesteps ≤ sequence_capacity
  pub cursor_inside : 0 < p.motion.timesteps → p.cursor < p.motion.timesteps
  pub waits_at_start : p.motion.timesteps ≡ 0 → p.cursor ≡ 0

module _ (f : Float) where
  open f use {Real}

  abbrev pub Planned : Option (Plan Real) → Type 0
  Planned none = Unit {0}
  Planned (some plan) = IsPlanned Real plan.motion

  pub start_over-IsTimeline : IsTimeline Real (start_over Real)
  start_over-IsTimeline = record {
    frames_are = refl;
    capped = omega arith;
    cursor_inside = λ h. absurd (omega arith);
    waits_at_start = λ h. refl;
  }

  advance_cursor-IsTimeline :
      (p : Playback Real) → IsTimeline Real p → IsTimeline Real (advance_cursor Real p)
  unfolding advance_cursor
  advance_cursor-IsTimeline p t = ground arith

  blend_motion-IsTimeline :
      (p : Playback Real) (gen : Motion Real)
      → IsTimeline Real p
      → IsPlanned Real gen
      → IsTimeline Real (blend_motion f p gen)
  unfolding blend_motion
  blend_motion-IsTimeline p gen t g =
      let new_len = min (gen.gen_frame + gen.timesteps - p.cursor) sequence_capacity in
      ground (arith, length-tabulate (blended_frame f p gen) new_len 0)

  adopt-IsTimeline :
      (p : Playback Real) (plan : Plan Real)
      → IsTimeline Real p
      → IsPlanned Real plan.motion
      → IsTimeline Real (adopt f p plan).0
  unfolding adopt
  adopt-IsTimeline p plan t g =
      ground
        (arith, blend_motion-IsTimeline (record p { last_plan_stamp = plan.stamp }) plan.motion)

  take_plan-IsTimeline :
      (p : Playback Real) (plan : Option (Plan Real))
      → IsTimeline Real p
      → Planned plan
      → IsTimeline Real (take_plan f p plan).0
  unfolding take_plan
  take_plan-IsTimeline p none t g = t
  take_plan-IsTimeline p (some plan) t g = elim (Bool-cases (plan.stamp == p.last_plan_stamp)) [
    | inl seen ↦ rw seen t
    | inr fresh ↦ rw fresh (adopt-IsTimeline p plan t g)
  ]

  -- Every tick of the playback, with or without a new plan, keeps the motion's frames counted and
  -- at most 1500, and the cursor on a frame.
  pub advance_playback-IsTimeline :
      (p : Playback Real) (plan : Option (Plan Real))
      → IsTimeline Real p
      → Planned plan
      → IsTimeline Real (advance_playback f p plan).0
  unfolding advance_playback
  advance_playback-IsTimeline p plan t g =
      advance_cursor-IsTimeline (take_plan f p plan).0 (take_plan-IsTimeline p plan t g)

  -- The playback without new plans over n ticks.
  play : Playback Real → ℕ → Playback Real
  play p zero = p
  play p (suc n) = play (advance_playback f p none).0 n

  abbrev next : Playback Real → Playback Real
  next p = record p { cursor = min (p.cursor + 1) (p.motion.timesteps - 1) }

  play_step :
      (p : Playback Real)
      → p.playing ≡ true
      → 0 < p.motion.timesteps
      → (advance_playback f p none).0 ≡ next p
  unfolding advance_playback take_plan advance_cursor
  play_step p on some_motion = ground arith

  next-IsTimeline :
      (p : Playback Real) → IsTimeline Real p → 0 < p.motion.timesteps → IsTimeline Real (next p)
  next-IsTimeline p t some_motion = ground arith

  -- Without a new plan a playing motion moves on by one frame per tick and then holds its last
  -- frame; the motion itself does not change.
  plays_to_the_end :
      (p : Playback Real) (n : ℕ)
      → IsTimeline Real p
      → p.playing ≡ true
      → 0 < p.motion.timesteps
      → ((play p n).cursor ≡ min (p.cursor + n) (p.motion.timesteps - 1))
        × ((play p n).motion ≡ p.motion)
  unfolding play
  plays_to_the_end p zero t on some_motion = (omega (arith, t.cursor_inside), refl)
  plays_to_the_end p (suc n) t on some_motion =
      let (cursor, motion) =
        plays_to_the_end (next p) n (next-IsTimeline p t some_motion) on some_motion in
      subst
        (λ q.
          ((play q n).cursor ≡ min (p.cursor + suc n) (p.motion.timesteps - 1))
          × ((play q n).motion ≡ p.motion))
        (sym (play_step p on some_motion)) (omega (arith, cursor), motion)

-- ===== src/Control/Playback/Tests.antt =====
-- The playback at concrete inputs.
use gearsonic_inference.Common.{◌+◌, ◌-◌, min, true, ◌≡◌, refl, some, get_elem?, replicate, arith}
use gearsonic_inference.Common.Float.{milli}
use gearsonic_inference.Control.Playback.{
  Frame, Motion, Playback, blank, blend_motion, advance_playback,
}
use gearsonic_inference.Control.Playback.Timeline.{
  IsPlanned, IsTimeline, advance_playback-IsTimeline,
}
use gearsonic_inference.Control.Playback.Blend.{HeldAt, share, Mixes, blend_on_timeline}

-- Three frames, generated for frame 4 of the playback.
abbrev planned : Motion milli.Real
planned = record { frames = replicate 3 (blank milli); timesteps = 3; gen_frame = 4 }

-- Five frames, at the third of them.
abbrev playing : Playback milli.Real
playing = record {
  motion = record { frames = replicate 5 (blank milli); timesteps = 5; gen_frame = 0 };
  cursor = 2;
  playing = true;
  last_plan_stamp = 1;
}

planned-IsPlanned : IsPlanned milli.Real planned
planned-IsPlanned = record { frames_are = refl; some_frame = omega arith; capped = omega arith }

playing-IsTimeline : IsTimeline milli.Real playing
playing-IsTimeline = record {
  frames_are = refl;
  capped = omega arith;
  cursor_inside = λ _. omega arith;
  waits_at_start = λ e. absurd (omega arith);
}

advance_playback-IsTimeline_example :
    IsTimeline milli.Real
      (advance_playback milli playing (some (record { motion = planned; stamp = 2 }))).0
advance_playback-IsTimeline_example =
    advance_playback-IsTimeline milli playing (some (record { motion = planned; stamp = 2 }))
      playing-IsTimeline planned-IsPlanned

blend_on_timeline_example :
    ((blend_motion milli playing planned).motion.timesteps ≡ min (4 + 3 - 2) 1500)
    × ((blend_motion milli playing planned).cursor ≡ 0)
    × (old : Frame milli.Real) × (new : Frame milli.Real) × (x : Frame milli.Real) × HeldAt
        playing.motion.frames
        (2 + 3)
        old
    × HeldAt planned.frames (2 + 3 - 4) new
    × (get_elem? (blend_motion milli playing planned).motion.frames 3 ≡ some x)
    × Mixes milli (share milli 2 4 3) old new x
blend_on_timeline_example =
    blend_on_timeline milli playing planned 3 playing-IsTimeline (omega arith) planned-IsPlanned
      (omega arith) (omega arith)

-- ===== src/Hands/Writer.antt =====
-- HandCommandWriter::loop (src/unitree/hand_command_writer.cpp): one turn of the 100 Hz loop.
pub mod Targets
pub mod InLimits
use gearsonic_inference.Common.{
  ℕ, ◌-◌, Bool, true, false, ◌&&◌, ◌||◌, not, Option, none, some, List, if◌then◌else◌, ltb,
}
use gearsonic_inference.Common.Float.{Machine, nil, one}
use gearsonic_inference.Pico.{Controller}
use gearsonic_inference.Control.Arbiter.{Mode, normal, teleop, vla, recovering}
use gearsonic_inference.Hands.Command.{
  HandCommand, from_axes, from_vla_joints, stop_command, squeeze, limits,
}
use gearsonic_inference.Hands.Guard.{Params, Measured, Finger, apply}

-- The squeezes' held times, the two guards, and the locals of the loop.
pub record Writer (m : Machine) : Type 0 where
  pub left_grip_held : m.f64.Real
  pub left_trigger_held : m.f64.Real
  pub right_grip_held : m.f64.Real
  pub right_trigger_held : m.f64.Real
  pub left_guard : List (Finger m.f32.Real)
  pub right_guard : List (Finger m.f32.Real)
  pub was_calibrated : Bool
  pub calibrated_at : ℕ  -- ms

-- What a turn reads of the other modules. A hand's state comes with its age in ms.
pub record Readings (m : Machine) : Type 0 where
  pub now : ℕ  -- ms
  pub calibrated : Bool
  pub estop : Bool
  pub mode : Mode
  pub vla : Option (List m.f32.Real × List m.f32.Real)  -- left_hand, right_hand
  pub controller : Option (Controller m.f64.Real)
  pub left_state : Option (List (Measured m.f32.Real) × m.f64.Real)
  pub right_state : Option (List (Measured m.f32.Real) × m.f64.Real)

module _ (m : Machine) where
  open m use {f32, f64, narrow}

  abbrev pub Pair : Type 0
  Pair = HandCommand f32.Real × HandCommand f32.Real

  -- kPublishPeriod, in seconds.
  abbrev pub period : f64.Real
  period = f64.ratio 10 1000

  abbrev pub release_squeezes : Writer m → Writer m
  release_squeezes w = record w {
    left_grip_held = nil f64;
    left_trigger_held = nil f64;
    right_grip_held = nil f64;
    right_trigger_held = nil f64;
  }

  abbrev both_hands : f64.Real → f64.Real → Pair
  both_hands axis sq = (from_axes m axis axis sq sq true, from_axes m axis axis sq sq false)

  abbrev pub vla_holds : Mode → Bool
  vla_holds normal = false
  vla_holds teleop = false
  vla_holds vla = true
  vla_holds recovering = true

  -- The branch of the controllers' axes.
  unfoldable pub track_axes : Writer m → Controller f64.Real → Writer m × Pair
  track_axes w c =
      let lg = squeeze m w.left_grip_held c.left_grip period in
      let lt = squeeze m w.left_trigger_held c.left_trigger period in
      let rg = squeeze m w.right_grip_held c.right_grip period in
      let rt = squeeze m w.right_trigger_held c.right_trigger period in
      (
        record w {
          left_grip_held = lg.0;
          left_trigger_held = lt.0;
          right_grip_held = rg.0;
          right_trigger_held = rt.0;
        },
        (
          from_axes m c.left_grip c.left_trigger lg.1 lt.1 true,
          from_axes m c.right_grip c.right_trigger rg.1 rt.1 false,
        ),
      )

  -- The last two branches: the axes, or the open hand.
  abbrev pub operate : Writer m → Option (Controller f64.Real) → Writer m × Pair
  operate w none = (release_squeezes w, both_hands (nil f64) (nil f64))
  operate w (some c) = track_axes w c

  abbrev pub unless_vla : Writer m → Bool → Readings m → Writer m × Pair
  unless_vla w hold_fist r =
      if hold_fist
      then (release_squeezes w, both_hands (one f64) (one f64))
      else operate w r.controller

  -- The branches after the emergency stop's.
  abbrev pub unless_stop :
      Writer m → Bool → Readings m → Bool → Option (List f32.Real × List f32.Real) → Writer m × Pair
  unless_stop w hold_fist r false q = unless_vla w hold_fist r
  unless_stop w hold_fist r true none = unless_vla w hold_fist r
  unless_stop w hold_fist r true (some q) =
      (release_squeezes w, (from_vla_joints f32 q.0 true, from_vla_joints f32 q.1 false))

  -- The commands before the guards.
  unfoldable pub choose : Writer m → Bool → Readings m → Writer m × Pair
  unfolding track_axes
  choose w hold_fist r =
      if r.estop
      then (release_squeezes w, (stop_command f32, stop_command f32))
      else unless_stop w hold_fist r (vla_holds r.mode) r.vla

  -- The edge of the calibration, and hold_fist.
  unfoldable pub note_calibration : Writer m → Readings m → Writer m × Bool
  note_calibration w r =
      let at = if r.calibrated && not w.was_calibrated then r.now else w.calibrated_at in
      (
        record w { was_calibrated = r.calibrated; calibrated_at = at },
        not r.calibrated || ltb (r.now - at) 500,
      )

  abbrev pub fresh :
      f64.Real → Option (List (Measured f32.Real) × f64.Real) → Option (List (Measured f32.Real))
  fresh stale none = none
  fresh stale (some (meas, age)) = if f64.lt age stale then some meas else none

  -- The feedback stage. Both sides use the left guard's state_stale_ms.
  unfoldable pub guard_hands :
      Params f32.Real → f64.Real → Readings m → Writer m × Pair → Writer m × Pair
  guard_hands p stale r (w, (left, right)) =
      let dt = narrow period in
      let l = apply f32 p (limits f32 true) w.left_guard left (fresh stale r.left_state) dt in
      let g = apply f32 p (limits f32 false) w.right_guard right (fresh stale r.right_state) dt in
      if left.enabled || right.enabled
      then (record w { left_guard = l.0; right_guard = g.0 }, (l.1, g.1))
      else (w, (left, right))

  -- A turn: the next state and the two commands published.
  unfoldable pub turn : Params f32.Real → f64.Real → Writer m → Readings m → Writer m × Pair
  unfolding choose note_calibration guard_hands
  turn p stale w r =
      let noted = note_calibration w r in guard_hands p stale r (choose noted.0 noted.1 r)

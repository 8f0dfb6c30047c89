-- ===== src/Motion/InputHandler/Movement.antt =====
-- What InputHandler publishes for the planner.
use gearsonic_inference.Common.{
  true, false, ◌≡◌, refl, ◌≢◌, ◌⊎◌, inl, inr, Option, none, some, arith, Bool-cases,
}
use gearsonic_inference.Common.Float.{Float}
use gearsonic_inference.Pico.{Controller}
use gearsonic_inference.Control.Arbiter.{Mode, normal, is_mode}
use gearsonic_inference.Motion.Handler.{Handler, NavCommand, dead_zone, idle_mode}
use gearsonic_inference.Motion.Locomotion.{movement_step, neutral_step, nav_movement, nav_drives}
use gearsonic_inference.Motion.InputHandler.{tick, linked, unlinked}

module _ (f : Float) where
  open f use {Real, lt, le, ratio, hypot}

  nav_off :
      (mode : Mode) (nav : Option (NavCommand Real × Real))
      → mode ≢ normal
      → nav_drives f mode nav ≡ none
  unfolding nav_drives
  nav_off mode none ne = refl
  nav_off mode (some (v, age_ms)) ne = let e : is_mode mode normal ≡ false = ground arith in rw e

  movement_ignores :
      (h : Handler Real) (c : Controller Real) (mode : Mode) (nav : Option (NavCommand Real × Real))
      → mode ≢ normal
      → movement_step f h c mode nav ≡ movement_step f h c mode none
  unfolding movement_step
  movement_ignores h c mode nav ne = rw (nav_off mode nav ne)

  -- Outside the origin mode of the arbiter, and with the VR link lost, a tick does not depend on
  -- the navigation command: nothing of the handler, the taps or the movement.
  nav_ignored :
      (h : Handler Real) (c : Option (Controller Real)) (mode : Mode)
      (nav : Option (NavCommand Real × Real))
      → (mode ≢ normal) ⊎ (c ≡ none)
      → tick f h c mode nav ≡ tick f h c mode none
  unfolding tick linked
  nav_ignored h none mode nav off = refl
  nav_ignored h (some c) mode nav (inl ne) = simp (movement_ignores _ c mode nav ne)
  nav_ignored h (some c) mode nav (inr e) = absurd (cc)

  -- The stick is outside its dead zone.
  abbrev pub IsDeflected : Controller Real → Type 0
  IsDeflected c = lt (hypot c.left_x c.left_y) (dead_zone f) ≡ false

  -- In the origin mode a navigation command younger than 300 ms asks for at least 0.05 m/s.
  abbrev pub IsNavigated : Mode → Option (NavCommand Real × Real) → Type 0
  IsNavigated mode nav =
      (v : NavCommand Real) × (age_ms : Real) × (nav ≡ some (v, age_ms))
      × (mode ≡ normal)
      × (lt age_ms (ratio 300 1) ≡ true)
      × (le (ratio 5 100) (hypot v.vx v.vy) ≡ true)

  nav_taken :
      (mode : Mode) (nav : Option (NavCommand Real × Real)) (v : NavCommand Real)
      → nav_drives f mode nav ≡ some v
      → (age_ms : Real) × (nav ≡ some (v, age_ms))
        × (mode ≡ normal)
        × (lt age_ms (ratio 300 1) ≡ true)
  unfolding nav_drives
  nav_taken mode none v e = absurd (cc)
  nav_taken mode (some (w, age_ms)) v e = (age_ms, ground arith, ground arith, ground arith)

  neutral_stands :
      (h : Handler Real) (mode : Mode) (nav : Option (NavCommand Real × Real))
      (taken : Option (NavCommand Real))
      → nav_drives f mode nav ≡ taken
      → (neutral_step f h taken).1.locomotion_mode ≢ idle_mode
      → IsNavigated mode nav
  unfolding neutral_step nav_movement
  neutral_stands h mode nav none e moves = absurd (moves refl)
  neutral_stands h mode nav (some v) e moves =
      let (age_ms, is, origin, fresh) = nav_taken mode nav v e in
      (v, age_ms, is, origin, fresh, ground arith)

  movement_moves :
      (h : Handler Real) (c : Controller Real) (mode : Mode) (nav : Option (NavCommand Real × Real))
      → (movement_step f h c mode nav).1.locomotion_mode ≢ idle_mode
      → IsDeflected c ⊎ IsNavigated mode nav
  unfolding movement_step
  movement_moves h c mode nav moves =
      elim (Bool-cases (lt (hypot c.left_x c.left_y) (dead_zone f))) [
        | inl neutral ↦
            inr (neutral_stands h mode nav (nav_drives f mode nav) refl (rw neutral at moves))
        | inr deflected ↦ inl deflected
      ]

  -- The robot is told to move only by the operator's stick or by a fresh navigation command: if the
  -- published mode is not IDLE, the VR link is up, and the stick is deflected or, in the origin
  -- mode, navigation asks for a speed.
  pub walking_needs_command :
      (h : Handler Real) (c : Option (Controller Real)) (mode : Mode)
      (nav : Option (NavCommand Real × Real))
      → (tick f h c mode nav).movement.locomotion_mode ≢ idle_mode
      → (k : Controller Real) × (c ≡ some k) × (IsDeflected k ⊎ IsNavigated mode nav)
  unfolding tick unlinked linked
  walking_needs_command h none mode nav moves = absurd (moves refl)
  walking_needs_command h (some c) mode nav moves = (c, refl, movement_moves _ c mode nav moves)

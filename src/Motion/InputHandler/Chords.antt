-- ===== src/Motion/InputHandler/Chords.antt =====
-- Two face buttons at once, in InputHandler: no single-button action fires.
use gearsonic_inference.Common.{
  ◌≤◌, Bool, true, false, ◌≡◌, refl, ◌∙◌, Option, none, some, [], arith, ◌||◌, ◌&&◌, not, le→leb,
}
use gearsonic_inference.Common.Float.{Float}
use gearsonic_inference.Pico.{Controller}
use gearsonic_inference.Control.Arbiter.{Mode}
use gearsonic_inference.Motion.TapDetector.{TapDetector}
use gearsonic_inference.Motion.TapDetector
use gearsonic_inference.Motion.Handler.{
  Handler, NavCommand, button_step, tap_step, estop_step, n_face, combo, a_step, y_step,
  y_hold_step, x_step, loop_dt, trigger_held,
}
use gearsonic_inference.Motion.Locomotion.{height_step, facing_step}
use gearsonic_inference.Motion.InputHandler.{tick, linked}
use gearsonic_inference.Motion.InputHandler.Buttons.{movement_step-keeps, estop_step-keeps}

module _ (f : Float) where
  open f use {Real}

  combo_voids :
      (c : Controller Real)
      → combo Real c ≡ true
      → ((c.btn_b || c.btn_x || c.btn_y) ≡ true) × ((c.btn_a || c.btn_x || c.btn_y) ≡ true)
  unfolding combo
  combo_voids c e = ground arith

  voided_silent :
      (d : TapDetector Real) (pressed : Bool) (dt : Real)
      → (TapDetector.update f d pressed true dt).1 ≡ none
  unfolding TapDetector.update
  voided_silent d pressed dt = refl

  tap_step_silent :
      (h : Handler Real) (c : Controller Real) → combo Real c ≡ true → (tap_step f h c).1 ≡ []
  unfolding tap_step
  tap_step_silent h c e =
      let (other_a, other_b) = combo_voids c e in
      rw (other_a, other_b)
        (rw (voided_silent h.a_tap c.btn_a (loop_dt f), voided_silent h.b_tap c.btn_b (loop_dt f)))

  -- A step whose button is not down alone keeps the mode.
  a_idle :
      (h : Handler Real) (alone : Bool)
      → alone ≡ false
      → (a_step Real h alone).mode_index ≡ h.mode_index
  unfolding a_step
  a_idle h alone e = rw e

  y_idle :
      (h : Handler Real) (alone : Bool)
      → alone ≡ false
      → (y_step Real h alone).mode_index ≡ h.mode_index
  unfolding y_step
  y_idle h alone e = rw e

  y_hold_idle :
      (h : Handler Real) (alone : Bool)
      → alone ≡ false
      → (y_hold_step Real h alone).mode_index ≡ h.mode_index
  unfolding y_hold_step
  y_hold_idle h alone e = rw e

  x_idle :
      (h : Handler Real) (alone : Bool)
      → alone ≡ false
      → (x_step Real h alone).mode_index ≡ h.mode_index
  unfolding x_step
  x_idle h alone e = rw e

  gated :
      (button other : Bool) (c : Controller Real)
      → combo Real c ≡ true
      → ((button && not (combo Real c)) ≡ false) × ((button && not (combo Real c) && other) ≡ false)
  gated button other c e = ground arith

  tap_step-mode :
      (h : Handler Real) (c : Controller Real) → (tap_step f h c).0.mode_index ≡ h.mode_index
  unfolding tap_step
  tap_step-mode h c = refl

  buttons_idle :
      (h : Handler Real) (c : Controller Real)
      → combo Real c ≡ true
      → ((button_step f h c).0.mode_index ≡ h.mode_index) × ((button_step f h c).1 ≡ [])
  unfolding button_step
  buttons_idle h c e =
      let alone = not (combo Real c) in
      let free = not (trigger_held f c) in
      let h1 = a_step Real h (c.btn_a && alone && free) in
      let h2 = (tap_step f h1 c).0 in
      let h3 = y_step Real h2 (c.btn_y && alone) in
      let h4 = y_hold_step Real h3 (c.btn_y && alone) in
      let no_y = (gated c.btn_y true c e).0 in
      (
        x_idle h4 (c.btn_x && alone) (gated c.btn_x true c e).0
            ∙ y_hold_idle h3 (c.btn_y && alone) no_y
            ∙ y_idle h2 (c.btn_y && alone) no_y
            ∙ tap_step-mode h1 c
            ∙ a_idle h (c.btn_a && alone && free) (gated c.btn_a free c e).1,
        tap_step_silent h1 c e,
      )

  linked-mode :
      (h : Handler Real) (c : Controller Real) (mode : Mode) (nav : Option (NavCommand Real × Real))
      → ((linked f h c mode nav).handler.mode_index
          ≡ (button_step f (estop_step Real h c) c).0.mode_index)
        × ((linked f h c mode nav).taps ≡ (button_step f (estop_step Real h c) c).1)
  unfolding linked height_step facing_step
  linked-mode h c mode nav = ((movement_step-keeps f _ c mode nav).0, refl)

  -- On a tick with two or more face buttons down, the selected mode stays and no tap is handed
  -- on, whatever holds and taps were under way.
  chord_fires_nothing :
      (h : Handler Real) (c : Controller Real) (mode : Mode) (nav : Option (NavCommand Real × Real))
      → 2 ≤ n_face Real c
      → ((tick f h (some c) mode nav).handler.mode_index ≡ h.mode_index)
        × ((tick f h (some c) mode nav).taps ≡ [])
  unfolding tick
  chord_fires_nothing h c mode nav two =
      let e : combo Real c ≡ true = unfold combo in le→leb 2 (n_face Real c) two in
      let (same, none_taken) = buttons_idle (estop_step Real h c) c e in
      let (index, taps) = linked-mode h c mode nav in
      (index ∙ same ∙ (estop_step-keeps f h c).0, taps ∙ none_taken)

-- ===== src/Motion/InputHandler/Estop.antt =====
-- The emergency stop of InputHandler.
use gearsonic_inference.Common.{
  ℕ, ◌+◌, ◌≤◌, ◌<◌, true, false, ◌≡◌, inl, inr, Option, none, some, List, [], ◌∷◌, length,
  Bool-cases, All, arith, ◌==◌, of_bool, ◌||◌, leb,
}
use gearsonic_inference.Common.Float.{Float}
use gearsonic_inference.Pico.{Controller}
use gearsonic_inference.Control.Arbiter.{Mode}
use gearsonic_inference.Motion.Handler.{
  Handler, NavCommand, button_step, tap_step, estop_step, n_face, disarm,
}
use gearsonic_inference.Motion.Locomotion.{movement_step, height_step, facing_step}
use gearsonic_inference.Motion.InputHandler.{tick, linked, unlinked}

-- What the loop reads in one tick.
pub record Reading (Real : Type 0) : Type 0 where
  pub controller : Option (Controller Real)
  pub mode : Mode
  pub nav : Option (NavCommand Real × Real)

-- A tick of the loop, or a `disarm` of the control loop between two ticks.
pub data Event (Real : Type 0) : Type 0 where
  loops : Reading Real → Event Real
  disarms : Event Real

module _ (f : Float) where
  open f use {Real}

  unfoldable pub after : Handler Real → Event Real → Handler Real
  after h (loops r) = (tick f h r.controller r.mode r.nav).handler
  after h disarms = disarm Real h

  unfoldable pub run : Handler Real → List (Event Real) → Handler Real
  run h [] = h
  run h (e ∷ es) = run (after h e) es

  movement_step-keeps :
      (h : Handler Real) (c : Controller Real) (mode : Mode) (nav : Option (NavCommand Real × Real))
      → ((movement_step f h c mode nav).0.estop ≡ h.estop)
        × ((movement_step f h c mode nav).0.hold_ticks ≡ h.hold_ticks)
  unfolding movement_step
  movement_step-keeps h c mode nav = ground arith

  linked-estop :
      (h : Handler Real) (c : Controller Real) (mode : Mode) (nav : Option (NavCommand Real × Real))
      → ((linked f h c mode nav).handler.estop ≡ (estop_step Real h c).estop)
        × ((linked f h c mode nav).handler.hold_ticks ≡ (estop_step Real h c).hold_ticks)
  unfolding linked button_step tap_step height_step facing_step
  linked-estop h c mode nav = movement_step-keeps _ c mode nav

  abbrev IsFour : Controller Real → Type 0
  IsFour c = n_face Real c ≡ 4

  -- How many ticks of a run see all four face buttons.
  abbrev pub four_tick : Event Real → ℕ
  four_tick disarms = 0
  four_tick (loops r) = elim r.controller [ none ↦ 0 | some c ↦ of_bool (n_face Real c == 4) ]

  abbrev pub four_ticks : List (Event Real) → ℕ
  four_ticks [] = 0
  four_ticks (e ∷ es) = four_tick e + four_ticks es

  -- The latch and the counter over one event.
  abbrev Latches : Handler Real → Event Real → Type 0
  Latches h e =
      (h.estop ≡ true → (after h e).estop ≡ true)
      × ((after h e).hold_ticks ≤ h.hold_ticks + four_tick e)
      × (h.estop ≡ false → h.hold_ticks + four_tick e < 500 → (after h e).estop ≡ false)

  tick-Latches :
      (h : Handler Real) (c : Option (Controller Real)) (mode : Mode)
      (nav : Option (NavCommand Real × Real))
      → Latches h (loops (record { controller = c; mode = mode; nav = nav }))
  unfolding after tick estop_step unlinked
  tick-Latches h none mode nav = ground arith
  tick-Latches h (some c) mode nav = ground (arith, linked-estop h c mode nav)

  after-Latches : (h : Handler Real) (e : Event Real) → Latches h e
  unfolding after disarm
  after-Latches h disarms = ground arith
  after-Latches h (loops r) = tick-Latches h r.controller r.mode r.nav

  -- Once set, the stop stays set, whatever is read.
  pub estop_latched :
      (h : Handler Real) (es : List (Event Real)) → h.estop ≡ true → (run h es).estop ≡ true
  unfolding run
  estop_latched h [] e = e
  estop_latched h (x ∷ es) e = estop_latched (after h x) es ((after-Latches h x).0 e)

  -- The stop needs 500 ticks with all four face buttons: a run with fewer, the count at its start
  -- included, does not set it.
  pub estop_needs_500 :
      (h : Handler Real) (es : List (Event Real))
      → h.estop ≡ false
      → h.hold_ticks + four_ticks es < 500
      → (run h es).estop ≡ false
  unfolding run
  estop_needs_500 h [] e few = e
  estop_needs_500 h (x ∷ es) e few =
      let (latch, count, clear) = after-Latches h x in
      estop_needs_500 (after h x) es (clear e (omega arith)) (omega arith)

  abbrev AllFour : Event Real → Type 0
  AllFour disarms = ⊥
  AllFour (loops r) = elim r.controller [ none ↦ ⊥ | some c ↦ n_face Real c ≡ 4 ]

  four_counts :
      (h : Handler Real) (c : Option (Controller Real)) (mode : Mode)
      (nav : Option (NavCommand Real × Real))
      → AllFour (loops (record { controller = c; mode = mode; nav = nav }))
      → let h' = after h (loops (record { controller = c; mode = mode; nav = nav })) in
        (h'.hold_ticks ≡ h.hold_ticks + 1) × (h'.estop ≡ (h.estop || leb 500 (h.hold_ticks + 1)))
  unfolding after tick estop_step
  four_counts h none mode nav all = absurd all
  four_counts h (some c) mode nav all = ground (arith, linked-estop h c mode nav)

  -- From a count below 500, consecutive ticks with all four face buttons set it, if they and the
  -- count at their start make 500 or more.
  pub estop_after_500 :
      (h : Handler Real) (es : List (Event Real))
      → All AllFour es
      → 500 ≤ h.hold_ticks + length es
      → h.hold_ticks < 500
      → (run h es).estop ≡ true
  unfolding run
  estop_after_500 h [] all long short = absurd (omega arith)
  estop_after_500 h (disarms ∷ es) all long short = absurd all.0
  estop_after_500 h (loops r ∷ es) all long short =
      let (count, sets) = four_counts h r.controller r.mode r.nav all.0 in
      elim (Bool-cases (leb 500 (h.hold_ticks + 1))) [
        | inl now ↦ estop_latched (after h (loops r)) es (ground arith)
        | inr later ↦ estop_after_500 (after h (loops r)) es all.1 (omega arith) (ground arith)
      ]

-- ===== src/Motion/InputHandler/Buttons.antt =====
-- The locomotion mode that the buttons select, and the taps, in InputHandler.
use gearsonic_inference.Common.{
  ℕ, ◌+◌, ◌*◌, ◌≤◌, Bool, ◌≡◌, refl, ◌⊎◌, inl, inr, Option, none, some, List, [], ◌∷◌, arith,
  of_bool, if◌then◌else◌, ◌&&◌, not,
}
use gearsonic_inference.Common.Float.{Float}
use gearsonic_inference.Pico.{Controller}
use gearsonic_inference.Control.Arbiter.{Mode}
use gearsonic_inference.Motion.HoldTrigger.{HoldTrigger}
use gearsonic_inference.Motion.Handler.{
  Handler, NavCommand, button_step, tap_step, estop_step, combo, disarm, a_step, y_step,
  y_hold_step, x_step, full_mode_max, trigger_held, init,
}
use gearsonic_inference.Motion.Locomotion.{movement_step, height_step, facing_step}
use gearsonic_inference.Motion.InputHandler.{tick, linked, unlinked}
use gearsonic_inference.Motion.InputHandler.Estop.{Event, loops, disarms, after, run}

module _ (f : Float) where
  open f use {Real}

  pub movement_step-keeps :
      (h : Handler Real) (c : Controller Real) (mode : Mode) (nav : Option (NavCommand Real × Real))
      → ((movement_step f h c mode nav).0.mode_index ≡ h.mode_index)
        × ((movement_step f h c mode nav).0.y_hold ≡ h.y_hold)
  unfolding movement_step
  movement_step-keeps h c mode nav = ground arith

  -- The mode and the Y hold after a tick are those after the buttons.
  linked-buttons :
      (h : Handler Real) (c : Controller Real) (mode : Mode) (nav : Option (NavCommand Real × Real))
      → ((linked f h c mode nav).handler.mode_index
          ≡ (button_step f (estop_step Real h c) c).0.mode_index)
        × ((linked f h c mode nav).handler.y_hold
            ≡ (button_step f (estop_step Real h c) c).0.y_hold)
  unfolding linked height_step facing_step
  linked-buttons h c mode nav = movement_step-keeps _ c mode nav

  -- Y is down, and no other face button.
  abbrev pub y_alone : Controller Real → Bool
  y_alone c = c.btn_y && not (combo Real c)

  pub estop_step-keeps :
      (h : Handler Real) (c : Controller Real)
      → ((estop_step Real h c).mode_index ≡ h.mode_index)
        × ((estop_step Real h c).y_hold ≡ h.y_hold)
  unfolding estop_step
  estop_step-keeps h c = ground arith

  a_bound :
      (h : Handler Real) (alone : Bool)
      → ((a_step Real h alone).mode_index ≤ h.mode_index)
        × ((a_step Real h alone).y_hold ≡ h.y_hold)
  unfolding a_step
  a_bound h alone = ground arith

  y_bound :
      (h : Handler Real) (alone : Bool)
      → (((y_step Real h alone).mode_index ≤ h.mode_index) ⊎ ((y_step Real h alone).mode_index ≤ 2))
        × ((y_step Real h alone).y_hold ≡ h.y_hold)
  unfolding y_step
  y_bound h alone = ground arith

  x_bound :
      (h : Handler Real) (alone : Bool)
      → ((x_step Real h alone).mode_index ≤ h.mode_index)
        × ((x_step Real h alone).y_hold ≡ h.y_hold)
  unfolding x_step
  x_bound h alone = ground arith

  -- The count that a hold of Y has reached, 0 where it has fired.
  abbrev pub wound_up : HoldTrigger → ℕ
  wound_up t = if t.fired then 0 else t.ticks

  hold_bound :
      (h : Handler Real) (alone : Bool) (n : ℕ)
      → h.mode_index ≤ 19
      → wound_up h.y_hold ≤ n
      → 500 * h.mode_index + wound_up h.y_hold ≤ 1000 + n
      → let g = y_hold_step Real h alone in
        (g.mode_index ≤ 19)
        × (wound_up g.y_hold ≤ n + of_bool alone)
        × (500 * g.mode_index + wound_up g.y_hold ≤ 1000 + (n + of_bool alone))
  unfolding y_hold_step
  hold_bound h alone n top few cost = ground arith

  -- The cost of the steps beyond WALK, in ticks with Y alone.
  pub record IsPaid (h : Handler Real) (n : ℕ) : Type 0 where
    pub top : h.mode_index ≤ full_mode_max
    pub few : wound_up h.y_hold ≤ n
    pub cost : 500 * h.mode_index + wound_up h.y_hold ≤ 1000 + n

  lower-IsPaid :
      (h g : Handler Real) (n : ℕ)
      → IsPaid h n
      → (g.mode_index ≤ h.mode_index) ⊎ (g.mode_index ≤ 2)
      → g.y_hold ≡ h.y_hold
      → IsPaid g n
  lower-IsPaid h g n paid (inl low) e = record {
    top = omega (arith, paid.top);
    few = rw e paid.few;
    cost = rw e (omega (arith, paid.cost));
  }
  lower-IsPaid h g n paid (inr low) e = record {
    top = omega arith;
    few = rw e paid.few;
    cost = rw e (omega (arith, paid.few));
  }

  hold-IsPaid :
      (h : Handler Real) (alone : Bool) (n : ℕ)
      → IsPaid h n
      → IsPaid (y_hold_step Real h alone) (n + of_bool alone)
  hold-IsPaid h alone n paid =
      let (top, few, cost) = hold_bound h alone n paid.top paid.few paid.cost in
      record { top = top; few = few; cost = cost }

  tap_step-keeps :
      (h : Handler Real) (c : Controller Real)
      → ((tap_step f h c).0.mode_index ≡ h.mode_index) × ((tap_step f h c).0.y_hold ≡ h.y_hold)
  unfolding tap_step
  tap_step-keeps h c = (refl, refl)

  button_step-IsPaid :
      (h : Handler Real) (c : Controller Real) (n : ℕ)
      → IsPaid h n
      → IsPaid (button_step f h c).0 (n + of_bool (y_alone c))
  unfolding button_step
  button_step-IsPaid h c n paid =
      let alone = not (combo Real c) in
      let h1 = a_step Real h (c.btn_a && alone && not (trigger_held f c)) in
      let h2 = (tap_step f h1 c).0 in
      let h3 = y_step Real h2 (c.btn_y && alone) in
      let h4 = y_hold_step Real h3 (c.btn_y && alone) in
      let (a_low, a_same) = a_bound h (c.btn_a && alone && not (trigger_held f c)) in
      let (t_low, t_same) = tap_step-keeps h1 c in
      let (y_low, y_same) = y_bound h2 (c.btn_y && alone) in
      let (x_low, x_same) = x_bound h4 (c.btn_x && alone) in
      let paid1 = lower-IsPaid h h1 n paid (inl a_low) a_same in
      let paid2 = lower-IsPaid h1 h2 n paid1 (inl (omega (arith, t_low))) t_same in
      let paid3 = lower-IsPaid h2 h3 n paid2 y_low y_same in
      lower-IsPaid h4 (x_step Real h4 (c.btn_x && alone)) (n + of_bool (y_alone c))
        (hold-IsPaid h3 (c.btn_y && alone) n paid3) (inl x_low) x_same

  linked-IsPaid :
      (h : Handler Real) (c : Controller Real) (mode : Mode) (nav : Option (NavCommand Real × Real))
      (n : ℕ)
      → IsPaid h n
      → IsPaid (linked f h c mode nav).handler (n + of_bool (y_alone c))
  linked-IsPaid h c mode nav n paid =
      let (index, hold) = linked-buttons h c mode nav in
      let (same_index, same_hold) = estop_step-keeps h c in
      let start =
        lower-IsPaid h (estop_step Real h c) n paid (inl (omega (arith, same_index))) same_hold in
      lower-IsPaid (button_step f (estop_step Real h c) c).0 (linked f h c mode nav).handler
        (n + of_bool (y_alone c)) (button_step-IsPaid (estop_step Real h c) c n start)
        (inl (omega (arith, index))) hold

  -- How many ticks of a run see Y down with no other face button.
  abbrev pub alone_tick : Event Real → ℕ
  alone_tick disarms = 0
  alone_tick (loops r) = elim r.controller [ none ↦ 0 | some c ↦ of_bool (y_alone c) ]

  abbrev pub alone_ticks : List (Event Real) → ℕ
  alone_ticks [] = 0
  alone_ticks (e ∷ es) = alone_tick e + alone_ticks es

  tick-IsPaid :
      (h : Handler Real) (c : Option (Controller Real)) (mode : Mode)
      (nav : Option (NavCommand Real × Real)) (n : ℕ)
      → IsPaid h n
      → IsPaid
          (tick f h c mode nav).handler
          (n + alone_tick (loops (record { controller = c; mode = mode; nav = nav })))
  unfolding tick unlinked
  tick-IsPaid h none mode nav n paid = record {
    top = paid.top;
    few = omega (arith, paid.few);
    cost = omega (arith, paid.cost);
  }
  tick-IsPaid h (some c) mode nav n paid = linked-IsPaid h c mode nav n paid

  after-IsPaid :
      (h : Handler Real) (e : Event Real) (n : ℕ)
      → IsPaid h n
      → IsPaid (after f h e) (n + alone_tick e)
  unfolding after disarm
  after-IsPaid h (loops r) n paid = tick-IsPaid h r.controller r.mode r.nav n paid
  after-IsPaid h disarms n paid = record {
    top = omega arith;
    few = omega (arith, paid.few);
    cost = omega (arith, paid.few);
  }

  run-IsPaid :
      (h : Handler Real) (es : List (Event Real)) (n m : ℕ)
      → n + alone_ticks es ≡ m
      → IsPaid h n
      → IsPaid (run f h es) m
  unfolding run
  run-IsPaid h [] n m e paid = let e' : n ≡ m = omega arith in rw (← e') paid
  run-IsPaid h (x ∷ es) n m e paid =
      run-IsPaid (after f h x) es (n + alone_tick x) m (omega arith) (after-IsPaid h x n paid)

  -- Over every run from the start, with the control loop's disarms in between: the selected mode
  -- is at most INJURED_WALK (19), and each step beyond WALK (2) took 500 ticks with Y alone.
  pub hard_steps_cost :
      (es : List (Event Real))
      → ((run f (init f) es).mode_index ≤ 19)
        × (500 * (run f (init f) es).mode_index ≤ 1000 + alone_ticks es)
  hard_steps_cost es =
      let paid =
        run-IsPaid (init f) es 0 (alone_ticks es) (omega arith)
          (record { top = omega arith; few = omega arith; cost = omega arith }) in
      (paid.top, omega (arith, paid.cost))

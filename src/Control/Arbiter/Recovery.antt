-- ===== src/Control/Arbiter/Recovery.antt =====
-- The kRecovering phase of ControlArbiter: the ticks that it takes, and where the blend ends.
use gearsonic_inference.Common.{
  ℕ, suc, ◌+◌, ◌≤◌, min, true, false, ◌≡◌, refl, Option, none, some, List, [], ◌∷◌, length, All,
  leb, arith, ◌>>=◌,
}
use gearsonic_inference.Common.Float.{Float, of_nat, one}
use gearsonic_inference.Control.Arbiter.{
  vla, recovering, Inputs, Arbiter, step_mode, recovery_blend_done, select_token, stand, blend,
  safe_standing_token, standing_blend, next_recovery_tick, recovery_blend_ticks,
}
use gearsonic_inference.Control.Arbiter.Blend.{IsValid, standing_blend-IsValid, safe_dim}

module _ (f : Float) where
  open f use {Real, add, sub, mul, div, is_finite}

  -- Ticks of the control loop with no token to pass on: the mode is stepped, then a token selected.
  pub recovery_run : Arbiter Real → List Inputs → Option (Arbiter Real)
  recovery_run a [] = some a
  recovery_run a (i ∷ is) = do
    (b, out) ← select_token f (step_mode f a i).0 none none
    recovery_run b is

  abbrev pub Recovers : ℕ → Option (Arbiter Real) → Type 0
  Recovers ticks r =
      (b : Arbiter Real) × (r ≡ some b)
      × (b.mode ≡ recovering)
      × IsValid Real b
      × (b.recovery_tick ≡ min recovery_blend_ticks ticks)

  stand_step :
      (a : Arbiter Real) (i : Inputs)
      → a.mode ≡ recovering
      → i.recovery_done ≡ false
      → select_token f (step_mode f a i).0 none none ≡ some (standing_blend f a)
  unfolding select_token step_mode
  stand_step a i e h = ground arith

  enter_step :
      (a : Arbiter Real) (i : Inputs)
      → a.mode ≡ vla
      → i.vla_alive ≡ false
      → select_token f (step_mode f a i).0 none none
        ≡ some (standing_blend f (record a { mode = recovering; recovery_tick = 0 }))
  unfolding select_token step_mode
  enter_step a i e h = ground arith

  standing_tick :
      (a : Arbiter Real)
      → IsValid Real a
      → (standing_blend f a).0.recovery_tick ≡ min recovery_blend_ticks (suc a.recovery_tick)
  unfolding standing_blend
  standing_tick a v = ground arith

  stays :
      (a : Arbiter Real) (is : List Inputs)
      → a.mode ≡ recovering
      → IsValid Real a
      → All (λ i. i.recovery_done ≡ false) is
      → Recovers (a.recovery_tick + length is) (recovery_run a is)
  unfolding recovery_run
  stays a [] e v h = (a, refl, e, v, omega (arith, v.recovery_capped))
  stays a (i ∷ is) e v h =
      let b = (standing_blend f a).0 in
      let (c, returns, mode, valid, tick) =
        stays b is (unfold standing_blend in e) (standing_blend-IsValid f a v) h.1 in
      (c, rw (stand_step a i e h.0) returns, mode, valid, omega (arith, tick, standing_tick a v))

  -- From a lost stream on, every tick without the planner's acknowledgement gives out a token and
  -- stays in kRecovering, and `recovery_blend_done` holds from the 50th such tick on, not before.
  pub recovery_takes_50_ticks :
      (a : Arbiter Real) (i : Inputs) (is : List Inputs)
      → a.mode ≡ vla
      → IsValid Real a
      → i.vla_alive ≡ false
      → All (λ j. j.recovery_done ≡ false) is
      → (b : Arbiter Real) × (recovery_run a (i ∷ is) ≡ some b)
        × (b.mode ≡ recovering)
        × (recovery_blend_done f b ≡ leb 50 (suc (length is)))
  unfolding recovery_run recovery_blend_done
  recovery_takes_50_ticks a i is e v lost h =
      let entered : Arbiter Real = record a { mode = recovering; recovery_tick = 0 } in
      let entered_valid : IsValid Real entered = record {
        held_dim = v.held_dim;
        recovery_capped = omega arith;
        handoff_capped = v.handoff_capped;
      } in
      let b = (standing_blend f entered).0 in
      let (c, returns, mode, valid, tick) =
        stays b is (unfold standing_blend in refl) (standing_blend-IsValid f entered entered_valid)
          h in
      (
        c,
        rw (enter_step a i e lost) returns,
        mode,
        ground (arith, tick, standing_tick entered entered_valid),
      )

  -- What IEEE arithmetic gives at the weight 1: 50 / 50 is 1, and (1 - 1) * h + 1 * s is s for a
  -- finite h and an s that is not -0 (no entry of the standing token is).
  pub record WeightOne : Type 0 where
    pub whole : div (of_nat f 50) (of_nat f 50) ≡ one f
    pub second :
        (h s : Real) → is_finite h ≡ true → add (mul (sub (one f) (one f)) h) (mul (one f) s) ≡ s

  blend_whole :
      (laws : WeightOne) (held out : List Real)
      → All (λ h. is_finite h ≡ true) held
      → length held ≡ length out
      → blend f (one f) held out ≡ out
  unfolding blend
  blend_whole laws [] [] h e = refl
  blend_whole laws [] (o ∷ out) h e = absurd (omega arith)
  blend_whole laws (x ∷ held) [] h e = absurd (omega arith)
  blend_whole laws (x ∷ held) (o ∷ out) h e =
      cc (laws.second x o h.0, blend_whole laws held out h.1 (omega arith))

  -- The tick that ends the standing blend, and every tick of the hold after it, gives out exactly
  -- the safe standing token, if the token held so far is finite.
  standing_lands :
      (laws : WeightOne) (a : Arbiter Real) (encoder stream : Option (List Real))
      → a.mode ≡ recovering
      → IsValid Real a
      → All (λ h. is_finite h ≡ true) a.held_token
      → 49 ≤ a.recovery_tick
      → (b : Arbiter Real) × (select_token f a encoder stream ≡ some (b, safe_standing_token f))
        × (b.held_token ≡ safe_standing_token f)
  unfolding select_token standing_blend stand
  standing_lands laws a encoder stream e v fin late =
      let tick : next_recovery_tick f a.recovery_tick ≡ 50 =
        unfold next_recovery_tick in ground (arith, v.recovery_capped) in
      let lands : stand f (next_recovery_tick f a.recovery_tick) a.held_token
          ≡ safe_standing_token f =
        rw (tick, laws.whole)
          (blend_whole laws a.held_token (safe_standing_token f) fin
            (omega (arith, v.held_dim, safe_dim f))) in
      ((standing_blend f a).0, rw (e, lands), lands)

-- ===== src/Control/Arbiter/Tests.antt =====
-- The theorems about ControlArbiter at concrete inputs.
use gearsonic_inference.Common.{
  ℕ, ◌≤◌, true, false, ◌≡◌, refl, inl, some, List, [], ◌∷◌, Any, All, arith, leb,
}
use gearsonic_inference.Common.Float.{milli, one}
use gearsonic_inference.Common.Int.{pos, negsuc}
use gearsonic_inference.Control.Arbiter.{
  Mode, normal, teleop, vla, recovering, Inputs, decide, Arbiter, safe_standing_token,
  recovery_blend_done,
}
use gearsonic_inference.Control.Arbiter.Blend.{IsValid, safe_dim}
use gearsonic_inference.Control.Arbiter.Diagram.{modes, final_mode, rival_visits_normal}
use gearsonic_inference.Control.Arbiter.Recovery.{recovery_run, recovery_takes_50_ticks, WeightOne}

abbrev quiet : Inputs
quiet = record { vla_fresh = false; vla_alive = false; calibrated = false; recovery_done = false }

abbrev streaming : Inputs
streaming = record { vla_fresh = true; vla_alive = true; calibrated = false; recovery_done = false }

abbrev calibrating : Inputs
calibrating = record {
  vla_fresh = true;
  vla_alive = true;
  calibrated = true;
  recovery_done = false;
}

rival_visits_normal_example : Any (λ k. k ≡ normal) (modes teleop (quiet ∷ streaming ∷ []))
unfolding final_mode decide
rival_visits_normal_example =
    rival_visits_normal teleop (quiet ∷ streaming ∷ []) (inl (refl, inl refl))

-- An arbiter in each of the modes, holding the standing token.
abbrev holding : Mode → ℕ → Arbiter milli.Real
holding m tick = record {
  mode = m;
  held_token = safe_standing_token milli;
  recovery_tick = tick;
  handoff = 0;
}

holding-IsValid : (m : Mode) (tick : ℕ) → tick ≤ 50 → IsValid milli.Real (holding m tick)
holding-IsValid m tick h = record {
  held_dim = safe_dim milli;
  recovery_capped = h;
  handoff_capped = omega arith;
}

recovery_takes_50_ticks_example :
    (b : Arbiter milli.Real) × (recovery_run milli (holding vla 0) (quiet ∷ quiet ∷ []) ≡ some b)
    × (b.mode ≡ recovering)
    × (recovery_blend_done milli b ≡ leb 50 2)
recovery_takes_50_ticks_example =
    recovery_takes_50_ticks milli (holding vla 0) quiet (quiet ∷ []) refl
      (holding-IsValid vla 0 (omega arith)) refl (refl, tt)

-- In thousandths, the weight 1 gives back the second token.
weight_one_second :
    (h s : milli.Real)
    → milli.add (milli.mul (milli.sub (one milli) (one milli)) h) (milli.mul (one milli) s) ≡ s
unfolding milli
weight_one_second (pos h) (pos s) = ground arith
weight_one_second (pos h) (negsuc s) = ground arith
weight_one_second (negsuc h) (pos s) = ground arith
weight_one_second (negsuc h) (negsuc s) = ground arith

weight_one : WeightOne milli
weight_one = record { whole = unfold milli in refl; second = λ h s _. weight_one_second h s }

every_finite : (xs : List milli.Real) → All (λ h. milli.is_finite h ≡ true) xs
unfolding milli
every_finite [] = tt
every_finite (x ∷ xs) = (refl, every_finite xs)

-- ===== src/Control/Arbiter/Blend.antt =====
-- The token blends of ControlArbiter.
use gearsonic_inference.Common.{
  ℕ, ◌≤◌, ◌≡◌, refl, inl, inr, Option, some, List, length, length-zip_with, ltb, Bool-cases, arith,
}
use gearsonic_inference.Common.Float.{Float}
use gearsonic_inference.Control.Arbiter.{
  Mode, normal, teleop, vla, recovering, Inputs, Arbiter, init, step_mode, arm_handoff,
  select_token, safe_standing_token, handoff_blend_ticks, recovery_blend_ticks, token_dim, blend,
  handoff_weight, slide, stand, crossfade, standing_blend,
}

-- What holds of the stage between two calls.
pub record IsValid (R : Type 0) (a : Arbiter R) : Type 0 where
  pub held_dim : length a.held_token ≡ token_dim
  pub recovery_capped : a.recovery_tick ≤ recovery_blend_ticks
  pub handoff_capped : a.handoff ≤ handoff_blend_ticks

-- The token that a mode reads is there and has 64 floats.
abbrev pub Provides : (R : Type 0) → Mode → Option (List R) → Option (List R) → Type 0
Provides R vla encoder stream = (t : List R) × (stream ≡ some t) × (length t ≡ token_dim)
Provides R recovering encoder stream = Unit {0}
Provides R normal encoder stream = (t : List R) × (encoder ≡ some t) × (length t ≡ token_dim)
Provides R teleop encoder stream = (t : List R) × (encoder ≡ some t) × (length t ≡ token_dim)

module _ (f : Float) where
  open f use {Real}

  pub safe_dim : length (safe_standing_token f) ≡ token_dim
  unfolding safe_standing_token
  safe_dim = refl

  length-blend :
      (w : Real) (held out : List Real)
      → length held ≡ length out
      → length (blend f w held out) ≡ length held
  unfolding blend
  length-blend w held out h = length-zip_with _ held out h

  pub init-IsValid : IsValid Real (init f)
  unfolding init
  init-IsValid = record {
    held_dim = safe_dim;
    recovery_capped = omega arith;
    handoff_capped = omega arith;
  }

  pub step_mode-IsValid :
      (a : Arbiter Real) (i : Inputs) → IsValid Real a → IsValid Real (step_mode f a i).0
  unfolding step_mode
  step_mode-IsValid a i v = ground arith

  pub arm_handoff-IsValid : (a : Arbiter Real) → IsValid Real a → IsValid Real (arm_handoff f a)
  unfolding arm_handoff
  arm_handoff-IsValid a v = ground arith

  length-slide :
      (a : Arbiter Real) (token : List Real)
      → length a.held_token ≡ token_dim
      → length token ≡ token_dim
      → length (slide f a token) ≡ token_dim
  unfolding slide
  length-slide a token v h = elim (Bool-cases (ltb 0 a.handoff)) [
    | inl e ↦ rw e (omega (arith, length-blend (handoff_weight f a.handoff) a.held_token token))
    | inr e ↦ rw e h
  ]

  length-stand :
      (tick : ℕ) (held : List Real)
      → length held ≡ token_dim
      → length (stand f tick held) ≡ token_dim
  unfolding stand
  length-stand tick held h = omega (arith, length-blend _ held (safe_standing_token f), safe_dim)

  crossfade-IsValid :
      (a : Arbiter Real) (token : List Real)
      → IsValid Real a
      → length token ≡ token_dim
      → IsValid Real (crossfade f a token).0
  unfolding crossfade
  crossfade-IsValid a token v h = record {
    held_dim = length-slide a token v.held_dim h;
    recovery_capped = v.recovery_capped;
    handoff_capped = omega (arith, v.handoff_capped);
  }

  pub standing_blend-IsValid :
      (a : Arbiter Real) → IsValid Real a → IsValid Real (standing_blend f a).0
  unfolding standing_blend
  standing_blend-IsValid a v = record {
    held_dim = length-stand _ a.held_token v.held_dim;
    recovery_capped = ground arith;
    handoff_capped = v.handoff_capped;
  }

  -- The call returns, keeps the invariant and the mode, and remembers what it gives out.
  abbrev pub Selects : Arbiter Real → Option (List Real) → Option (List Real) → Type 0
  Selects a encoder stream =
      (b : Arbiter Real) × (out : List Real) × (select_token f a encoder stream ≡ some (b, out))
      × IsValid Real b
      × (b.held_token ≡ out)
      × (b.mode ≡ a.mode)

  crossfade-Selects :
      (a : Arbiter Real) (encoder stream : Option (List Real)) (token : List Real)
      → IsValid Real a
      → length token ≡ token_dim
      → select_token f a encoder stream ≡ some (crossfade f a token)
      → Selects a encoder stream
  unfolding crossfade
  crossfade-Selects a encoder stream token v h e = (
    (crossfade f a token).0,
    (crossfade f a token).1,
    e,
    crossfade-IsValid a token v h,
    refl,
    refl,
  )

  select_token-Selects :
      (m : Mode) (a : Arbiter Real) (encoder stream : Option (List Real))
      → a.mode ≡ m
      → IsValid Real a
      → Provides Real m encoder stream
      → Selects a encoder stream
  unfolding select_token standing_blend
  select_token-Selects vla a encoder stream e v (t, given, dim) =
      crossfade-Selects a encoder stream t v dim (rw (e, given))
  select_token-Selects normal a encoder stream e v (t, given, dim) =
      crossfade-Selects a encoder stream t v dim (rw (e, given))
  select_token-Selects teleop a encoder stream e v (t, given, dim) =
      crossfade-Selects a encoder stream t v dim (rw (e, given))
  select_token-Selects recovering a encoder stream e v _ =
      ((standing_blend f a).0, (standing_blend f a).1, rw e, standing_blend-IsValid a v, refl, refl)

  -- In every mode, if the token that the mode reads is there with its 64 floats, one token goes
  -- out, the stage remembers that token, and the mode and the invariant are kept.
  pub select_token_total :
      (a : Arbiter Real) (encoder stream : Option (List Real))
      → IsValid Real a
      → Provides Real a.mode encoder stream
      → Selects a encoder stream
  select_token_total a encoder stream v given =
      select_token-Selects a.mode a encoder stream refl v given

-- ===== src/Control/Arbiter.antt =====
-- include/control/control_arbiter.hpp: who owns the robot (`decide`, `step_mode`) and which token
-- goes out (`select_token`). The 50 Hz control loop is the only writer, so a method is a function
-- that returns the new arbiter. `none` is a read through a null token pointer.
pub mod Diagram
pub mod Blend
pub mod Recovery
pub mod Handoff
mod Tests
use gearsonic_inference.Common.{
  ℕ, zero, ◌+◌, ◌-◌, ◌*◌, Bool, true, false, ◌&&◌, ◌||◌, not, Option, none, some, List, [], ◌∷◌,
  zip_with, replicate, map, if◌then◌else◌, ltb, leb, ◌==◌,
}
use gearsonic_inference.Common.Float.{Float, of_nat, one}

pub data Mode : Type 0 where
  normal teleop vla recovering : Mode

-- The value of the enumerator, as `static_cast<uint8_t>(mode)` gives it.
abbrev pub mode_code : Mode → ℕ
mode_code normal = 0
mode_code teleop = 1
mode_code vla = 2
mode_code recovering = 3

abbrev pub is_mode : Mode → Mode → Bool
is_mode m n = mode_code m == mode_code n

-- The four inputs of a tick.
pub record Inputs : Type 0 where
  pub vla_fresh : Bool
  pub vla_alive : Bool
  pub calibrated : Bool
  pub recovery_done : Bool

unfoldable pub decide : Mode → Inputs → Mode
decide normal i = if i.vla_fresh then vla else if i.calibrated then teleop else normal
decide teleop i = if i.calibrated then teleop else normal
decide vla i = if i.vla_alive then vla else recovering
decide recovering i = if i.recovery_done then normal else recovering

-- `kVlaLossBlendTicks` of include/vla/vla_latent_action.hpp, 1 s at 50 Hz.
abbrev pub recovery_blend_ticks : ℕ
recovery_blend_ticks = 50

-- 0.7 s at 50 Hz.
abbrev pub handoff_blend_ticks : ℕ
handoff_blend_ticks = 35

abbrev pub token_dim : ℕ
token_dim = 64

-- A token is the list of its 64 floats.
pub record Arbiter (Real : Type 0) : Type 0 where
  pub mode : Mode
  pub held_token : List Real
  pub recovery_tick : ℕ  -- recovery_blend_tick_
  pub handoff : ℕ  -- handoff_blend_ticks_

module _ (f : Float) where
  open f use {Real, ratio, neg, add, sub, mul, div}

  -- kVlaSafeStandingToken of include/vla/vla_initial_pose.hpp, in sixteenths.
  abbrev plus : ℕ → Real
  plus n = ratio (n * 625) 10000

  abbrev minus : ℕ → Real
  minus n = neg (ratio (n * 625) 10000)

  unfoldable pub safe_standing_token : List Real
  safe_standing_token =
      plus 0
      ∷ minus 6
      ∷ minus 2
      ∷ minus 2
      ∷ plus 2
      ∷ plus 2
      ∷ minus 1
      ∷ minus 1
      ∷ minus 4
      ∷ minus 1
      ∷ minus 3
      ∷ minus 1
      ∷ plus 6
      ∷ plus 2
      ∷ plus 2
      ∷ plus 1
      ∷ minus 2
      ∷ minus 2
      ∷ minus 2
      ∷ plus 2
      ∷ minus 1
      ∷ minus 1
      ∷ plus 0
      ∷ plus 4
      ∷ minus 7
      ∷ plus 4
      ∷ minus 2
      ∷ plus 1
      ∷ plus 3
      ∷ minus 4
      ∷ plus 0
      ∷ plus 2
      ∷ plus 0
      ∷ plus 0
      ∷ plus 4
      ∷ plus 0
      ∷ minus 2
      ∷ minus 1
      ∷ plus 2
      ∷ minus 1
      ∷ minus 4
      ∷ plus 3
      ∷ minus 1
      ∷ plus 2
      ∷ plus 0
      ∷ plus 7
      ∷ plus 6
      ∷ plus 0
      ∷ plus 4
      ∷ minus 2
      ∷ minus 1
      ∷ minus 1
      ∷ minus 5
      ∷ minus 2
      ∷ plus 2
      ∷ minus 3
      ∷ plus 7
      ∷ minus 1
      ∷ plus 1
      ∷ minus 1
      ∷ minus 4
      ∷ plus 1
      ∷ minus 3
      ∷ plus 2
      ∷ []

  unfoldable pub init : Arbiter Real
  unfolding safe_standing_token
  init = record { mode = normal; held_token = safe_standing_token; recovery_tick = 0; handoff = 0 }

  -- Returns the new mode; arms the blends of a transition.
  unfoldable pub step_mode : Arbiter Real → Inputs → Arbiter Real × Mode
  unfolding decide
  step_mode a i =
      let next = decide a.mode i in
      if is_mode next a.mode then (a, next) else (
        record a {
          mode = next;
          recovery_tick = if is_mode next recovering then 0 else a.recovery_tick;
          handoff =
              if is_mode a.mode recovering && is_mode next normal || is_mode next vla
              then handoff_blend_ticks
              else a.handoff;
        },
        next,
      )

  unfoldable pub recovery_blend_done : Arbiter Real → Bool
  recovery_blend_done a = leb recovery_blend_ticks a.recovery_tick

  unfoldable pub arm_handoff : Arbiter Real → Arbiter Real
  arm_handoff a = record a { handoff = handoff_blend_ticks }

  -- `(1 - w) * held[i] + w * out[i]`, for each i.
  pub blend : Real → List Real → List Real → List Real
  blend w held out = zip_with (λ h o. add (mul (sub (one f) w) h) (mul w o)) held out

  -- The crossfade of the `kVla` case and of the default case.
  pub handoff_weight : ℕ → Real
  handoff_weight ticks = sub (one f) (div (of_nat f ticks) (of_nat f handoff_blend_ticks))

  pub slide : Arbiter Real → List Real → List Real
  slide a token =
      if ltb 0 a.handoff then blend (handoff_weight a.handoff) a.held_token token else token

  -- The counter goes down only when it is above 0, which is what `-` does.
  unfoldable pub crossfade : Arbiter Real → List Real → Arbiter Real × List Real
  crossfade a token =
      (record a { held_token = slide a token; handoff = a.handoff - 1 }, slide a token)

  -- The `kRecovering` case.
  unfoldable pub next_recovery_tick : ℕ → ℕ
  next_recovery_tick tick = if ltb tick recovery_blend_ticks then tick + 1 else tick

  pub stand : ℕ → List Real → List Real
  stand tick held =
      blend (div (of_nat f tick) (of_nat f recovery_blend_ticks)) held safe_standing_token

  unfoldable pub standing_blend : Arbiter Real → Arbiter Real × List Real
  unfolding next_recovery_tick
  standing_blend a =
      let tick = next_recovery_tick a.recovery_tick in
      (
        record a { held_token = stand tick a.held_token; recovery_tick = tick },
        stand tick a.held_token,
      )

  select :
      Mode
      → Arbiter Real
      → Option (List Real)
      → Option (List Real)
      → Option (Arbiter Real × List Real)
  unfolding crossfade standing_blend
  select vla a encoder none = none
  select vla a encoder (some token) = some (crossfade a token)
  select recovering a encoder stream = some (standing_blend a)
  select normal a none stream = none
  select normal a (some token) stream = some (crossfade a token)
  select teleop a none stream = none
  select teleop a (some token) stream = some (crossfade a token)

  -- The encoder's token and the stream's, by pointer.
  unfoldable pub select_token :
      Arbiter Real → Option (List Real) → Option (List Real) → Option (Arbiter Real × List Real)
  unfolding select
  select_token a encoder stream = select a.mode a encoder stream

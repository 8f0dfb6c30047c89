-- ===== src/Wire/Writer.antt =====
-- UnitreeCommandWriter (src/unitree/unitree_command_writer.cpp). The layout of a message in words,
-- without its checksum, is the SDK's; so are the motion switcher's answers.
pub mod Session
use gearsonic_inference.Common.{
  ℕ, zero, suc, ◌+◌, ◌*◌, ◌≡◌, ◌↔◌, refl, sym, ap, ◌∙◌, Bool, true, false, ◌&&◌, ◌||◌, Option, none,
  some, List, [], ◌∷◌, ◌++◌, map, length, replicate, get_or, if◌then◌else◌, All, arith, Bool-cases,
  inl, inr,
}
use gearsonic_inference.Common.Float.{Machine, Float, nil, of_nat}
use gearsonic_inference.Control.Commands.{MotorCommand, no_command, damping}
use gearsonic_inference.Wire.Checksum.{crc32_core}

pub record MotorSlot (Real : Type 0) : Type 0 where
  pub mode : ℕ
  pub q : Real
  pub dq : Real
  pub kp : Real
  pub kd : Real
  pub tau : Real

-- The fields of LowCmd_ that the writer sets.
pub record LowCmd (Real : Type 0) : Type 0 where
  pub mode_pr : ℕ
  pub mode_machine : ℕ
  pub motor_cmd : List (MotorSlot Real)  -- 29
  pub crc : ℕ

-- CheckMode: not reachable, or the motion service's name, which can be empty.
pub data Check : Type 0 where
  unreachable : Check
  released : Check
  active : Check

-- The loop over the attempts: a release, then a check.
unfoldable pub try_release : ℕ → (ℕ → Check) → ℕ → Bool
try_release zero answers attempt = false
try_release (suc left) answers attempt =
    let again = try_release left answers (attempt + 1) in
    elim (answers attempt) [ released ↦ true | _ ↦ again ]

-- The first check, and the one after each attempt.
unfoldable pub ensure_exclusive_lowcmd : Check → (ℕ → Check) → Bool
unfolding try_release
ensure_exclusive_lowcmd unreachable answers = true
ensure_exclusive_lowcmd released answers = true
ensure_exclusive_lowcmd active answers = try_release 5 answers 0

-- start: whether there is a source, then the motion switcher.
unfoldable pub start : Bool → Check → (ℕ → Check) → Bool
unfolding ensure_exclusive_lowcmd
start source first answers = source && ensure_exclusive_lowcmd first answers

module _ (m : Machine) where
  open m use {f32}
  open f32 use {Real}

  module _ (words : LowCmd Real → List ℕ) where
    abbrev pub slot : MotorCommand Real → ℕ → MotorSlot Real
    slot c i = record {
      mode = 1;
      q = get_or c.q_target i (nil f32);
      dq = get_or c.dq_target i (nil f32);
      kp = get_or c.kp i (nil f32);
      kd = get_or c.kd i (nil f32);
      tau = get_or c.tau_ff i (nil f32);
    }

    abbrev pub slots : ℕ → ℕ → MotorCommand Real → List (MotorSlot Real)
    slots zero i c = []
    slots (suc left) i c = slot c i ∷ slots left (i + 1) c

    -- The message that `publish` writes, with the mode_machine of the robot's state if there is one.
    unfoldable pub publish : MotorCommand Real → Option ℕ → LowCmd Real
    unfolding crc32_core
    publish c state_mode =
        let msg : LowCmd Real = record {
          mode_pr = 0;
          mode_machine = elim state_mode [ none ↦ 0 | some mode ↦ mode ];
          motor_cmd = slots 29 0 c;
          crc = 0;
        } in
        record msg { crc = crc32_core (words msg) }

    -- A turn of loop(): the source's command, and the mode when it is published.
    unfoldable pub turn : Option (MotorCommand Real) × Option ℕ → List (LowCmd Real)
    unfolding publish
    turn (none, mode) = []
    turn (some c, mode) = publish c mode ∷ []

    -- So many messages with the damping, from message i on, each with the mode of its time.
    unfoldable pub burst : ℕ → ℕ → (ℕ → Option ℕ) → List (LowCmd Real)
    unfolding publish damping
    burst zero i modes = []
    burst (suc left) i modes = publish (damping m) (modes i) ∷ burst left (i + 1) modes

    -- Five messages, if there is a publisher, which a successful start makes.
    unfoldable pub send_damping : Bool → (ℕ → Option ℕ) → List (LowCmd Real)
    unfolding burst
    send_damping has_publisher modes = if has_publisher then burst 5 0 modes else []

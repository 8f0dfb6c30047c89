-- ===== src/Wire/Tests.antt =====
-- The link at concrete inputs, in thousandths. The words of a message are few here.
use gearsonic_inference.Common.{
  ℕ, ◌≡◌, ◌↔◌, ◌⊎◌, refl, true, false, none, some, Option, List, [], ◌∷◌, ◌++◌, length,
  if◌then◌else◌, ◌==◌,
}
use gearsonic_inference.Common.Float.{Machine, milli_machine, nil, one}
use gearsonic_inference.Control.Commands.{MotorCommand, no_command}
use gearsonic_inference.Channels.DataBuffer.{empty}
use gearsonic_inference.Wire.Checksum.{crc32_core, crc_words}
use gearsonic_inference.Wire.Writer.{LowCmd, Check, released, active, start}
use gearsonic_inference.Wire.Writer.Session.{
  session, session_ends_damped, Sends, Damps, IsReleasedWithin, start_iff_exclusive,
}
use gearsonic_inference.Wire.Reader.{LowState, SdkImu}
use gearsonic_inference.Wire.Reader.Intact.{
  Arrival, lowstate, watches, run, last_state, last_imu, Has, only_intact_states,
}

abbrev m : Machine
m = milli_machine

abbrev words : LowCmd m.f32.Real → List ℕ
words msg = msg.mode_pr ∷ msg.mode_machine ∷ []

-- The checksum of no words, and of two.
no_words : crc32_core [] ≡ 0xFFFFFFFF
unfolding crc32_core crc_words
no_words = refl

abbrev turns : List (Option (MotorCommand m.f32.Real) × Option ℕ)
turns = (none, none) ∷ (some (no_command m), some 4) ∷ []

-- The robot's mode is not known for the first message of the stop.
abbrev modes : ℕ → Option ℕ
modes i = if i == 0 then none else some 4

session_ends_damped_example :
    (session m words false turns modes ≡ [])
    × (sent : List (LowCmd m.f32.Real)) × (last : List (LowCmd m.f32.Real)) × (session m words true
          turns modes
        ≡ sent ++ last)
    × Sends m words turns sent
    × (length last ≡ 5)
    × Damps m words modes 0 last
session_ends_damped_example =
    session_ends_damped m words turns modes ((refl, refl, refl, refl, refl), tt)

-- The third attempt releases the service.
abbrev answers : ℕ → Check
answers k = if k == 2 then released else active

start_iff_exclusive_example : (start true active answers ≡ true) ↔ (
    (true ≡ true)
    × ((active ≡ Check.unreachable) ⊎ ((active ≡ released) ⊎ IsReleasedWithin 5 answers 0)))
start_iff_exclusive_example = start_iff_exclusive true active answers

abbrev still : SdkImu m.f32.Real
still = record {
  quaternion = record { w = one m.f32; x = nil m.f32; y = nil m.f32; z = nil m.f32 };
  gyroscope = record { x = nil m.f32; y = nil m.f32; z = nil m.f32 };
  accelerometer = record { x = nil m.f32; y = nil m.f32; z = nil m.f32 };
}

-- A state without motors, with a checksum.
abbrev state_with : ℕ → LowState m.f32.Real
state_with crc = record {
  tick = 1;
  mode_machine = 4;
  imu_state = still;
  motor_state = [];
  crc = crc;
}

abbrev state_words : LowState m.f32.Real → List ℕ
state_words msg = []

-- A state with the right checksum of no words, a corrupted one, and the watchdog.
abbrev arrivals : List (Arrival m.f32.Real)
arrivals =
    lowstate (state_with 0xFFFFFFFF) 1_000_000
    ∷ lowstate (state_with 7) 3_000_000
    ∷ watches 10_000_000 10_000_000
    ∷ []

only_intact_states_example :
    Has m state_words
      (run m state_words
        (record { unitree_state_buf = empty; imu_torso_buf = empty })
        arrivals).unitree_state_buf
      (last_state m state_words none arrivals)
    × Has m state_words
        (run m state_words
          (record { unitree_state_buf = empty; imu_torso_buf = empty })
          arrivals).imu_torso_buf
        (last_imu m state_words none arrivals)
only_intact_states_example = only_intact_states m state_words arrivals

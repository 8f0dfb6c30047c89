-- ===== src/Wire/Reader.antt =====
-- UnitreeStateReader (src/unitree/unitree_state_reader.cpp). The layout of a message in words is the
-- SDK's. Times are nanoseconds of the steady clock.
pub mod Intact
use gearsonic_inference.Common.{
  ℕ, zero, suc, ◌+◌, ◌≡◌, refl, sym, ap, ◌∙◌, Bool, true, false, ◌&&◌, ◌||◌, not, Option, none,
  some, List, [], ◌∷◌, map, get_or, if◌then◌else◌, ◌==◌, Any, arith, Bool-cases, inl, inr, ◌⊎◌, ◌↔◌,
}
use gearsonic_inference.Common.Int.{ℤ, pos}
use gearsonic_inference.Common.Float.{Machine, of_nat, nil}
use gearsonic_inference.Common.Quaternion.{Quat}
use gearsonic_inference.Common.Rotation.{Vec3}
use gearsonic_inference.Channels.DataBuffer.{
  DataBuffer, empty, set_data, clear, get_data_with_time, get_age_ms,
}
use gearsonic_inference.Health.Body.{MotorState}
use gearsonic_inference.Wire.Checksum.{crc32_core}

-- The fields of IMUState_, MotorState_ and LowState_ that the reader takes.
pub record SdkImu (Real : Type 0) : Type 0 where
  pub quaternion : Quat Real
  pub gyroscope : Vec3 Real
  pub accelerometer : Vec3 Real

pub record SdkMotor (Real : Type 0) : Type 0 where
  pub q : Real
  pub dq : Real
  pub tau_est : Real
  pub temperature : List ℤ  -- 2
  pub motorstate : ℕ

pub record LowState (Real : Type 0) : Type 0 where
  pub tick : ℕ
  pub mode_machine : ℕ
  pub imu_state : SdkImu Real
  pub motor_state : List (SdkMotor Real)
  pub crc : ℕ

pub record Imu (Real : Type 0) : Type 0 where
  pub quaternion : Quat Real
  pub gyroscope : Vec3 Real
  pub accelerometer : Vec3 Real

pub record UnitreeState (Real : Type 0) : Type 0 where
  pub motors : List (MotorState Real)
  pub imu_pelvis : Imu Real
  pub tick : ℕ
  pub mode_machine : ℕ

pub record StateReader (Real : Type 0) : Type 0 where
  pub unitree_state_buf : DataBuffer (UnitreeState Real)
  pub imu_torso_buf : DataBuffer (Imu Real)

module _ (m : Machine) where
  open m use {f32, f64, widen}
  open f64 use {Real, lt}

  abbrev widen_vec : Vec3 f32.Real → Vec3 Real
  widen_vec v = record { x = widen v.x; y = widen v.y; z = widen v.z }

  unfoldable pub convert_imu : SdkImu f32.Real → Imu Real
  convert_imu src = record {
    quaternion = record {
      w = widen src.quaternion.w;
      x = widen src.quaternion.x;
      y = widen src.quaternion.y;
      z = widen src.quaternion.z;
    };
    gyroscope = widen_vec src.gyroscope;
    accelerometer = widen_vec src.accelerometer;
  }

  abbrev convert_motor : SdkMotor f32.Real → MotorState Real
  convert_motor src = record {
    q = widen src.q;
    dq = widen src.dq;
    tau = widen src.tau_est;
    temp_casing = get_or src.temperature 0 (pos 0);
    temp_winding = get_or src.temperature 1 (pos 0);
    error = src.motorstate;
  }

  -- Of a message with its 29 motors.
  unfoldable pub convert : LowState f32.Real → UnitreeState Real
  unfolding convert_imu
  convert src = record {
    motors = map convert_motor src.motor_state;
    imu_pelvis = convert_imu src.imu_state;
    tick = src.tick;
    mode_machine = src.mode_machine;
  }

  module _ (words : LowState f32.Real → List ℕ) where
    -- The checksum test.
    abbrev pub is_intact : LowState f32.Real → Bool
    is_intact msg = crc32_core (words msg) == msg.crc

    unfoldable pub on_lowstate_update : StateReader Real → LowState f32.Real → ℕ → StateReader Real
    unfolding convert crc32_core
    on_lowstate_update r msg now =
        if not (is_intact msg)
        then r
        else record r { unitree_state_buf = set_data r.unitree_state_buf (convert msg) now }

  unfoldable pub on_imu_torso_update : StateReader Real → SdkImu f32.Real → ℕ → StateReader Real
  unfolding convert_imu
  on_imu_torso_update r msg now = record r {
    imu_torso_buf = set_data r.imu_torso_buf (convert_imu msg) now;
  }

  -- stale_ms.
  abbrev pub is_stale : {A : Type 0} → DataBuffer A → ℕ → Bool
  is_stale b now = lt (of_nat f64 60) (get_age_ms f64 (get_data_with_time b) now)

  abbrev drop_stale : {A : Type 0} → DataBuffer A → ℕ → DataBuffer A
  drop_stale b now = elim b.content [ none ↦ b | some x ↦ if is_stale b now then clear b else b ]

  -- A turn of watchdog_loop(), with the clock at both ages.
  unfoldable pub watch : StateReader Real → ℕ → ℕ → StateReader Real
  watch r now later = record {
    unitree_state_buf = drop_stale r.unitree_state_buf now;
    imu_torso_buf = drop_stale r.imu_torso_buf later;
  }

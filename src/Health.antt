-- ===== src/Health.antt =====
-- MotorHealthRules (include/unitree/motor_health_rules.hpp): the tracks of the conditions, the log lines,
-- and the temperature levels. A line's text is left out: a line is its kind with what it names.
pub mod Body
pub mod Step
pub mod Bands
pub mod Response
pub mod Monitor
mod Tests
use gearsonic_inference.Common.{ℕ, Bool, true, false, ◌&&◌, List, [], ◌∷◌, if◌then◌else◌}
use gearsonic_inference.Common.Int.{ℤ, pos, ◌-ℤ◌, ltb_ℤ, leb_ℤ}

pub record Params (Real : Type 0) : Type 0 where
  pub enabled : Bool
  pub casing_warn_c : ℤ
  pub casing_critical_c : ℤ
  pub winding_warn_c : ℤ
  pub winding_critical_c : ℤ
  pub unresp_tau_min : Real
  pub unresp_tau_ratio : Real
  pub unresp_time_s : Real
  pub frozen_time_s : Real
  pub frozen_cmd_move : Real
  pub summary_period_s : Real

-- 0 ok, 1 warn, 2 critical.
pub data Level : Type 0 where
  ok : Level
  warn : Level
  critical : Level

-- A body motor, a hand (the left one is 0), a motor of a hand.
pub data Who : Type 0 where
  body : ℕ → Who
  hand : ℕ → Who
  hand_motor : ℕ → ℕ → Who

pub data Sensor : Type 0 where
  casing : Sensor
  winding : Sensor

pub data Line : Type 0 where
  fault : Who → ℕ → Line
  fault_cleared : Who → ℕ → Line
  temperature : Level → Who → Sensor → ℤ → Line
  not_responding : ℕ → Line
  producing_torque_again : ℕ → Line
  state_frozen : ℕ → Line
  updating_again : ℕ → Line
  summary : Line

abbrev pub is_critical : Level → Bool
is_critical ok = false
is_critical warn = false
is_critical critical = true

abbrev pub same_level : Level → Level → Bool
same_level ok ok = true
same_level warn warn = true
same_level critical critical = true
same_level ok warn = false
same_level ok critical = false
same_level warn ok = false
same_level warn critical = false
same_level critical ok = false
same_level critical warn = false

-- The next level of a sensor, from its two limits.
unfoldable pub next_level : Level → ℤ → ℤ → ℤ → Level
next_level level temp at_warn at_critical =
    if leb_ℤ at_critical temp
    then critical
    else if leb_ℤ at_warn temp
    then (if is_critical level && leb_ℤ (at_critical -ℤ pos 5) temp then critical else warn)
    else if ltb_ℤ temp (at_warn -ℤ pos 5)
    then ok
    else level

-- The next level, and a line if it is another.
unfoldable pub temp_transition : Level → ℤ → ℤ → ℤ → Sensor → Who → Level × List Line
unfolding next_level
temp_transition level temp at_warn at_critical sensor who =
    let next = next_level level temp at_warn at_critical in
    (next, if same_level next level then [] else temperature next who sensor temp ∷ [])

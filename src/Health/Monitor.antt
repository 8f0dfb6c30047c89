-- ===== src/Health/Monitor.antt =====
-- MotorHealthMonitor::loop (src/unitree/motor_health_monitor.cpp). Times are nanoseconds of the steady
-- clock.
use gearsonic_inference.Common.{ℕ, ◌-◌, Option, none, some, List, map, if◌then◌else◌}
use gearsonic_inference.Common.Float.{Machine, Float, of_nat}
use gearsonic_inference.Channels.DataBuffer.{get_age_ms}
use gearsonic_inference.Control.Commands.{MotorCommand}
use gearsonic_inference.Health.{Params, Line}
use gearsonic_inference.Health.Body.{MotorState}
use gearsonic_inference.Health.Step.{HandState, Rules, step, body_flags}

-- A hand's state with its receive time, and the clock when its age is taken.
pub record HandRead : Type 0 where
  pub sample : Option (HandState × ℕ)
  pub at : ℕ

-- What one turn reads of the clock and the buffers.
pub record MonitorReads (m : Machine) : Type 0 where
  pub now : ℕ
  pub body : Option (List (MotorState m.f64.Real))
  pub cmd : Option (MotorCommand m.f32.Real)
  pub left : HandRead
  pub right : HandRead

pub record Monitor (m : Machine) : Type 0 where
  pub rules : Rules m
  pub last : ℕ
  pub flags : List ℕ  -- flags_, of the 29 motors

-- kHandStaleMs.
unfoldable recent : Float → HandRead → Option HandState
recent f r = elim r.sample [
  | none ↦ none
  | some (h, time) ↦ if f.lt (get_age_ms f r.sample r.at) (of_nat f 200) then some h else none
]

module _ (m : Machine) where
  open m use {f32, f64}

  -- One turn of the loop, with the lines that it logs.
  unfoldable pub round : Params f32.Real → Monitor m → MonitorReads m → Monitor m × List Line
  unfolding recent step
  round p monitor r =
      let dt = f64.div (of_nat f64 (r.now - monitor.last)) (of_nat f64 1000000000) in
      let (rules, lines) =
        step m p r.body r.cmd (recent f64 r.left) (recent f64 r.right) dt monitor.rules in
      (record { rules = rules; last = r.now; flags = map (body_flags m) rules.body }, lines)

-- ===== src/System.antt =====
-- GearsonicInference (src/system/gearsonic_inference.cpp): its flags and the calls of the modules.
pub mod Stop
pub mod Start
pub mod Rollback
pub mod Lifecycle
mod Tests
use gearsonic_inference.Common.{Bool, false, List, [], ◌∷◌}

pub data Module : Type 0 where
  console : Module
  vr_reader : Module
  input_handler : Module
  teleop_tracker : Module
  state_reader : Module
  hand_state_reader : Module
  health_monitor : Module
  vla_receiver : Module
  nav_receiver : Module
  record_commander : Module
  planner : Module
  command_writer : Module
  hand_writer : Module
  token_publisher : Module
  state_trace : Module
  controller : Module

-- A call of a module's `start` that succeeds or not, or of its `stop`.
pub data Event : Type 0 where
  starts : Module → Event
  fails : Module → Event
  stops : Module → Event

-- The flags `…_started_`, and the calls made so far, the newest first.
pub record System : Type 0 where
  pub vr_started : Bool
  pub robot_started : Bool
  pub hand_state_started : Bool
  pub health_started : Bool
  pub vla_started : Bool
  pub nav_rx_started : Bool
  pub record_ctl_started : Bool
  pub planner_started : Bool
  pub writer_started : Bool
  pub hand_writer_started : Bool
  pub token_pub_started : Bool
  pub control_started : Bool
  pub trace_started : Bool
  pub calls : List Event

-- How `start` ends: it returns its result, or an exception of the configuration leaves it.
pub data Ending : Type 0 where
  returned : Bool → Ending
  thrown : Ending

-- What decides a start from outside: the results of the modules' own starts, the configuration
-- file, whether each of its sections (`…_reads`) has the entries that are asked for, with values of
-- their types, and whether the robot's state comes before a request to quit.
pub record Outcome : Type 0 where
  pub config_loads : Bool
  pub vr : Bool
  pub robot : Bool
  pub hand_state : Bool
  pub vla : Bool
  pub nav : Bool
  pub record_on : Bool
  pub record_starts : Bool
  pub state_flows : Bool
  pub planner_starts : Bool
  pub writer : Bool
  pub hands : Bool
  pub token_pub : Bool
  pub trace_on : Bool
  pub trace_starts : Bool
  pub control : Bool
  pub unitree_reads : Bool
  pub motor_health_reads : Bool
  pub record_control_reads : Bool
  pub planner_reads : Bool
  pub hand_reads : Bool
  pub trace_reads : Bool
  pub control_reads : Bool

abbrev pub call : Event → System → System
call e s = record s { calls = e ∷ s.calls }

-- The object before its first start.
abbrev pub idle : System
idle = record {
  vr_started = false;
  robot_started = false;
  hand_state_started = false;
  health_started = false;
  vla_started = false;
  nav_rx_started = false;
  record_ctl_started = false;
  planner_started = false;
  writer_started = false;
  hand_writer_started = false;
  token_pub_started = false;
  control_started = false;
  trace_started = false;
  calls = [];
}

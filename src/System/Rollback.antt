-- ===== src/System/Rollback.antt =====
-- What is left running after GearsonicInference.start and stop.
use gearsonic_inference.Common.{
  ℕ, Bool, true, false, ◌≡◌, List, [], ◌∷◌, if◌then◌else◌, arith, ◌==◌, ◌+◌, All, take, ◌<◌,
}
use gearsonic_inference.System.{
  Module, console, vr_reader, input_handler, teleop_tracker, state_reader, hand_state_reader,
  health_monitor, vla_receiver, nav_receiver, record_commander, planner, command_writer,
  hand_writer, token_publisher, state_trace, controller, Event, starts, fails, stops, System, call,
}
use gearsonic_inference.System.Stop.{
  stop_control, stop_trace, stop_token_pub, stop_hand_writer, stop_writer, stop_health,
  stop_hand_state, stop_planner, stop_record_ctl, stop_nav_rx, stop_vla, stop_vr_users, stop_robot,
  stop_vr, stop,
}

abbrev pub number : Module → ℕ
number console = 0
number vr_reader = 1
number input_handler = 2
number teleop_tracker = 3
number state_reader = 4
number hand_state_reader = 5
number health_monitor = 6
number vla_receiver = 7
number nav_receiver = 8
number record_commander = 9
number planner = 10
number command_writer = 11
number hand_writer = 12
number token_publisher = 13
number state_trace = 14
number controller = 15

-- Whether a module's last call, of those that did something, is a start; the newest call is first.
abbrev pub runs : Module → List Event → Bool
runs m [] = false
runs m (starts k ∷ es) = if number k == number m then true else runs m es
runs m (fails k ∷ es) = runs m es
runs m (stops k ∷ es) = if number k == number m then false else runs m es

-- Each flag says whether its module runs; vr_started says so of three.
pub record Matches (s : System) : Type 0 where
  pub controller_runs : runs controller s.calls ≡ s.control_started
  pub state_trace_runs : runs state_trace s.calls ≡ s.trace_started
  pub token_publisher_runs : runs token_publisher s.calls ≡ s.token_pub_started
  pub hand_writer_runs : runs hand_writer s.calls ≡ s.hand_writer_started
  pub command_writer_runs : runs command_writer s.calls ≡ s.writer_started
  pub health_monitor_runs : runs health_monitor s.calls ≡ s.health_started
  pub hand_state_reader_runs : runs hand_state_reader s.calls ≡ s.hand_state_started
  pub planner_runs : runs planner s.calls ≡ s.planner_started
  pub record_commander_runs : runs record_commander s.calls ≡ s.record_ctl_started
  pub nav_receiver_runs : runs nav_receiver s.calls ≡ s.nav_rx_started
  pub vla_receiver_runs : runs vla_receiver s.calls ≡ s.vla_started
  pub state_reader_runs : runs state_reader s.calls ≡ s.robot_started
  pub vr_reader_runs : runs vr_reader s.calls ≡ s.vr_started
  pub input_handler_runs : runs input_handler s.calls ≡ s.vr_started
  pub teleop_tracker_runs : runs teleop_tracker s.calls ≡ s.vr_started

-- The first n flags, in the order of `stop`, are down.
abbrev pub flags : System → List Bool
flags s =
    s.control_started ∷ s.trace_started ∷ s.token_pub_started ∷ s.hand_writer_started
    ∷ s.writer_started ∷ s.health_started ∷ s.hand_state_started ∷ s.planner_started
    ∷ s.record_ctl_started ∷ s.nav_rx_started ∷ s.vla_started ∷ []

abbrev Down : ℕ → System → Type 0
Down n s = All (λ b. b ≡ false) (take n (flags s))

abbrev Keeps : ℕ → (System → System) → Type 0
Keeps n step = (s : System) → Matches s → Down n s → Matches (step s) × Down (n + 1) (step s)

stop_control-Keeps : Keeps 0 stop_control
stop_control-Keeps s match down = ground arith

stop_trace-Keeps : Keeps 1 stop_trace
stop_trace-Keeps s match down = ground arith

stop_token_pub-Keeps : Keeps 2 stop_token_pub
stop_token_pub-Keeps s match down = ground arith

stop_hand_writer-Keeps : Keeps 3 stop_hand_writer
stop_hand_writer-Keeps s match down = ground arith

stop_writer-Keeps : Keeps 4 stop_writer
stop_writer-Keeps s match down = ground arith

stop_health-Keeps : Keeps 5 stop_health
stop_health-Keeps s match down = ground arith

stop_hand_state-Keeps : Keeps 6 stop_hand_state
stop_hand_state-Keeps s match down = ground arith

stop_planner-Keeps : Keeps 7 stop_planner
stop_planner-Keeps s match down = ground arith

stop_record_ctl-Keeps : Keeps 8 stop_record_ctl
stop_record_ctl-Keeps s match down = ground arith

stop_nav_rx-Keeps : Keeps 9 stop_nav_rx
stop_nav_rx-Keeps s match down = ground arith

stop_vla-Keeps : Keeps 10 stop_vla
stop_vla-Keeps s match down = ground arith

abbrev AllStopped : System → Type 0
AllStopped s = (m : Module) → 0 < number m → runs m s.calls ≡ false

-- Nothing runs, the console's copy aside, and all flags are down.
pub record IsIdle (s : System) : Type 0 where
  pub still : (m : Module) → 0 < number m → runs m s.calls ≡ false
  pub down : All (λ b. b ≡ false) (s.robot_started ∷ s.vr_started ∷ flags s)

last_stops-AllStopped :
    (s : System)
    → Matches s
    → Down 11 s
    → AllStopped (call (stops console) (stop_vr (stop_robot (stop_vr_users s))))
last_stops-AllStopped s match down console h = ground arith
last_stops-AllStopped s match down vr_reader _ = ground arith
last_stops-AllStopped s match down input_handler _ = ground arith
last_stops-AllStopped s match down teleop_tracker _ = ground arith
last_stops-AllStopped s match down state_reader _ = ground arith
last_stops-AllStopped s match down hand_state_reader _ = ground arith
last_stops-AllStopped s match down health_monitor _ = ground arith
last_stops-AllStopped s match down vla_receiver _ = ground arith
last_stops-AllStopped s match down nav_receiver _ = ground arith
last_stops-AllStopped s match down record_commander _ = ground arith
last_stops-AllStopped s match down planner _ = ground arith
last_stops-AllStopped s match down command_writer _ = ground arith
last_stops-AllStopped s match down hand_writer _ = ground arith
last_stops-AllStopped s match down token_publisher _ = ground arith
last_stops-AllStopped s match down state_trace _ = ground arith
last_stops-AllStopped s match down controller _ = ground arith

last_stops-Down :
    (s : System)
    → Down 11 s
    → let t = stop_vr (stop_robot (stop_vr_users s)) in
      All (λ b. b ≡ false) (t.robot_started ∷ t.vr_started ∷ flags t)
last_stops-Down s down = ground arith

-- After `stop` nothing runs.
pub stop-IsIdle : (s : System) → Matches s → IsIdle (stop s)
unfolding stop
stop-IsIdle s match =
    let k1 = stop_control-Keeps s match tt in
    let x1 = stop_control s in
    let k2 = stop_trace-Keeps x1 k1.0 k1.1 in
    let x2 = stop_trace x1 in
    let k3 = stop_token_pub-Keeps x2 k2.0 k2.1 in
    let x3 = stop_token_pub x2 in
    let k4 = stop_hand_writer-Keeps x3 k3.0 k3.1 in
    let x4 = stop_hand_writer x3 in
    let k5 = stop_writer-Keeps x4 k4.0 k4.1 in
    let x5 = stop_writer x4 in
    let k6 = stop_health-Keeps x5 k5.0 k5.1 in
    let x6 = stop_health x5 in
    let k7 = stop_hand_state-Keeps x6 k6.0 k6.1 in
    let x7 = stop_hand_state x6 in
    let k8 = stop_planner-Keeps x7 k7.0 k7.1 in
    let x8 = stop_planner x7 in
    let k9 = stop_record_ctl-Keeps x8 k8.0 k8.1 in
    let x9 = stop_record_ctl x8 in
    let k10 = stop_nav_rx-Keeps x9 k9.0 k9.1 in
    let x10 = stop_nav_rx x9 in
    let k11 = stop_vla-Keeps x10 k10.0 k10.1 in
    let x11 = stop_vla x10 in
    record { still = last_stops-AllStopped x11 k11.0 k11.1; down = last_stops-Down x11 k11.1 }

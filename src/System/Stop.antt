-- ===== src/System/Stop.antt =====
-- GearsonicInference.stop (src/system/gearsonic_inference.cpp), by its tests of the flags.
use gearsonic_inference.Common.{false, ◌∷◌, if◌then◌else◌}
use gearsonic_inference.System.{
  console, vr_reader, input_handler, teleop_tracker, state_reader, hand_state_reader,
  health_monitor, vla_receiver, nav_receiver, record_commander, planner, command_writer,
  hand_writer, token_publisher, state_trace, controller, stops, System, call,
}

-- The tests of `stop`, one to a module or group.
abbrev pub stop_control : System → System
stop_control s =
    if s.control_started
    then record s { control_started = false; calls = stops controller ∷ s.calls }
    else s

abbrev pub stop_trace : System → System
stop_trace s =
    if s.trace_started
    then record s { trace_started = false; calls = stops state_trace ∷ s.calls }
    else s

abbrev pub stop_token_pub : System → System
stop_token_pub s =
    if s.token_pub_started
    then record s { token_pub_started = false; calls = stops token_publisher ∷ s.calls }
    else s

abbrev pub stop_hand_writer : System → System
stop_hand_writer s =
    if s.hand_writer_started
    then record s { hand_writer_started = false; calls = stops hand_writer ∷ s.calls }
    else s

abbrev pub stop_writer : System → System
stop_writer s =
    if s.writer_started
    then record s { writer_started = false; calls = stops command_writer ∷ s.calls }
    else s

abbrev pub stop_health : System → System
stop_health s =
    if s.health_started
    then record s { health_started = false; calls = stops health_monitor ∷ s.calls }
    else s

abbrev pub stop_hand_state : System → System
stop_hand_state s =
    if s.hand_state_started
    then record s { hand_state_started = false; calls = stops hand_state_reader ∷ s.calls }
    else s

abbrev pub stop_planner : System → System
stop_planner s =
    if s.planner_started
    then record s { planner_started = false; calls = stops planner ∷ s.calls }
    else s

abbrev pub stop_record_ctl : System → System
stop_record_ctl s =
    if s.record_ctl_started
    then record s { record_ctl_started = false; calls = stops record_commander ∷ s.calls }
    else s

abbrev pub stop_nav_rx : System → System
stop_nav_rx s =
    if s.nav_rx_started
    then record s { nav_rx_started = false; calls = stops nav_receiver ∷ s.calls }
    else s

abbrev pub stop_vla : System → System
stop_vla s =
    if s.vla_started
    then record s { vla_started = false; calls = stops vla_receiver ∷ s.calls }
    else s

-- The users of the headset; its reader stops after the robot's, which clears the flag.
abbrev pub stop_vr_users : System → System
stop_vr_users s =
    if s.vr_started
    then record s { calls = stops input_handler ∷ stops teleop_tracker ∷ s.calls }
    else s

abbrev pub stop_robot : System → System
stop_robot s =
    if s.robot_started
    then record s { robot_started = false; calls = stops state_reader ∷ s.calls }
    else s

abbrev pub stop_vr : System → System
stop_vr s =
    if s.vr_started then record s { vr_started = false; calls = stops vr_reader ∷ s.calls } else s

unfoldable pub stop : System → System
stop s0 =
    let s1 = stop_control s0 in
    let s2 = stop_trace s1 in
    let s3 = stop_token_pub s2 in
    let s4 = stop_hand_writer s3 in
    let s5 = stop_writer s4 in
    let s6 = stop_health s5 in
    let s7 = stop_hand_state s6 in
    let s8 = stop_planner s7 in
    let s9 = stop_record_ctl s8 in
    let s10 = stop_nav_rx s9 in
    let s11 = stop_vla s10 in
    let s12 = stop_vr_users s11 in let s13 = stop_robot s12 in call (stops console) (stop_vr s13)

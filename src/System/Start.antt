-- ===== src/System/Start.antt =====
-- GearsonicInference.start (src/system/gearsonic_inference.cpp), with the rollback of a failed start.
use gearsonic_inference.Common.{true, false, not, ◌∷◌, if◌then◌else◌}
use gearsonic_inference.System.{
  Module, console, vr_reader, input_handler, teleop_tracker, state_reader, hand_state_reader,
  health_monitor, vla_receiver, nav_receiver, record_commander, planner, command_writer,
  hand_writer, token_publisher, state_trace, controller, starts, fails, System, Outcome, Ending,
  returned, thrown, call,
}
use gearsonic_inference.System.Stop.{stop}

-- A start that fails is rolled back.
unfoldable pub give_up : Module → System → Ending × System
unfolding stop
give_up m s = (returned false, stop (call (fails m) s))

-- A module that has started, with its flag.
abbrev pub mark_control : System → System
mark_control s = record s { control_started = true; calls = starts controller ∷ s.calls }

abbrev pub mark_trace : System → System
mark_trace s = record s { trace_started = true; calls = starts state_trace ∷ s.calls }

abbrev pub mark_writer : System → System
mark_writer s = record s { writer_started = true; calls = starts command_writer ∷ s.calls }

abbrev pub mark_hand_writer : System → System
mark_hand_writer s = record s { hand_writer_started = true; calls = starts hand_writer ∷ s.calls }

abbrev pub mark_token_pub : System → System
mark_token_pub s = record s { token_pub_started = true; calls = starts token_publisher ∷ s.calls }

abbrev pub mark_planner : System → System
mark_planner s = record s { planner_started = true; calls = starts planner ∷ s.calls }

abbrev pub mark_record : System → System
mark_record s = record s { record_ctl_started = true; calls = starts record_commander ∷ s.calls }

abbrev pub mark_robot : System → System
mark_robot s = record s { robot_started = true; calls = starts state_reader ∷ s.calls }

abbrev pub mark_hand_state : System → System
mark_hand_state s = record s {
  hand_state_started = true;
  calls = starts hand_state_reader ∷ s.calls;
}

abbrev pub mark_health : System → System
mark_health s = record s { health_started = true; calls = starts health_monitor ∷ s.calls }

abbrev pub mark_vla : System → System
mark_vla s = record s { vla_started = true; calls = starts vla_receiver ∷ s.calls }

abbrev pub mark_nav : System → System
mark_nav s = record s { nav_rx_started = true; calls = starts nav_receiver ∷ s.calls }

abbrev pub mark_vr : System → System
mark_vr s = record s {
  vr_started = true;
  calls = starts teleop_tracker ∷ starts input_handler ∷ starts vr_reader ∷ s.calls;
}

-- The parts of `start`, the later ones first. From the writer on the robot moves. An entry of the
-- configuration that cannot be read throws out of `start`, which catches nothing there.
unfoldable pub start_control : Outcome → System → Ending × System
unfolding give_up
start_control o s =
    if not o.control_reads
    then (thrown, s)
    else if o.control
    then (returned true, mark_control s)
    else give_up controller s

unfoldable pub start_trace : Outcome → System → Ending × System
unfolding start_control
start_trace o s =
    if not o.trace_reads
    then (thrown, s)
    else if not o.trace_on
    then start_control o s
    else if o.trace_starts
    then start_control o (mark_trace s)
    else start_control o (call (fails state_trace) s)

unfoldable pub start_actuation : Outcome → System → Ending × System
unfolding start_trace give_up
start_actuation o s =
    if not o.writer
    then give_up command_writer s
    else if not o.hand_reads
    then (thrown, mark_writer s)
    else if not o.hands
    then give_up hand_writer (mark_writer s)
    else if not o.token_pub
    then give_up token_publisher (mark_hand_writer (mark_writer s))
    else start_trace o (mark_token_pub (mark_hand_writer (mark_writer s)))

-- The wait for the robot's state, which a request to quit ends, and the planner.
unfoldable pub start_planner : Outcome → System → Ending × System
unfolding start_actuation give_up stop
start_planner o s =
    if not o.state_flows
    then (returned false, stop s)
    else if not o.planner_reads
    then (thrown, s)
    else if not o.planner_starts
    then give_up planner s
    else start_actuation o (mark_planner s)

unfoldable pub start_record : Outcome → System → Ending × System
unfolding start_planner
start_record o s =
    if not o.record_control_reads
    then (thrown, s)
    else if not o.record_on
    then start_planner o s
    else if o.record_starts
    then start_planner o (mark_record s)
    else start_planner o (call (fails record_commander) s)

-- From the hands' reader on, whose flag is up.
unfoldable pub start_intake : Outcome → System → Ending × System
unfolding start_record give_up
start_intake o s =
    if not o.motor_health_reads
    then (thrown, s)
    else if not o.vla
    then give_up vla_receiver (mark_health s)
    else if not o.nav
    then give_up nav_receiver (mark_vla (mark_health s))
    else start_record o (mark_nav (mark_vla (mark_health s)))

unfoldable pub start_robot : Outcome → System → Ending × System
unfolding start_intake give_up
start_robot o s =
    if not o.unitree_reads
    then (thrown, s)
    else if not o.robot
    then give_up state_reader s
    else if not o.hand_state
    then give_up hand_state_reader (mark_robot s)
    else start_intake o (mark_hand_state (mark_robot s))

-- The configuration and the headset: a failure returns at once, with no rollback.
unfoldable pub start : Outcome → System → Ending × System
unfolding start_robot
start o s =
    if not o.config_loads
    then (returned false, call (starts console) s)
    else if not o.vr
    then (returned false, call (fails vr_reader) (call (starts console) s))
    else start_robot o (mark_vr (call (starts console) s))

-- ===== src/System/Tests.antt =====
-- The theorems about GearsonicInference at concrete inputs.
use gearsonic_inference.Common.{true, false, ◌≡◌, refl, [], ◌∷◌}
use gearsonic_inference.System.{
  vr_reader, input_handler, teleop_tracker, state_reader, hand_state_reader, health_monitor,
  vla_receiver, nav_receiver, planner, command_writer, hand_writer, console, starts, fails, stops,
  Outcome, thrown, idle,
}
use gearsonic_inference.System.Start.{start, start_robot}

-- Everything starts but the hands; no recording.
abbrev no_hands : Outcome
no_hands = record {
  config_loads = true;
  vr = true;
  robot = true;
  hand_state = true;
  vla = true;
  nav = true;
  record_on = false;
  record_starts = true;
  state_flows = true;
  planner_starts = true;
  writer = true;
  hands = false;
  token_pub = true;
  trace_on = true;
  trace_starts = true;
  control = true;
  unitree_reads = true;
  motor_health_reads = true;
  record_control_reads = true;
  planner_reads = true;
  hand_reads = true;
  trace_reads = true;
  control_reads = true;
}

-- The calls of that start, the newest first.
rolled_back :
    (start no_hands idle).1.calls
    ≡ stops console
      ∷ stops vr_reader
      ∷ stops state_reader
      ∷ stops input_handler
      ∷ stops teleop_tracker
      ∷ stops vla_receiver
      ∷ stops nav_receiver
      ∷ stops planner
      ∷ stops hand_state_reader
      ∷ stops health_monitor
      ∷ stops command_writer
      ∷ fails hand_writer
      ∷ starts command_writer
      ∷ starts planner
      ∷ starts nav_receiver
      ∷ starts vla_receiver
      ∷ starts health_monitor
      ∷ starts hand_state_reader
      ∷ starts state_reader
      ∷ starts teleop_tracker
      ∷ starts input_handler
      ∷ starts vr_reader
      ∷ starts console
      ∷ []
unfolding start
rolled_back = refl

-- Without the entries under `unitree`, the headset's three modules are left running.
left_running : start (record no_hands { unitree_reads = false }) idle ≡ (
  thrown,
  record idle {
    vr_started = true;
    calls = starts teleop_tracker ∷ starts input_handler ∷ starts vr_reader ∷ starts console ∷ [];
  },
)
unfolding start start_robot
left_running = refl

-- ===== src/Lib.antt =====
-- gearsonic-inference: the onboard inference process of a Unitree G1 humanoid. Threads at 500,
-- 100 and 50 Hz hand values on through newest-value buffers: the VR controllers' state goes to
-- InputHandler (500 Hz), its movement command to the planner, the planner's motion to
-- WholeBodyController (50 Hz), which runs ControlArbiter, the token encoder and the policy
-- decoder, and its motor command to the writer (500 Hz). TeleopTracker (50 Hz) makes three
-- points or a window of poses from the operator's body. RecordCommander turns InputHandler's
-- taps into recording commands. This library models the control path, the hands, the operator's
-- inputs, the motor health rules, the robot's link and the start order.
--
-- Parts and files:
-- - Common, with Tests, Lists, Int, Float, Quaternion and Rotation: shared names; numbers,
--   lists, the parameter for floating-point arithmetic (Float, Machine), and the functions of
--   include/common/math_utils.hpp.
-- - Robot.Params, Robot.JointOrder: include/common/robot_params.hpp and
--   include/common/joint_order.hpp.
-- - Pico: include/pico/pico_vr_controller.hpp.
-- - Motion.HoldTrigger, Motion.TapDetector: the gestures of include/motion/input_handler.hpp and
--   include/motion/tap_detector.hpp.
-- - Motion.Handler, Motion.Locomotion, Motion.InputHandler: the body of InputHandler::loop
--   (src/motion/input_handler.cpp), as button_step, movement_step and tick.
-- - Collector.RecordControl: include/collector/record_control.hpp and
--   src/collector/record_commander.cpp; a message sent is an element of the list `sent`.
-- - Collector.TokenPublisher: src/collector/motion_token_publisher.cpp, with the turns of its
--   loop.
-- - Planner.Resample, Planner.Replan, Planner.Context, Planner.Inference:
--   src/planner/planner_inference.cpp, with resample, need_replan, update_context and
--   `plan_turn`, one turn of PlannerInference::loop.
-- - Hands.Command, Hands.Guard, Hands.Writer, Hands.Message: include/unitree/hand_command.hpp,
--   include/unitree/hand_guard.hpp and src/unitree/hand_command_writer.cpp, with from_axes,
--   apply, and `turn`, one turn of HandCommandWriter::loop.
-- - Control.Arbiter: include/control/control_arbiter.hpp, with decide, step_mode, select_token.
-- - Control.StateLogger: include/control/state_logger.hpp, with log and get_latest.
-- - Control.Playback, Control.Commands, Control.WholeBody, Control.WholeBody.Loop:
--   src/control/whole_body_controller.cpp: advance_playback, the commands made without the
--   policy, the parts of a CONTROL tick, and `turn`, one turn of WholeBodyController::loop.
-- - Control.Encoder, Control.Decoder, Control.Buffer: src/control/token_encoder.cpp and
--   src/control/policy_decoder.cpp, with fill_obs and step of both; the writes into the
--   networks' inputs.
-- - Teleop.Tracker with Gestures and Round, Teleop.Calibration, Teleop.Body, Teleop.Pose:
--   src/teleop/teleop_tracker.cpp, with the gestures and `tick`, one round of
--   TeleopTracker::loop; the three points; the body and the poses.
-- - Teleop.Resampler, Teleop.Ring: include/teleop/smpl_resampler.hpp, and what the rings of the
--   resampler and the tracker have in common.
-- - Teleop.SmplFk, Teleop.Matrix, Teleop.Skeleton, Teleop.ArmReach, Teleop.ArmFk:
--   src/teleop/smpl_fk.cpp, include/teleop/smpl_skeleton.hpp, src/teleop/smpl_arm_reach.cpp and
--   src/teleop/g1_arm_fk.cpp.
-- - Channels.DataBuffer, Channels.EventQueue, Channels.Receivers:
--   include/common/data_buffer.hpp, include/common/event_queue.hpp,
--   src/vla/vla_token_receiver.cpp and src/motion/nav_cmd_receiver.cpp.
-- - Health, Health.Body, Health.Step, Health.Monitor: include/unitree/motor_health_rules.hpp and
--   src/unitree/motor_health_monitor.cpp, with step_body_motor, step_hand, step and the
--   monitor's loop; a line of its log is a value of Line.
-- - Wire.Checksum, Wire.Writer, Wire.Reader: include/unitree/crc32.hpp,
--   src/unitree/unitree_command_writer.cpp and src/unitree/unitree_state_reader.cpp, with
--   crc32_core, publish, send_damping, on_lowstate_update and watch.
-- - System, with Stop and Start: src/system/gearsonic_inference.cpp, with start and stop over
--   the modules' results and the configuration's exceptions.
--
-- State and steps: a class is a record of its fields, a method a function to the new record.
-- Each modelled class has one writing thread, so that a turn of its loop is one step; what other
-- threads write (the stop, the buffers, the planner's acknowledgement, disarm) enters as an
-- argument that can differ at each step: `Readings` of WholeBody, `Event` of
-- Motion.InputHandler.Estop, `Reads` of Teleop.Tracker. `none` stands for a null pointer; a
-- turn's result `none` is a read through one. What a turn asks of other modules is its list of
-- `Effect`s.
--
-- Numbers: counters are natural numbers. The int counters that grow without bound in the code
-- (the e-stop's hold count, the missing ticks) are not wrapped; at their rates they reach 2 ^ 31
-- after weeks. The uint64 sequence numbers and tickets wrap. float and double are the fields of
-- a Machine parameter with no laws; a theorem that needs a law takes it as a hypothesis. The
-- examples use fixed-point thousandths.
--
-- Loops: every loop of a modelled method is over a list or counts down, so that no fuel is used.
--
-- Outside: the ONNX engines (the results of planner, encoder and decoder are readings), DDS, the
-- VR SDK, YAML, console and trace output, thread priorities and clocks (an age is an argument).
-- Not modelled: the hand state reader, the VR reader and the state trace.
pub mod Common
pub mod Robot
pub mod Pico
pub mod Collector
pub mod Motion
pub mod Control
pub mod Planner
pub mod Channels
pub mod Hands
pub mod Health
pub mod System
pub mod Teleop
pub mod Wire

-- ===== src/Collector/RecordControl.antt =====
-- include/collector/record_control.hpp and RecordCommander of src/collector/record_commander.cpp:
-- the tap gestures as recording commands, and the local mirror of the collector's state.
pub mod Session
mod Tests
use gearsonic_inference.Common.{
  ℕ, suc, ◌+◌, ◌%◌, Bool, true, false, List, [], ◌∷◌, if◌then◌else◌, ◌==◌, not, ◌^◌,
}

pub data RecordAction : Type 0 where
  do_nothing start stop label_success label_fail label_partial : RecordAction

pub data RecordState : Type 0 where
  idle recording awaiting_label unknown : RecordState

pub data TapButton : Type 0 where
  a_button b_button : TapButton

pub data TapKind : Type 0 where
  single double triple : TapKind

-- The enumerators' values, which go on the wire.
unfoldable pub action_code : RecordAction → ℕ
action_code do_nothing = 0
action_code start = 1
action_code stop = 2
action_code label_success = 3
action_code label_fail = 4
action_code label_partial = 5

is_recording : RecordState → Bool
is_recording recording = true
is_recording _ = false

known : RecordState → RecordState
known unknown = idle
known s = s

decide_label : RecordState → TapKind → RecordAction
decide_label awaiting_label single = label_success
decide_label awaiting_label double = label_fail
decide_label awaiting_label triple = label_partial
decide_label _ _ = do_nothing

decide_b : RecordState → TapKind → RecordAction
unfolding is_recording
decide_b s single = if is_recording s then do_nothing else start
decide_b s double = if is_recording s then stop else do_nothing
decide_b s triple = do_nothing

decide_known : RecordState → TapButton → TapKind → RecordAction
unfolding decide_b decide_label
decide_known s b_button kind = decide_b s kind
decide_known s a_button kind = decide_label s kind

unfoldable pub record_decide : RecordState → TapButton → TapKind → RecordAction
unfolding decide_known known
record_decide s button kind = decide_known (known s) button kind

unfoldable pub record_next_state : RecordState → RecordAction → RecordState
record_next_state s start = recording
record_next_state s stop = awaiting_label
record_next_state s label_success = idle
record_next_state s label_fail = idle
record_next_state s label_partial = idle
record_next_state s do_nothing = s

-- RecordCommander. `has_publisher` is the non-null `pub_`, `sent` the messages written, newest
-- first, as pairs of sequence number and action; their time stamps are left out.
pub record Commander : Type 0 where
  pub started : Bool
  pub has_publisher : Bool
  pub assumed : RecordState
  pub seq : ℕ  -- uint64
  pub sent : List (ℕ × RecordAction)

unfoldable pub publish : Commander → RecordAction → Commander
publish c action =
    let n = (c.seq + 1) % 2 ^ 64 in
    if c.has_publisher then record c { seq = n; sent = (n, action) ∷ c.sent } else c

unfoldable pub on_tap : Commander → TapButton → TapKind → Commander
unfolding publish action_code
on_tap c button kind =
    let action = record_decide c.assumed button kind in
    if not c.started
    then c
    else if action_code action == 0
    then c
    else record (publish c action) { assumed = record_next_state c.assumed action }

-- `start` with a publisher that DDS gives or refuses, and `stop`. A commander that was started and
-- stopped keeps its sequence number.
unfoldable pub start_commander : Commander → Bool → Commander × Bool
start_commander c true = (record c { has_publisher = true; assumed = idle; started = true }, true)
start_commander c false = (record c { has_publisher = false }, false)

unfoldable pub stop_commander : Commander → Commander
stop_commander c = record c { started = false; has_publisher = false }

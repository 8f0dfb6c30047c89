-- ===== src/Collector/RecordControl/Session.antt =====
-- What the collector is told, over every sequence of taps.
use gearsonic_inference.Common.{
  ℕ, ◌+◌, ◌%◌, ◌^◌, true, false, ◌≡◌, refl, ◌⊎◌, inl, inr, ◌≢◌, List, [], ◌∷◌, arith, length,
  Bool-cases, ◌==◌, subst,
}
use gearsonic_inference.Collector.RecordControl.{
  RecordAction, do_nothing, start, stop, label_success, label_fail, label_partial, RecordState,
  idle, recording, awaiting_label, unknown, TapButton, TapKind, action_code, record_decide,
  record_next_state, Commander, on_tap, start_commander,
}

-- What a collector can do with a command: the state that the command needs, and the state after.
pub data Accepts : RecordState → RecordAction → RecordState → Type 0 where
  from_idle : Accepts idle start recording
  drop_label : Accepts awaiting_label start recording
  finish : Accepts recording stop awaiting_label
  success : Accepts awaiting_label label_success idle
  failure : Accepts awaiting_label label_fail idle
  partial : Accepts awaiting_label label_partial idle

ruleset moves = (from_idle, drop_label, finish, success, failure, partial)

-- The messages sent so far, newest first, lead a collector that starts idle to a state, and it
-- accepts each of them; they are numbered from 1 on, modulo 2 ^ 64.
pub data Session : List (ℕ × RecordAction) → RecordState → Type 0 where
  opened : Session [] idle
  sent :
      {log : List (ℕ × RecordAction)} {s t : RecordState} (action : RecordAction)
      → Session log s
      → Accepts s action t
      → Session (((length log + 1) % 2 ^ 64, action) ∷ log) t

pub record InStep (c : Commander) : Type 0 where
  pub on : c.started ≡ true
  pub publisher : c.has_publisher ≡ true
  pub session : Session c.sent c.assumed
  pub numbered : c.seq ≡ length c.sent % 2 ^ 64

abbrev pub IsKnown : RecordState → Type 0
IsKnown s = s ≢ unknown

Session-IsKnown : {log : List (ℕ × RecordAction)} {s : RecordState} → Session log s → IsKnown s
Session-IsKnown opened e = cc
Session-IsKnown (sent action h from_idle) e = cc
Session-IsKnown (sent action h drop_label) e = cc
Session-IsKnown (sent action h finish) e = cc
Session-IsKnown (sent action h success) e = cc
Session-IsKnown (sent action h failure) e = cc
Session-IsKnown (sent action h partial) e = cc

decide-Accepts :
    (s : RecordState) (button : TapButton) (kind : TapKind)
    → IsKnown s
    → (record_decide s button kind ≡ do_nothing)
      ⊎ Accepts s (record_decide s button kind) (record_next_state s (record_decide s button kind))
unfolding record_decide record_next_state
decide-Accepts s button kind known = grind (arith, moves)

code_pos : (action : RecordAction) → action ≢ do_nothing → (action_code action == 0) ≡ false
unfolding action_code
code_pos action ne = ground arith

ignored :
    (c : Commander) (button : TapButton) (kind : TapKind)
    → record_decide c.assumed button kind ≡ do_nothing
    → on_tap c button kind ≡ c
unfolding on_tap
ignored c button kind e = ground arith

taken :
    (c : Commander) (button : TapButton) (kind : TapKind)
    → InStep c
    → record_decide c.assumed button kind ≢ do_nothing
    → on_tap c button kind ≡ record c {
      seq = (c.seq + 1) % 2 ^ 64;
      sent = ((c.seq + 1) % 2 ^ 64, record_decide c.assumed button kind) ∷ c.sent;
      assumed = record_next_state c.assumed (record_decide c.assumed button kind);
    }
unfolding on_tap
taken c button kind v ne = ground (arith, code_pos (record_decide c.assumed button kind))

extend :
    (c : Commander) (action : RecordAction)
    → InStep c
    → Accepts c.assumed action (record_next_state c.assumed action)
    → InStep (record c {
      seq = (c.seq + 1) % 2 ^ 64;
      sent = ((c.seq + 1) % 2 ^ 64, action) ∷ c.sent;
      assumed = record_next_state c.assumed action;
    })
extend c action v ok =
    let n : (length c.sent + 1) % 2 ^ 64 ≡ (c.seq + 1) % 2 ^ 64 = omega (arith, v.numbered) in
    record {
      on = v.on;
      publisher = v.publisher;
      session =
          subst (λ k. Session ((k, action) ∷ c.sent) (record_next_state c.assumed action)) n
            (sent action v.session ok);
      numbered = omega (arith, n);
    }

code_zero : (action : RecordAction) → (action_code action == 0) ≡ true → action ≡ do_nothing
unfolding action_code
code_zero action e = ground arith

nonzero_code : (action : RecordAction) → (action_code action == 0) ≡ false → action ≢ do_nothing
unfolding action_code
nonzero_code action e = λ h. ground arith

on_tap-InStep :
    (c : Commander) (button : TapButton) (kind : TapKind) → InStep c → InStep (on_tap c button kind)
on_tap-InStep c button kind v =
    let action = record_decide c.assumed button kind in
    elim (Bool-cases (action_code action == 0)) [
      | inl zero_code ↦ rw (ignored c button kind (code_zero action zero_code)) v
      | inr code ↦ elim (decide-Accepts c.assumed button kind (Session-IsKnown v.session)) [
        | inl e ↦ rw (ignored c button kind e) v
        | inr ok ↦ rw (taken c button kind v (nonzero_code action code)) (extend c action v ok)
      ]
    ]

-- The taps of a session, in order.
pub on_taps : Commander → List (TapButton × TapKind) → Commander
on_taps c [] = c
on_taps c ((button, kind) ∷ rest) = on_taps (on_tap c button kind) rest

on_taps-InStep :
    (c : Commander) (taps : List (TapButton × TapKind)) → InStep c → InStep (on_taps c taps)
unfolding on_taps
on_taps-InStep c [] v = v
on_taps-InStep c ((button, kind) ∷ rest) v =
    on_taps-InStep (on_tap c button kind) rest (on_tap-InStep c button kind v)

-- The first start of a commander.
abbrev pub IsNew : Commander → Type 0
IsNew c = (c.seq ≡ 0) × (c.sent ≡ [])

-- After the first start, whatever taps arrive: a collector that starts idle accepts every command
-- that was sent, in order, the mirror is the state that they lead to, and the commands carry
-- consecutive numbers.
pub start_commander-InStep :
    (c : Commander) (taps : List (TapButton × TapKind))
    → IsNew c
    → InStep (on_taps (start_commander c true).0 taps)
start_commander-InStep c taps new = on_taps-InStep (start_commander c true).0 taps start_in_step
  where
    start_in_step : InStep (start_commander c true).0
    start_in_step =
        unfold start_commander in
        record {
          on = refl;
          publisher = refl;
          session = rw new.1 opened;
          numbered = rw new.1 (omega (arith, new.0));
        }

-- ===== src/Control/WholeBody/Tests.antt =====
-- WholeBodyController's loop at concrete inputs, in thousandths.
use gearsonic_inference.Common.{
  ℕ, zero, suc, Bool, true, false, ◌≡◌, refl, none, some, [], ◌∷◌, All, replicate, arith,
}
use gearsonic_inference.Common.Float.{milli_machine}
use gearsonic_inference.Robot.Params.{kps, kds}
use gearsonic_inference.Control.Arbiter.Blend.{init-IsValid}
use gearsonic_inference.Control.Arbiter
use gearsonic_inference.Control.StateLogger.{new}
use gearsonic_inference.Control.StateLogger.History.{new-Keeps}
use gearsonic_inference.Control.Playback.{start_over}
use gearsonic_inference.Control.Playback.Timeline.{start_over-IsTimeline}
use gearsonic_inference.Control.Commands.{no_command}
use gearsonic_inference.Control.WholeBody.{
  State, wait_for_control, control, Entry, Readings, Controller, blank_entry,
}
use gearsonic_inference.Control.WholeBody.Loop.{turns}
use gearsonic_inference.Control.WholeBody.Gates.{Stopped, estop_is_final}
use gearsonic_inference.Control.WholeBody.Parts.{IsHealthy, IsSupplied}
use gearsonic_inference.Control.WholeBody.Totality.{turns_total}
use gearsonic_inference.Control.WholeBody.Loss.{Misses, held, loss_holds}
use gearsonic_inference.Control.WholeBody.Reseed.{IsWaiting, reseed_waits}

abbrev R32 : Type 0
R32 = milli_machine.f32.Real

abbrev R64 : Type 0
R64 = milli_machine.f64.Real

-- The controller in a state, with a command out, after some turns without the robot's state.
abbrev controller : State → ℕ → Controller R32 R64
controller s missing = record {
  state = s;
  auto_start = false;
  arbiter = Arbiter.init milli_machine.f32;
  playback = start_over R64;
  logger = new (Entry R64) (blank_entry milli_machine) 100;
  last_action = [];
  init_count = 0;
  missing = missing;
  base_ramp_from = no_command milli_machine;
  state_ticket = 0;
  ticket_issued = false;
  ticket = 0;
  requested = 6;
  last_vr3 = false;
  last_smpl = false;
  token_seq = 0;
  command = some (no_command milli_machine);
  sample = none;
}

-- The stop held or not, the robot's state fresh or not, nothing from the others.
abbrev reading : Bool → Bool → Readings R32 R64
reading estop fresh = record {
  estop = estop;
  state_fresh = fresh;
  robot = none;
  operator_start = true;
  reinit_done = 6;
  plan = none;
  vla = none;
  vla_fresh = false;
  vla_alive = false;
  calibrated = false;
  vr3_present = false;
  smpl_present = false;
  encoded = none;
  decode = λ _. none;
}

estop_is_final_example :
    (w' : Controller R32 R64) × (turns milli_machine
        (controller control 0)
        (reading true true ∷ reading true false ∷ [])
      ≡ some w')
    × Stopped milli_machine w'
estop_is_final_example =
    estop_is_final milli_machine (controller control 0) (reading true true)
      (reading true false ∷ []) (refl, (refl, tt))

controller-IsHealthy : (s : State) (n : ℕ) → IsHealthy milli_machine (controller s n)
controller-IsHealthy s n = record {
  arbiter_is = init-IsValid milli_machine.f32;
  playback_is = start_over-IsTimeline milli_machine.f64;
  logger_is = ([], new-Keeps (Entry R64) (blank_entry milli_machine) 100 (omega arith));
  sample_dim = λ s e. absurd (ground arith);
}

reading-IsSupplied : (estop fresh : Bool) → IsSupplied milli_machine (reading estop fresh)
reading-IsSupplied estop fresh = record {
  vla_dim = λ t e. absurd (ground arith);
  encoded_dim = λ t e. absurd (ground arith);
  planned = tt;
}

turns_total_example :
    (w' : Controller R32 R64) × (turns milli_machine
        (controller wait_for_control 0)
        (reading false true ∷ reading false false ∷ reading false true ∷ [])
      ≡ some w')
    × IsHealthy milli_machine w'
turns_total_example =
    turns_total milli_machine (controller wait_for_control 0)
      (reading false true ∷ reading false false ∷ reading false true ∷ [])
      (controller-IsHealthy wait_for_control 0)
      (
        reading-IsSupplied false true,
        (reading-IsSupplied false false, (reading-IsSupplied false true, tt)),
      )

replicate-Misses : (n : ℕ) → All (Misses milli_machine) (replicate n (reading false false))
replicate-Misses zero = tt
replicate-Misses (suc n) = ((refl, refl), replicate-Misses n)

-- Thirty turns: five beyond the grace.
loss_holds_example :
    (w' : Controller R32 R64) × (turns milli_machine
        (controller control 0)
        (replicate 30 (reading false false))
      ≡ some w')
    × (w'.command ≡ some (held milli_machine (no_command milli_machine) 30))
    × ((held milli_machine (no_command milli_machine) 30).kp ≡ kps milli_machine)
    × ((held milli_machine (no_command milli_machine) 30).kd ≡ kds milli_machine)
    × (w'.missing ≡ 30)
    × (w'.state ≡ control)
    × (w'.playback ≡ start_over R64)
loss_holds_example =
    loss_holds milli_machine (controller control 0) (no_command milli_machine)
      (replicate 30 (reading false false)) refl refl (replicate-Misses 30)

reseed_waits_example :
    (w' : Controller R32 R64) × (turns milli_machine
        (controller control 26)
        (reading false true ∷ reading false true ∷ [])
      ≡ some w')
    × IsWaiting milli_machine (some (no_command milli_machine)) 7 w'
reseed_waits_example =
    reseed_waits milli_machine (controller control 26) (reading false true)
      (reading false true ∷ []) refl (omega arith) (omega arith)
      ((refl, refl, omega arith), ((refl, refl, omega arith), tt))

-- ===== src/Collector/RecordControl/Tests.antt =====
-- RecordCommander over one session.
use gearsonic_inference.Common.{refl, true, false, [], ◌∷◌}
use gearsonic_inference.Collector.RecordControl.{
  idle, a_button, b_button, single, double, Commander, start_commander,
}
use gearsonic_inference.Collector.RecordControl.Session.{InStep, on_taps, start_commander-InStep}

abbrev unused : Commander
unused = record { started = false; has_publisher = false; assumed = idle; seq = 0; sent = [] }

-- A stop that is refused, a start, a stop and a label.
start_commander-InStep_example : InStep (
    on_taps
      (start_commander unused true).0
      ((b_button, double) ∷ (b_button, single) ∷ (b_button, double) ∷ (a_button, single) ∷ []))
start_commander-InStep_example =
    start_commander-InStep unused
      ((b_button, double) ∷ (b_button, single) ∷ (b_button, double) ∷ (a_button, single) ∷ [])
      (refl, refl)

-- ===== src/Motion/HoldTrigger/Tests.antt =====
-- HoldTrigger at concrete inputs.
use gearsonic_inference.Common.{
  ◌≡◌, true, false, none, some, ◌∷◌, replicate, get_elem?, if◌then◌else◌, ltb, ◌==◌,
}
use gearsonic_inference.Motion.HoldTrigger.{HoldTrigger, outputs, fires_once_at_threshold}

abbrev halfway : HoldTrigger
halfway = record { ticks = 7; fired = false }

fires_once_at_threshold_example :
    get_elem? (outputs halfway 15 (false ∷ replicate 20 true)) 15
    ≡ (if ltb 14 20 then some (14 == 14) else none)
fires_once_at_threshold_example = fires_once_at_threshold halfway 14 20 14

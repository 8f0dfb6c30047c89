-- ===== src/Motion/TapDetector/Tests.antt =====
-- TapDetector at concrete inputs, in thousandths of a second.
use gearsonic_inference.Common.{
  ℕ, ◌+◌, ◌≤◌, zero, suc, ◌*◌, ◌≡◌, refl, Bool, true, false, List, [], ◌∷◌, ◌++◌, replicate, arith,
  ap, ◌∙◌,
}
use gearsonic_inference.Common.Float.{milli, nil}
use gearsonic_inference.Common.Int.{pos, sub_ℕ}
use gearsonic_inference.Collector.RecordControl.{TapKind, single, double, triple}
use gearsonic_inference.Motion.TapDetector.{TapDetector, fresh, double_gap_s}
use gearsonic_inference.Motion.TapDetector.Taps.{IsValid, run}
use gearsonic_inference.Motion.TapDetector.Strokes.{
  taps_recognised, stroke, elapsed, state, up, IsOpen, IsShort,
}

-- 2 ms.
abbrev tick_length : milli.Real
tick_length = milli.ratio 2 1000

fresh-IsValid : IsValid milli.Real (fresh milli)
fresh-IsValid = record {
  count_capped = omega arith;
  pending_counts = λ e. absurd (ground arith);
  pending_up = λ e. refl;
  void_empty = λ e. (refl, refl);
}

-- The button has just come up after two taps and a third short press.
abbrev third : TapDetector milli.Real
third = record {
  was_pressed = true;
  pending = false;
  is_void = false;
  count = 2;
  press_s = nil milli;
  since_release_s = nil milli;
}

elapsed_millis : (n : ℕ) → unfold milli in elapsed milli tick_length n ≡ pos (2 * n)
unfolding milli
elapsed_millis zero = refl
elapsed_millis (suc n) =
    let next : sub_ℕ (2 * n + 2) (0 + 0) ≡ pos (2 * suc n) = ground arith in
    ap (λ t. milli.add t tick_length) (elapsed_millis n) ∙ next

window_open :
    (n : ℕ) → n ≤ 175 → milli.lt (double_gap_s milli) (elapsed milli tick_length n) ≡ false
unfolding milli
window_open n h = rw (elapsed_millis n) (ground arith)

-- The window of 350 ms is open for 175 ticks.
elapsed-IsOpen : (n : ℕ) → n ≤ 175 → IsOpen milli tick_length n
unfolding milli
elapsed-IsOpen n h =
    ((λ j below. window_open j (omega arith)), rw (elapsed_millis n) (ground arith))

short : IsShort milli tick_length 20
unfolding milli
short = refl

over : milli.lt (double_gap_s milli) (elapsed milli tick_length 176) ≡ true
unfolding milli
over = refl

abbrev ticks : ℕ → List (Bool × Bool) → List (Bool × Bool)
ticks n rest = replicate n (up milli tick_length) ++ rest

abbrev taps : List (Bool × Bool) → List (Bool × Bool)
taps rest = stroke milli tick_length 20 rest

abbrev events : List (Bool × Bool) → List TapKind
events given =
    (run milli (state milli tick_length false false 0 (nil milli) (nil milli)) tick_length given).1

-- Presses of 20 ticks, 100 ticks apart.
taps_recognised_example :
    (events (taps (ticks 175 (ticks 1 []))) ≡ single ∷ [])
    × (events (taps (ticks 100 (taps (ticks 175 (ticks 1 []))))) ≡ double ∷ [])
    × (events (taps (ticks 100 (taps (ticks 175 (taps []))))) ≡ triple ∷ [])
taps_recognised_example =
    taps_recognised milli tick_length 0 20 20 20 100 175 (nil milli) (nil milli) short short short
      (elapsed-IsOpen 100 (omega arith)) (elapsed-IsOpen 175 (omega arith)) over

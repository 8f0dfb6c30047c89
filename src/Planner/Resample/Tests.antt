-- ===== src/Planner/Resample/Tests.antt =====
-- The resampling in fixed-point thousandths.
use gearsonic_inference.Common.{
  ℕ, Bool, true, leb, leb→le, sweep, sweep_reaches, ◌*◌, ◌≤◌, ◌<◌, ◌≡◌, refl, some, List, replicate,
  arith,
}
use gearsonic_inference.Common.Float.{milli_machine, milli, nil}
use gearsonic_inference.Control.Playback.Timeline.{IsPlanned}
use gearsonic_inference.Planner.Resample.{
  first_frame, second_frame, frames_at_50hz, refuses, resampled, resample, any_nan, rows_nan,
}
use gearsonic_inference.Planner.Resample.Bounds.{RoundsBelow, resample-IsPlanned, reads_inside}

-- Three rows of zeros.
abbrev rows : List (List milli_machine.f32.Real)
rows = replicate 3 (replicate 36 (nil milli_machine.f32))

accepted : resample milli_machine rows 3 ≡ some (resampled milli_machine rows 3)
unfolding milli_machine milli resample refuses rows_nan any_nan frames_at_50hz
accepted = refl

resample-IsPlanned_example :
    IsPlanned milli_machine.f64.Real (resampled milli_machine rows 3)
    × (2 ≤ (resampled milli_machine rows 3).timesteps)
resample-IsPlanned_example =
    resample-IsPlanned milli_machine rows 3 (resampled milli_machine rows 3) accepted

index_test : ℕ → Bool
index_test i =
    leb
      (5
        * milli.floor_nat
            (milli.mul (milli.div (milli.ratio i 1) (milli.ratio 50 1)) (milli.ratio 30 1)))
      (3 * i)

index_table : sweep index_test 107 0 ≡ true
unfolding milli sweep index_test
index_table = refl

length_test : ℕ → Bool
length_test n =
    leb
      (3
        * milli.floor_nat
            (milli.mul (milli.div (milli.ratio n 1) (milli.ratio 30 1)) (milli.ratio 50 1)))
      (5 * n)

length_table : sweep length_test 65 0 ≡ true
unfolding milli sweep length_test
length_table = refl

rounds : RoundsBelow milli_machine
unfolding index_test length_test milli_machine
rounds = record {
  index_below =
      λ i h. leb→le _ _ (sweep_reaches index_test 107 0 i (omega arith) (omega arith) index_table);
  length_below =
      λ n h. leb→le _ _ (sweep_reaches length_test 65 0 n (omega arith) (omega arith) length_table);
}

-- The last of the five frames.
reads_inside_example : (first_frame milli_machine 4 < 3) × (second_frame milli_machine 3 4 < 3)
unfolding milli_machine milli resampled frames_at_50hz
reads_inside_example =
    reads_inside milli_machine rounds rows 3 4 (resampled milli_machine rows 3) accepted
      (omega arith)

-- ===== src/Teleop/Resampler/Tests.antt =====
-- SmplResampler on three samples and a reset, in thousandths.
use gearsonic_inference.Common.{◌≡◌, List, [], ◌∷◌, take}
use gearsonic_inference.Common.Float.{milli}
use gearsonic_inference.Teleop.Resampler.{
  ring_slots, default_params, blank_pose, new, delay, sample,
}
use gearsonic_inference.Teleop.Resampler.Kept.{IsDescending}
use gearsonic_inference.Teleop.Resampler.Samples.{
  Call, pushes, resets, interpolate, run, heard, sample_interpolates,
}

-- A sample, a reset, and samples 33 ms apart, of which the last is received twice.
abbrev calls : List (Call milli.Real)
calls =
    pushes (blank_pose milli) 1_000_000
    ∷ resets
    ∷ pushes (blank_pose milli) 20_000_000
    ∷ pushes (blank_pose milli) 53_000_000
    ∷ pushes (blank_pose milli) 53_000_000
    ∷ []

sample_interpolates_example :
    (sample milli (run milli (new milli (default_params milli)) calls) 73_000_000
      ≡ interpolate milli 73_000_000
          (delay milli (run milli (new milli (default_params milli)) calls))
          (take ring_slots (heard milli [] calls)))
    × IsDescending (heard milli [] calls)
sample_interpolates_example = sample_interpolates milli (default_params milli) calls 73_000_000

-- ===== src/Control/Encoder/Tests.antt =====
-- TokenEncoder's observation of a motion of one frame, in thousandths.
use gearsonic_inference.Common.{[], ◌∷◌, replicate}
use gearsonic_inference.Common.Float.{Machine, milli_machine, nil}
use gearsonic_inference.Control.Playback.{Motion, blank}
use gearsonic_inference.Control.StateLogger.{StateLogger, new}
use gearsonic_inference.Control.WholeBody.{Entry, blank_entry}
use gearsonic_inference.Teleop.Pose.{Vr3Point}

abbrev m : Machine
m = milli_machine

abbrev motion : Motion m.f64.Real
motion = record { frames = blank m.f64 ∷ []; timesteps = 1; gen_frame = 0 }

abbrev logger : StateLogger (Entry m.f64.Real)
logger = new (Entry m.f64.Real) (blank_entry m) 100

abbrev point : Vr3Point m.f64.Real
point = record { position = replicate 9 (nil m.f64); orientation = replicate 12 (nil m.f64) }

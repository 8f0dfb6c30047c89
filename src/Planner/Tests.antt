-- ===== src/Planner/Tests.antt =====
-- The planner's loop at concrete inputs, in thousandths.
use gearsonic_inference.Common.{
  ◌<◌, true, ◌≡◌, refl, Option, none, some, List, [], ◌∷◌, replicate, arith,
}
use gearsonic_inference.Common.Float.{milli_machine, milli, nil}
use gearsonic_inference.Control.Playback.{Motion, blank}
use gearsonic_inference.Control.Playback.Timeline.{IsPlanned}
use gearsonic_inference.Planner.Resample.{
  resample, resampled, refuses, rows_nan, any_nan, frames_at_50hz,
}
use gearsonic_inference.Planner.Replan.Timer.{IsProper}
use gearsonic_inference.Planner.Inference.{
  Readings, Planner, initial, no_movement, plan_turn, plan_turns, resample_output, drop_plan,
  run_turn, initialize_once, acknowledge,
}
use gearsonic_inference.Planner.Inference.Reseed.{
  initial-IsPlanning, publishes-IsPlanned, no_stale_plan,
}
use gearsonic_inference.Planner.Inference.Acknowledge.{
  Seeds, seed_acknowledges, acknowledged_by_seed,
}

abbrev R32 : Type 0
R32 = milli_machine.f32.Real

abbrev R64 : Type 0
R64 = milli_machine.f64.Real

-- Three rows of zeros, which the resampling takes.
abbrev rows : List (List R32)
rows = replicate 3 (replicate 36 (nil milli_machine.f32))

abbrev answer : Motion R64
answer = resampled milli_machine rows 3

-- The first request, with or without the robot's joints; the network gives the rows above.
abbrev reading : Option (List R64) → Readings R32 R64
reading joints = record {
  requested = 1;
  joints = joints;
  movement = none;
  snapshot = none;
  elapsed_frames = 0;
  infer = λ _. some (rows, 3);
}

abbrev joints : List R64
joints = replicate 29 (nil milli_machine.f64)

abbrev begin : Planner R64
begin = initial milli_machine (nil milli_machine.f64)

seeds : Seeds milli_machine begin (reading (some joints)) joints answer
unfolding resample_output milli_machine milli resample refuses rows_nan any_nan frames_at_50hz
seeds = (refl, refl)

seed_acknowledges_example :
    ((plan_turn milli_machine begin (reading (some joints))).reinit_done ≡ 1)
    × ((plan_turn milli_machine begin (reading (some joints))).initialized ≡ true)
    × ((plan_turn milli_machine begin (reading (some joints))).published
        ≡ some (record answer { gen_frame = 0 }))
seed_acknowledges_example =
    seed_acknowledges milli_machine begin (reading (some joints)) joints answer
      (λ e. absurd (omega (arith, e))) seeds

acknowledged : (plan_turn milli_machine begin (reading (some joints))).reinit_done ≡ 1
acknowledged =
    (seed_acknowledges milli_machine begin (reading (some joints)) joints answer
      (λ e. absurd (omega (arith, e))) seeds).0

acknowledged_by_seed_example :
    (xs : List R64) × (motion : Motion R64) × Seeds milli_machine begin
      (reading (some joints))
      xs
      motion
    × ((plan_turn milli_machine begin (reading (some joints))).published
        ≡ some (record motion { gen_frame = 0 }))
acknowledged_by_seed_example =
    acknowledged_by_seed milli_machine begin (reading (some joints))
      (λ e. absurd (omega (arith, e))) acknowledged

still_open : (plan_turns milli_machine begin (reading none ∷ reading none ∷ [])).reinit_done < 1
unfolding plan_turns plan_turn drop_plan run_turn initialize_once acknowledge
still_open = omega arith

no_stale_plan_example :
    (plan_turns milli_machine begin (reading none ∷ reading none ∷ [])).published ≡ none
no_stale_plan_example =
    no_stale_plan milli_machine begin (reading none) (reading none ∷ []) 1
      (initial-IsPlanning milli_machine (nil milli_machine.f64)) (omega arith)
      (omega arith, (omega arith, tt)) still_open

published :
    (plan_turns milli_machine begin (reading (some joints) ∷ [])).published
    ≡ some (record answer { gen_frame = 0 })
unfolding plan_turns
published =
    (seed_acknowledges milli_machine begin (reading (some joints)) joints answer
      (λ e. absurd (omega (arith, e))) seeds).2

publishes-IsPlanned_example : IsPlanned R64 (record answer { gen_frame = 0 })
publishes-IsPlanned_example =
    publishes-IsPlanned milli_machine (nil milli_machine.f64) (reading (some joints) ∷ [])
      (record answer { gen_frame = 0 }) published

-- Five frames.
abbrev played : Motion R64
played = record { frames = replicate 5 (blank milli_machine.f64); timesteps = 5; gen_frame = 0 }

no_movement-IsProper : IsProper milli_machine.f64 (no_movement milli_machine)
unfolding milli_machine milli
no_movement-IsProper = record {
  move_x = refl;
  move_y = refl;
  move_z = refl;
  face_x = refl;
  face_y = refl;
  face_z = refl;
  speed = refl;
  height = refl;
}

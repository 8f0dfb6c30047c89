-- ===== src/Motion/TapDetector.antt =====
-- include/motion/tap_detector.hpp: short presses of one face button, counted into single, double
-- and triple taps.
pub mod Taps
pub mod Strokes
mod Tests
use gearsonic_inference.Common.{
  ℕ, zero, suc, ◌+◌, ◌≤◌, ◌<◌, Bool, true, false, ◌≡◌, ◌&&◌, ◌||◌, Option, none, some,
  if◌then◌else◌, ltb, leb, ◌==◌, arith,
}
use gearsonic_inference.Common.Float.{Float, nil}
use gearsonic_inference.Collector.RecordControl.{TapKind, single, double, triple}

abbrev pub max_taps : ℕ
max_taps = 3

pub record TapDetector (Real : Type 0) : Type 0 where
  pub was_pressed : Bool
  pub pending : Bool
  pub is_void : Bool  -- void_
  pub count : ℕ
  pub press_s : Real
  pub since_release_s : Real

module _ (f : Float) where
  open f use {Real, ratio, add, lt, le}

  abbrev pub tap_max_s : Real
  tap_max_s = ratio 30 100

  abbrev pub double_gap_s : Real
  double_gap_s = ratio 35 100

  abbrev pub fresh : TapDetector Real
  fresh = record {
    was_pressed = false;
    pending = false;
    is_void = false;
    count = 0;
    press_s = nil f;
    since_release_s = nil f;
  }

  unfoldable pub press : TapDetector Real → Real → TapDetector Real
  press d dt =
      if d.was_pressed
      then record d { press_s = add d.press_s dt; was_pressed = true }
      else record d {
        press_s = nil f;
        count = if d.pending && le d.since_release_s double_gap_s then d.count else 0;
        pending = false;
        was_pressed = true;
      }

  -- `none` is Event::None.
  unfoldable pub release : TapDetector Real → TapDetector Real × Option TapKind
  release d =
      let up = record d { was_pressed = false } in
      if le tap_max_s d.press_s
      then (record up { count = 0 }, none)
      else if leb max_taps (d.count + 1)
      then (record up { count = 0 }, some triple)
      else (record up { count = d.count + 1; pending = true; since_release_s = nil f }, none)

  unfoldable pub wait : TapDetector Real → Real → TapDetector Real × Option TapKind
  wait d dt =
      let since = add d.since_release_s dt in
      if lt double_gap_s since
      then (
        record d { since_release_s = since; pending = false; count = 0 },
        some (if d.count == 1 then single else double),
      )
      else (record d { since_release_s = since }, none)

  unfoldable pub track : TapDetector Real → Bool → Real → TapDetector Real × Option TapKind
  track d pressed dt =
      if pressed
      then (press d dt, none)
      else if d.was_pressed
      then release d
      else if d.pending
      then wait d dt
      else (d, none)

  unfoldable pub update : TapDetector Real → Bool → Bool → Real → TapDetector Real × Option TapKind
  update d pressed voided dt =
      let e = if voided then record d { is_void = true; count = 0; pending = false } else d in
      if e.is_void
      then (record e { is_void = pressed || voided; was_pressed = pressed }, none)
      else track e pressed dt

-- ===== src/Motion/TapDetector/Taps.antt =====
-- What TapDetector reports over a run of ticks.
use gearsonic_inference.Common.{
  ◌<◌, Bool, true, false, ◌≡◌, refl, ◌||◌, Option, none, some, List, [], ◌∷◌, All, arith,
}
use gearsonic_inference.Common.Float.{Float}
use gearsonic_inference.Collector.RecordControl.{TapKind}
use gearsonic_inference.Motion.TapDetector.{
  TapDetector, update, track, press, release, wait, max_taps,
}

pub record IsValid (R : Type 0) (d : TapDetector R) : Type 0 where
  pub count_capped : d.count < max_taps
  pub pending_counts : d.pending ≡ true → 0 < d.count
  pub pending_up : d.pending ≡ true → d.was_pressed ≡ false
  pub void_empty : d.is_void ≡ true → (d.count ≡ 0) × (d.pending ≡ false)

module _ (f : Float) where
  open f use {Real, add, lt, le}

  -- On every tick, voided or not: at most two taps stay counted, the window is open only after a
  -- counted tap with the button up, and a voided gesture counts nothing.
  update-IsValid :
      (d : TapDetector Real) (pressed voided : Bool) (dt : Real)
      → IsValid Real d
      → IsValid Real (update f d pressed voided dt).0
  unfolding update track press release wait
  update-IsValid d pressed voided dt v = ground arith

  -- The ticks are pairs of the button and of another button being down. The events of a run.
  abbrev put : Option TapKind → List TapKind → List TapKind
  put none es = es
  put (some e) es = e ∷ es

  unfoldable pub run :
      TapDetector Real → Real → List (Bool × Bool) → TapDetector Real × List TapKind
  run d dt [] = (d, [])
  run d dt ((pressed, voided) ∷ rest) =
      let (e, event) = update f d pressed voided dt in
      let (d', events) = run e dt rest in (d', put event events)

  -- Some button is down.
  abbrev Holds : Bool × Bool → Type 0
  Holds (pressed, voided) = (pressed || voided) ≡ true

  void_stays :
      (d : TapDetector Real) (dt : Real) (ticks : List (Bool × Bool))
      → d.is_void ≡ true
      → d.count ≡ 0
      → d.pending ≡ false
      → All Holds ticks
      → ((run d dt ticks).1 ≡ [])
        × ((run d dt ticks).0.is_void ≡ true)
        × ((run d dt ticks).0.count ≡ 0)
        × ((run d dt ticks).0.pending ≡ false)
  unfolding run update
  void_stays d dt [] v c p h = (refl, v, c, p)
  void_stays d dt ((pressed, voided) ∷ rest) v c p h = ground (
    arith,
    void_stays (record d { is_void = true; was_pressed = pressed }) dt rest,
    void_stays (record d { is_void = true; count = 0; pending = false; was_pressed = pressed }) dt
        rest,
  )

  -- A tick with another button down, then any ticks on which some button is down, then one with
  -- all buttons up: no event comes, and nothing stays counted.
  void_discards :
      (d : TapDetector Real) (dt : Real) (pressed : Bool) (ticks : List (Bool × Bool))
      → All Holds ticks
      → let (e, events) = run d dt ((pressed, true) ∷ ticks) in
        (events ≡ [])
        × ((update f e false false dt).1 ≡ none)
        × ((update f e false false dt).0.count ≡ 0)
        × ((update f e false false dt).0.pending ≡ false)
        × ((update f e false false dt).0.is_void ≡ false)
  unfolding run update
  void_discards d dt pressed ticks h =
      let voided = record d { is_void = true; count = 0; pending = false; was_pressed = pressed } in
      ground (arith, void_stays voided dt ticks refl refl refl h)

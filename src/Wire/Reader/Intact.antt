-- ===== src/Wire/Reader/Intact.antt =====
-- A corrupted state never gets to UnitreeStateReader's buffer.
use gearsonic_inference.Common.{
  ℕ, ◌≡◌, refl, Option, none, some, List, [], ◌∷◌, if◌then◌else◌, ◌⊎◌, inl, inr, Bool-cases,
}
use gearsonic_inference.Common.Float.{Machine}
use gearsonic_inference.Channels.DataBuffer.{DataBuffer, empty, get_data_with_time}
use gearsonic_inference.Wire.Reader.{
  LowState, SdkImu, UnitreeState, Imu, StateReader, convert, convert_imu, is_intact,
  on_lowstate_update, on_imu_torso_update, is_stale, watch,
}

-- What the threads do to the reader.
pub data Arrival (Real : Type 0) : Type 0 where
  lowstate : LowState Real → ℕ → Arrival Real
  imu_torso : SdkImu Real → ℕ → Arrival Real
  watches : ℕ → ℕ → Arrival Real

module _ (m : Machine) (words : LowState m.f32.Real → List ℕ) where
  open m use {f32, f64}
  open f64 use {Real}

  abbrev pub arrive : StateReader Real → Arrival f32.Real → StateReader Real
  arrive r (lowstate msg now) = on_lowstate_update m words r msg now
  arrive r (imu_torso msg now) = on_imu_torso_update m r msg now
  arrive r (watches now later) = watch m r now later

  unfoldable pub run : StateReader Real → List (Arrival f32.Real) → StateReader Real
  run r [] = r
  run r (a ∷ rest) = run (arrive r a) rest

  -- The last state whose checksum is right, with its time, and the last torso reading.
  abbrev pub newest_state :
      Option (UnitreeState Real × ℕ) → Arrival f32.Real → Option (UnitreeState Real × ℕ)
  newest_state last (lowstate msg now) =
      if is_intact m words msg then some (convert m msg, now) else last
  newest_state last (imu_torso msg now) = last
  newest_state last (watches now later) = last

  abbrev pub newest_imu : Option (Imu Real × ℕ) → Arrival f32.Real → Option (Imu Real × ℕ)
  newest_imu last (imu_torso msg now) = some (convert_imu m msg, now)
  newest_imu last (lowstate msg now) = last
  newest_imu last (watches now later) = last

  unfoldable pub last_state :
      Option (UnitreeState Real × ℕ) → List (Arrival f32.Real) → Option (UnitreeState Real × ℕ)
  last_state last [] = last
  last_state last (a ∷ rest) = last_state (newest_state last a) rest

  unfoldable pub last_imu : Option (Imu Real × ℕ) → List (Arrival f32.Real) → Option (Imu Real × ℕ)
  last_imu last [] = last
  last_imu last (a ∷ rest) = last_imu (newest_imu last a) rest

  -- A buffer has the newest value or, after the watchdog, nothing.
  abbrev pub Has : {A : Type 0} → DataBuffer A → Option (A × ℕ) → Type 0
  Has b last = (get_data_with_time b ≡ none) ⊎ (get_data_with_time b ≡ last)

  drop-Has :
      {A : Type 0} (content : Option A) (time : ℕ) (last : Option (A × ℕ)) (now : ℕ)
      → let b : DataBuffer A = record { content = content; last_update_time = time } in
        Has b last
        → Has (elim content [ none ↦ b | some x ↦ if is_stale m b now then empty else b ]) last
  drop-Has none time last now h = h
  drop-Has (some x) time last now h =
      elim (Bool-cases (is_stale m (record { content = some x; last_update_time = time }) now)) [
        | inl stale ↦ rw stale (inl refl)
        | inr fresh ↦ rw fresh h
      ]

  arrive-Has :
      (r : StateReader Real) (s : Option (UnitreeState Real × ℕ)) (i : Option (Imu Real × ℕ))
      (a : Arrival f32.Real)
      → Has r.unitree_state_buf s
      → Has r.imu_torso_buf i
      → Has (arrive r a).unitree_state_buf (newest_state s a)
        × Has (arrive r a).imu_torso_buf (newest_imu i a)
  unfolding on_lowstate_update on_imu_torso_update watch
  arrive-Has r s i (lowstate msg now) hs hi = elim (Bool-cases (is_intact m words msg)) [
    | inl good ↦ rw good (inr refl, hi)
    | inr bad ↦ rw bad (hs, hi)
  ]
  arrive-Has r s i (imu_torso msg now) hs hi = (hs, inr refl)
  arrive-Has r s i (watches now later) hs hi = (
    drop-Has r.unitree_state_buf.content r.unitree_state_buf.last_update_time s now hs,
    drop-Has r.imu_torso_buf.content r.imu_torso_buf.last_update_time i later hi,
  )

  run-Has :
      (r : StateReader Real) (s : Option (UnitreeState Real × ℕ)) (i : Option (Imu Real × ℕ))
      (arrivals : List (Arrival f32.Real))
      → Has r.unitree_state_buf s
      → Has r.imu_torso_buf i
      → Has (run r arrivals).unitree_state_buf (last_state s arrivals)
        × Has (run r arrivals).imu_torso_buf (last_imu i arrivals)
  unfolding run last_state last_imu
  run-Has r s i [] hs hi = (hs, hi)
  run-Has r s i (a ∷ rest) hs hi =
      let (hs', hi') = arrive-Has r s i a hs hi in
      run-Has (arrive r a) (newest_state s a) (newest_imu i a) rest hs' hi'

  -- After any messages and turns of the watchdog, from empty buffers on: the state's buffer is empty or has
  -- the last state whose checksum was right, converted, with its time, and the torso's buffer is empty or
  -- has its last reading.
  pub only_intact_states :
      (arrivals : List (Arrival f32.Real))
      → let r = run (record { unitree_state_buf = empty; imu_torso_buf = empty }) arrivals in
        Has r.unitree_state_buf (last_state none arrivals)
        × Has r.imu_torso_buf (last_imu none arrivals)
  only_intact_states arrivals =
      run-Has (record { unitree_state_buf = empty; imu_torso_buf = empty }) none none arrivals
        (inl refl) (inl refl)

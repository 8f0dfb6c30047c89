-- ===== src/Teleop/Tracker/DelayLine.antt =====
-- TeleopTracker's delay line and the window of ten frames.
use gearsonic_inference.Common.{
  ℕ, ◌+◌, ◌-◌, ◌%◌, ◌<◌, min, ◌≡◌, refl, ap, ◌∙◌, some, List, [], ◌∷◌, map, length, get_or,
  if◌then◌else◌, ◌==◌, arith, wrap,
}
use gearsonic_inference.Common.Float.{Float}
use gearsonic_inference.Teleop.Pose.{SmplPose, Window}
use gearsonic_inference.Teleop.Ring.{place, Newest, push-Newest, get_or-Newest}
use gearsonic_inference.Teleop.Resampler.{blank_pose}
use gearsonic_inference.Teleop.Tracker.{Tracker, history_slots, lookahead_ticks}
use gearsonic_inference.Teleop.Tracker.Gestures.{engage_fullbody}
use gearsonic_inference.Teleop.Tracker.Round.{frames, depth, shift_window}

map_cong : {A B : Type 0} (g h : A → B) (xs : List A) → ((x : A) → g x ≡ h x) → map g xs ≡ map h xs
map_cong g h [] same = refl
map_cong g h (x ∷ xs) same = rw (same x, map_cong g h xs same) refl

module _ (f : Float) where
  open f use {Real}

  -- A pose per tick, with the clock when its window goes out.
  unfoldable pub shift_all : Tracker Real → List (SmplPose Real × ℕ) → Tracker Real
  shift_all t [] = t
  shift_all t ((pose, now) ∷ rest) = shift_all (shift_window f t pose now) rest

  -- The poses, the newest first, on top of earlier ones.
  unfoldable pub newest_first :
      List (SmplPose Real × ℕ) → List (SmplPose Real) → List (SmplPose Real)
  newest_first [] items = items
  newest_first ((pose, now) ∷ rest) items = newest_first rest (pose ∷ items)

  abbrev Holds : Tracker Real → List (SmplPose Real) → Type 0
  Holds t items = Newest history_slots t.history t.hist_head t.hist_count items

  next_head :
      (head count : ℕ)
      → head < history_slots
      → (if count == 0 then 0 else (head + 1) % history_slots) < history_slots
  next_head head count h = ground (arith, wrap (head + 1) history_slots)

  shift-Holds :
      (t : Tracker Real) (pose : SmplPose Real) (now : ℕ) (items : List (SmplPose Real))
      → Holds t items
      → Holds (shift_window f t pose now) (pose ∷ items)
  unfolding shift_window
  shift-Holds t pose now items k =
      push-Newest history_slots t.history t.hist_head t.hist_count items
        (if t.hist_count == 0 then 0 else (t.hist_head + 1) % history_slots) pose k
        (next_head t.hist_head t.hist_count k.inside) (λ h. ground arith)

  shift_all-Holds :
      (t : Tracker Real) (poses : List (SmplPose Real × ℕ)) (items : List (SmplPose Real))
      → Holds t items
      → Holds (shift_all t poses) (newest_first poses items)
  unfolding shift_all newest_first
  shift_all-Holds t [] items k = k
  shift_all-Holds t ((pose, now) ∷ rest) items k =
      shift_all-Holds (shift_window f t pose now) rest (pose ∷ items)
        (shift-Holds t pose now items k)

  -- The frame `frame` of the window over the poses, newest first: five ticks less `frame` ago, the
  -- newest for the later frames, and the oldest while there are not as many.
  abbrev pub frame_of : List (SmplPose Real) → ℕ → SmplPose Real
  frame_of items frame =
      get_or items (min (lookahead_ticks - frame) (length items - 1)) (blank_pose f)

  depth_inside : (count frame : ℕ) → 0 < count → depth count frame < count
  depth_inside count frame h = omega arith

  window_lem :
      (t : Tracker Real) (pose : SmplPose Real) (now : ℕ) (items : List (SmplPose Real))
      → Holds t items
      → (shift_window f t pose now).smpl_window_buf
        ≡ record { content = some (map (frame_of (pose ∷ items)) frames); last_update_time = now }
  unfolding shift_window
  window_lem t pose now items k =
      let next = shift_window f t pose now in
      let kept = shift-Holds t pose now items k in
      ap (λ (window : Window Real). record { content = some window; last_update_time = now })
        (map_cong
          (λ frame.
            get_or next.history (place history_slots next.hist_head (depth next.hist_count frame))
              (blank_pose f))
          (frame_of (pose ∷ items)) frames
          (λ frame.
            get_or-Newest history_slots next.history next.hist_head next.hist_count (pose ∷ items)
              (blank_pose f) kept (depth next.hist_count frame)
              (depth_inside next.hist_count frame (omega (arith, kept.count_is)))
            ∙ ap (λ i. get_or (pose ∷ items) i (blank_pose f)) (omega (arith, kept.count_is))))

  -- From an engage on, with the ring's 16 slots and a head among them, after any number of poses and
  -- one more: the window published with it has ten frames. Frame i is the pose of 5 - i ticks ago, for
  -- i above 5 the newest, and the first pose since the engage where there are not so many.
  pub window_is_delayed :
      (t : Tracker Real) (poses : List (SmplPose Real × ℕ)) (pose : SmplPose Real) (now : ℕ)
      → length t.history ≡ history_slots
      → t.hist_head < history_slots
      → (shift_window f (shift_all (engage_fullbody f t) poses) pose now).smpl_window_buf ≡ record {
        content = some (map (frame_of (pose ∷ newest_first poses [])) frames);
        last_update_time = now;
      }
  unfolding engage_fullbody
  window_is_delayed t poses pose now slots inside =
      window_lem (shift_all (engage_fullbody f t) poses) pose now (newest_first poses []) (
        shift_all-Holds (engage_fullbody f t) poses [] (record {
          room = omega arith;
          slots = slots;
          inside = inside;
          count_is = refl;
          entries = λ i h. absurd (omega arith);
        }))

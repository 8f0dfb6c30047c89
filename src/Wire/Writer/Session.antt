-- ===== src/Wire/Writer/Session.antt =====
-- When UnitreeCommandWriter publishes, and how it ends.
use gearsonic_inference.Common.{
  ℕ, zero, suc, ◌+◌, ◌≤◌, ◌<◌, ◌≡◌, ◌↔◌, ◌⊎◌, inl, inr, refl, ap, ◌∙◌, Bool, true, false, Option,
  none, some, List, [], ◌∷◌, ◌++◌, map, drop, get_or, length, replicate, All, arith, drop_all,
  if◌then◌else◌, sym,
}
use gearsonic_inference.Common.Float.{Machine, nil, of_nat}
use gearsonic_inference.Control.Commands.{MotorCommand, damping}
use gearsonic_inference.Wire.Checksum.{crc32_core}
use gearsonic_inference.Wire.Writer.{
  MotorSlot, slot, slots, burst, LowCmd, Check, unreachable, released, active, try_release,
  ensure_exclusive_lowcmd, start, publish, turn, send_damping,
}

-- One of the attempts from the given one on finds the service released.
abbrev pub IsReleasedWithin : ℕ → (ℕ → Check) → ℕ → Type 0
IsReleasedWithin left answers attempt =
    (k : ℕ) × (attempt ≤ k) × (k < attempt + left) × (answers k ≡ released)

here_or_later : (a k : ℕ) → a ≤ k → (a ≡ k) ⊎ (a + 1 ≤ k)
here_or_later a k h = ground arith

try_step :
    (c : Check) (rest : Bool)
    → (elim c [ released ↦ true | _ ↦ rest ]) ≡ true
    → (c ≡ released) ⊎ (rest ≡ true)
try_step unreachable rest h = inr h
try_step released rest h = inl refl
try_step active rest h = inr h

try_now : (c : Check) (rest : Bool) → c ≡ released → (elim c [ released ↦ true | _ ↦ rest ]) ≡ true
try_now unreachable rest h = absurd cc
try_now released rest h = refl
try_now active rest h = absurd cc

try_later : (c : Check) (rest : Bool) → rest ≡ true → (elim c [ released ↦ true | _ ↦ rest ]) ≡ true
try_later unreachable rest h = h
try_later released rest h = refl
try_later active rest h = h

try_release_sound :
    (left : ℕ) (answers : ℕ → Check) (attempt : ℕ)
    → try_release left answers attempt ≡ true
    → IsReleasedWithin left answers attempt
unfolding try_release
try_release_sound zero answers attempt h = absurd (ground arith)
try_release_sound (suc left) answers attempt h =
    elim (try_step (answers attempt) (try_release left answers (attempt + 1)) h) [
      | inl now ↦ (attempt, omega arith, omega arith, now)
      | inr later ↦
          let (k, low, high, e) = try_release_sound left answers (attempt + 1) later in
          (k, omega arith, omega arith, e)
    ]

try_release_complete :
    (left : ℕ) (answers : ℕ → Check) (attempt : ℕ)
    → IsReleasedWithin left answers attempt
    → try_release left answers attempt ≡ true
unfolding try_release
try_release_complete zero answers attempt (k, low, high, e) = absurd (omega arith)
try_release_complete (suc left) answers attempt (k, low, high, e) =
    elim (here_or_later attempt k low) [
      | inl same ↦
          try_now (answers attempt) (try_release left answers (attempt + 1)) (ap answers same ∙ e)
      | inr above ↦
          try_later (answers attempt) (try_release left answers (attempt + 1))
            (try_release_complete left answers (attempt + 1) (k, omega arith, omega arith, e))
    ]

-- start() succeeds exactly with a source and without a rival on the command topic: the motion
-- switcher is not reachable, has no service, or has none after one of five releases.
pub start_iff_exclusive :
    (source : Bool) (first : Check) (answers : ℕ → Check)
    → (start source first answers ≡ true) ↔ (
        (source ≡ true)
        × ((first ≡ unreachable) ⊎ ((first ≡ released) ⊎ IsReleasedWithin 5 answers 0)))
unfolding start ensure_exclusive_lowcmd
start_iff_exclusive false first answers =
    (λ h. absurd (ground arith), λ h. absurd (ground (arith, h.0)))
start_iff_exclusive true unreachable answers = (λ h. (refl, inl refl), λ h. refl)
start_iff_exclusive true released answers = (λ h. (refl, inr (inl refl)), λ h. refl)
start_iff_exclusive true active answers = (
  λ h. (refl, inr (inr (try_release_sound 5 answers 0 h))),
  λ (on, why). elim why [
    | inl e ↦ absurd cc
    | inr (inl e) ↦ absurd cc
    | inr (inr within) ↦ try_release_complete 5 answers 0 within
  ],
)

module _ (m : Machine) (words : LowCmd m.f32.Real → List ℕ) where
  open m use {f32}
  open f32 use {Real}

  -- The turns of the writer's thread.
  unfoldable pub turns : List (Option (MotorCommand Real) × Option ℕ) → List (LowCmd Real)
  turns [] = []
  turns (r ∷ rest) = turn m words r ++ turns rest

  -- Whether start() succeeded, the turns if it did, then stop() with the modes that its messages read.
  unfoldable pub session :
      Bool → List (Option (MotorCommand Real) × Option ℕ) → (ℕ → Option ℕ) → List (LowCmd Real)
  session started rs modes =
      if started
      then turns rs ++ send_damping m words true modes
      else send_damping m words false modes

  -- A message for the command c: each of the 29 motors is enabled with the command's five values, the
  -- mode is the robot's, 0 where it is not known, and the checksum is that of the message's words.
  pub record Carries (c : MotorCommand Real) (mode : Option ℕ) (msg : LowCmd Real) : Type 0 where
    pub pr_is : msg.mode_pr ≡ 0
    pub mode_is : msg.mode_machine ≡ (elim mode [ none ↦ 0 | some k ↦ k ])
    pub motors : length msg.motor_cmd ≡ 29
    pub enabled : All (λ s. s.mode ≡ 1) msg.motor_cmd
    pub q_is : map (λ s. s.q) msg.motor_cmd ≡ c.q_target
    pub dq_is : map (λ s. s.dq) msg.motor_cmd ≡ c.dq_target
    pub kp_is : map (λ s. s.kp) msg.motor_cmd ≡ c.kp
    pub kd_is : map (λ s. s.kd) msg.motor_cmd ≡ c.kd
    pub tau_is : map (λ s. s.tau) msg.motor_cmd ≡ c.tau_ff
    pub sealed : msg.crc ≡ crc32_core (words (record msg { crc = 0 }))

  -- A command's arrays have 29 values each.
  abbrev IsWhole : MotorCommand Real → Type 0
  IsWhole c =
      (length c.q_target ≡ 29)
      × (length c.dq_target ≡ 29)
      × (length c.kp ≡ 29)
      × (length c.kd ≡ 29)
      × (length c.tau_ff ≡ 29)

  -- The command that enables a motor's damping 8 and asks for nothing else.
  abbrev pub damped : MotorCommand Real
  damped = record {
    q_target = replicate 29 (nil f32);
    dq_target = replicate 29 (nil f32);
    kp = replicate 29 (nil f32);
    kd = replicate 29 (of_nat f32 8);
    tau_ff = replicate 29 (nil f32);
  }

  -- One message for each turn with a command, in order, and none for the others.
  abbrev pub Sends : List (Option (MotorCommand Real) × Option ℕ) → List (LowCmd Real) → Type 0
  Sends [] [] = Unit {0}
  Sends [] (msg ∷ msgs) = ⊥
  Sends ((none, mode) ∷ rest) msgs = Sends rest msgs
  Sends ((some c, mode) ∷ rest) [] = ⊥
  Sends ((some c, mode) ∷ rest) (msg ∷ msgs) = Carries c mode msg × Sends rest msgs

  abbrev AllWhole : List (Option (MotorCommand Real) × Option ℕ) → Type 0
  AllWhole [] = Unit {0}
  AllWhole ((none, mode) ∷ rest) = AllWhole rest
  AllWhole ((some c, mode) ∷ rest) = IsWhole c × AllWhole rest

  drop_or :
      (xs : List Real) (i : ℕ) (d : Real)
      → i < length xs
      → drop i xs ≡ get_or xs i d ∷ drop (suc i) xs
  drop_or [] i d h = absurd (omega arith)
  drop_or (x ∷ xs) zero d h = refl
  drop_or (x ∷ xs) (suc i) d h = drop_or xs i d (omega arith)

  after : (i : ℕ) → i + 1 ≡ suc i
  after i = omega arith

  -- What the slots from motor i on hold in a field that is read from the list xs.
  slots_field :
      (g : MotorSlot Real → Real) (c : MotorCommand Real) (xs : List Real) (left i : ℕ)
      → ((j : ℕ) → g (slot m words c j) ≡ get_or xs j (nil f32))
      → i + left ≡ length xs
      → map g (slots m words left i c) ≡ drop i xs
  slots_field g c xs zero i field n = sym (drop_all xs i (omega arith))
  slots_field g c xs (suc left) i field n =
      rw (field i, slots_field g c xs left (i + 1) field (omega arith), after i)
        (sym (drop_or xs i (nil f32) (omega arith)))

  slots_shape :
      (left i : ℕ) (c : MotorCommand Real)
      → (length (slots m words left i c) ≡ left) × All (λ s. s.mode ≡ 1) (slots m words left i c)
  slots_shape zero i c = (refl, tt)
  slots_shape (suc left) i c = let (n, all) = slots_shape left (i + 1) c in (ap suc n, (refl, all))

  publish-Carries :
      (c : MotorCommand Real) (mode : Option ℕ)
      → IsWhole c
      → Carries c mode (publish m words c mode)
  unfolding publish
  publish-Carries c mode (nq, ndq, nkp, nkd, ntau) = record {
    pr_is = refl;
    mode_is = refl;
    motors = (slots_shape 29 0 c).0;
    enabled = (slots_shape 29 0 c).1;
    q_is = slots_field (λ s. s.q) c c.q_target 29 0 (λ j. refl) (sym nq);
    dq_is = slots_field (λ s. s.dq) c c.dq_target 29 0 (λ j. refl) (sym ndq);
    kp_is = slots_field (λ s. s.kp) c c.kp 29 0 (λ j. refl) (sym nkp);
    kd_is = slots_field (λ s. s.kd) c c.kd 29 0 (λ j. refl) (sym nkd);
    tau_is = slots_field (λ s. s.tau) c c.tau_ff 29 0 (λ j. refl) (sym ntau);
    sealed = refl;
  }

  turns-Sends :
      (rs : List (Option (MotorCommand Real) × Option ℕ)) → AllWhole rs → Sends rs (turns rs)
  unfolding turns turn
  turns-Sends [] whole = tt
  turns-Sends ((none, mode) ∷ rest) whole = turns-Sends rest whole
  turns-Sends ((some c, mode) ∷ rest) (here, later) =
      (publish-Carries c mode here, turns-Sends rest later)

  -- Message i of those sent is one that damps, with the mode that is read for it.
  abbrev pub Damps : (ℕ → Option ℕ) → ℕ → List (LowCmd Real) → Type 0
  Damps modes i [] = Unit {0}
  Damps modes i (msg ∷ rest) = Carries damped (modes i) msg × Damps modes (i + 1) rest

  burst-Damps :
      (left i : ℕ) (modes : ℕ → Option ℕ)
      → (length (burst m words left i modes) ≡ left) × Damps modes i (burst m words left i modes)
  unfolding burst damping
  burst-Damps zero i modes = (refl, tt)
  burst-Damps (suc left) i modes =
      let (n, all) = burst-Damps left (i + 1) modes in
      (ap suc n, (publish-Carries damped (modes i) (refl, refl, refl, refl, refl), all))

  -- Over a session of the writer, with commands whose arrays have 29 values. If start() did not
  -- succeed, nothing goes out. Else there is one message for each turn with a command, in order:
  -- each of the 29 motors enabled with that command's five values, the robot's mode or 0, and the
  -- checksum of the message's words. Then come five messages from stop(), which carry in the same
  -- way no target, stiffness or torque and the damping 8.
  pub session_ends_damped :
      (rs : List (Option (MotorCommand Real) × Option ℕ)) (modes : ℕ → Option ℕ)
      → AllWhole rs
      → (session false rs modes ≡ [])
        × (sent : List (LowCmd Real)) × (last : List (LowCmd Real)) × (session true rs modes
            ≡ sent ++ last)
        × Sends rs sent
        × (length last ≡ 5)
        × Damps modes 0 last
  unfolding session send_damping
  session_ends_damped rs modes whole =
      let (five, damps) = burst-Damps 5 0 modes in
      (refl, turns rs, burst m words 5 0 modes, refl, turns-Sends rs whole, five, damps)

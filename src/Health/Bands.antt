-- ===== src/Health/Bands.antt =====
-- The temperature lines: when none comes, and what the level is.
use gearsonic_inference.Common.{
  ◌≡◌, refl, Bool, true, false, List, [], ◌∷◌, ◌++◌, All, ◌&&◌, ◌∙◌, sym, ap, ◌≢◌, ◌↔◌, Bool-cases,
  inl, inr, arith, if◌then◌else◌,
}
use gearsonic_inference.Common.Int.{ℤ, pos, ◌-ℤ◌, ◌≤ℤ◌, ltb_ℤ, leb_ℤ, -ℤ_parts}
use gearsonic_inference.Health.{
  Level, ok, warn, critical, Who, Sensor, Line, temp_transition, next_level, same_level,
}

-- A sensor's level over readings, and its lines.
unfoldable pub readings : ℤ → ℤ → Sensor → Who → Level → List ℤ → Level × List Line
readings at_warn at_critical sensor who level [] = (level, [])
readings at_warn at_critical sensor who level (t ∷ ts) =
    let (next, lines) = temp_transition level t at_warn at_critical sensor who in
    let (last, more) = readings at_warn at_critical sensor who next ts in (last, lines ++ more)

-- Whether a temperature lies in the band of a level: below the warning limit; from 5 degrees below it
-- up to the critical limit; and, of a critical one, from 5 degrees below the critical limit on or
-- less than 5 degrees below the warning limit.
abbrev pub in_band : ℤ → ℤ → Level → ℤ → Bool
in_band at_warn at_critical ok t = ltb_ℤ t at_warn
in_band at_warn at_critical warn t = leb_ℤ (at_warn -ℤ pos 5) t && ltb_ℤ t at_critical
in_band at_warn at_critical critical t =
    if leb_ℤ at_warn t then leb_ℤ (at_critical -ℤ pos 5) t else leb_ℤ (at_warn -ℤ pos 5) t

same_level→eq : (a b : Level) → same_level a b ≡ true → a ≡ b
same_level→eq ok ok h = refl
same_level→eq warn warn h = refl
same_level→eq critical critical h = refl
same_level→eq ok warn h = cc
same_level→eq ok critical h = cc
same_level→eq warn ok h = cc
same_level→eq warn critical h = cc
same_level→eq critical ok h = cc
same_level→eq critical warn h = cc

next_level-in_band :
    (at_warn at_critical : ℤ) (level : Level) (t : ℤ)
    → at_warn ≤ℤ at_critical
    → same_level (next_level level t at_warn at_critical) level
      ≡ in_band at_warn at_critical level t
unfolding next_level
next_level-in_band at_warn at_critical ok t ordered =
    ground (arith, -ℤ_parts at_warn (pos 5), -ℤ_parts at_critical (pos 5))
next_level-in_band at_warn at_critical warn t ordered =
    ground (arith, -ℤ_parts at_warn (pos 5), -ℤ_parts at_critical (pos 5))
next_level-in_band at_warn at_critical critical t ordered =
    ground (arith, -ℤ_parts at_warn (pos 5), -ℤ_parts at_critical (pos 5))

module _ (at_warn at_critical : ℤ) (sensor : Sensor) (who : Who) where
  abbrev AllInBand : Level → List ℤ → Type 0
  AllInBand level ts = All (λ t. in_band at_warn at_critical level t ≡ true) ts

  readings_stay :
      (level : Level) (t : ℤ) (ts : List ℤ)
      → at_warn ≤ℤ at_critical
      → in_band at_warn at_critical level t ≡ true
      → readings at_warn at_critical sensor who level (t ∷ ts)
        ≡ readings at_warn at_critical sensor who level ts
  unfolding readings temp_transition
  readings_stay level t ts ordered inside =
      let same = next_level-in_band at_warn at_critical level t ordered ∙ inside in
      rw (same, same_level→eq (next_level level t at_warn at_critical) level same)

  readings_tell :
      (level : Level) (t : ℤ) (ts : List ℤ)
      → at_warn ≤ℤ at_critical
      → in_band at_warn at_critical level t ≡ false
      → (readings at_warn at_critical sensor who level (t ∷ ts)).1 ≢ []
  unfolding readings temp_transition
  readings_tell level t ts ordered outside e =
      let other = next_level-in_band at_warn at_critical level t ordered ∙ outside in
      ground (arith, other, e)

  quiet_parts :
      (level : Level) (ts : List ℤ)
      → at_warn ≤ℤ at_critical
      → ((readings at_warn at_critical sensor who level ts).1 ≡ [] → AllInBand level ts)
        × (AllInBand level ts → readings at_warn at_critical sensor who level ts ≡ (level, []))
  unfolding readings
  quiet_parts level [] ordered = (λ _. tt, λ _. refl)
  quiet_parts level (t ∷ ts) ordered =
      let (only, if_all) = quiet_parts level ts ordered in
      elim (Bool-cases (in_band at_warn at_critical level t)) [
        | inl inside ↦
            let stay = readings_stay level t ts ordered inside in
            (λ e. (inside, only (sym (ap (λ x. x.1) stay) ∙ e)), λ h. stay ∙ if_all h.1)
        | inr outside ↦ (λ e. absurd (readings_tell level t ts ordered outside e), λ h. cc)
      ]

  -- Over any readings of a sensor, with its warning limit not above its critical one, there is no
  -- line exactly when every reading lies in the band of the level at the start, and exactly then
  -- the level stays as well with no line.
  pub silent_in_band :
      (level : Level) (ts : List ℤ)
      → at_warn ≤ℤ at_critical
      → (((readings at_warn at_critical sensor who level ts).1 ≡ []) ↔ AllInBand level ts)
        × ((readings at_warn at_critical sensor who level ts ≡ (level, [])) ↔ AllInBand level ts)
  silent_in_band level ts ordered =
      let (only, if_all) = quiet_parts level ts ordered in
      ((only, λ h. ap (λ x. x.1) (if_all h)), (λ e. only (ap (λ x. x.1) e), if_all))

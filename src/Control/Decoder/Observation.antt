-- ===== src/Control/Decoder/Observation.antt =====
-- The observation that PolicyDecoder fills, against the layout of include/control/policy_decoder.hpp.
use gearsonic_inference.Common.{
  ℕ, ◌≡◌, refl, sym, ap, ◌∙◌, Option, none, some, List, [], ◌∷◌, ◌++◌, map, length, length-map,
}
use gearsonic_inference.Common.Float.{Machine}
use gearsonic_inference.Common.Rotation.{gravity_in_body_frame}
use gearsonic_inference.Control.Buffer.{Region, blocks, write_frames}
use gearsonic_inference.Control.Buffer.Regions.{write_at-append}
use gearsonic_inference.Control.Buffer.Adjacent.{Fits, write_frames_lem}
use gearsonic_inference.Control.Commands.{MotorCommand}
use gearsonic_inference.Control.StateLogger.{StateLogger}
use gearsonic_inference.Control.WholeBody.{Entry}
use gearsonic_inference.Control.Decoder.{entry_at, history_regions, fill_obs, command, step, vector}
use mathlib.Core.List.{append-nil}

module _ (m : Machine) where
  open m use {f32, f64, narrow, widen}
  open f64 use {Real}

  -- What the input held before, beyond the token: a frame's values to each region.
  abbrev pub Old : Type 0
  Old =
      (ℕ → List f32.Real)
      × (ℕ → List f32.Real)
      × (ℕ → List f32.Real)
      × (ℕ → List f32.Real)
      × (ℕ → List f32.Real)

  abbrev pub OldFits : Old → Type 0
  OldFits (a, b, c, d, e) =
      (i : ℕ)
      → (length (a i) ≡ 3)
        × (length (b i) ≡ 29)
        × (length (c i) ≡ 29)
        × (length (d i) ≡ 29)
        × (length (e i) ≡ 3)

  -- An input of 994 values: the token's 64, then ten frames of each region.
  abbrev after_token : Old → List f32.Real
  after_token (a, b, c, d, e) =
      blocks a 10 0 ++ (blocks b 10 0 ++ (blocks c 10 0 ++ (blocks d 10 0 ++ blocks e 10 0)))

  abbrev pub input_of : List f32.Real → Old → List f32.Real
  input_of token old = token ++ after_token old

  abbrev pub EntryIsFull : Entry Real → Type 0
  EntryIsFull x =
      (length x.base_ang_vel ≡ 3)
      × (length x.body_q ≡ 29)
      × (length x.body_dq ≡ 29)
      × (length x.last_action ≡ 29)

  abbrev with_old : StateLogger (Entry Real) → Old → List (Region f32.Real × (ℕ → List f32.Real))
  with_old logger (a, b, c, d, e) =
      (((λ i. map narrow (entry_at m logger i).base_ang_vel), 3), a)
      ∷ (((λ i. map narrow (entry_at m logger i).body_q), 29), b)
      ∷ (((λ i. map narrow (entry_at m logger i).body_dq), 29), c)
      ∷ (((λ i. map narrow (entry_at m logger i).last_action), 29), d)
      ∷ (((λ i. vector m (gravity_in_body_frame f64 (entry_at m logger i).base_quat)), 3), e)
      ∷ []

  -- The documented layout.
  abbrev pub layout : List f32.Real → StateLogger (Entry Real) → List f32.Real
  layout token logger = input_of token (
    (λ i. map narrow (entry_at m logger i).base_ang_vel),
    (λ i. map narrow (entry_at m logger i).body_q),
    (λ i. map narrow (entry_at m logger i).body_dq),
    (λ i. map narrow (entry_at m logger i).last_action),
    (λ i. vector m (gravity_in_body_frame f64 (entry_at m logger i).base_quat)),
  )

  with_old-Fits :
      (logger : StateLogger (Entry Real)) (old : Old)
      → OldFits old
      → ((i : ℕ) → EntryIsFull (entry_at m logger i))
      → Fits (with_old logger old)
  with_old-Fits logger (a, b, c, d, e) fit full = (
    ((λ j. length-map narrow (entry_at m logger j).base_ang_vel ∙ (full j).0), (λ j. (fit j).0)),
    (
      ((λ j. length-map narrow (entry_at m logger j).body_q ∙ (full j).1), (λ j. (fit j).1)),
      (
        ((λ j. length-map narrow (entry_at m logger j).body_dq ∙ (full j).2), (λ j. (fit j).2)),
        (
          (
            (λ j. length-map narrow (entry_at m logger j).last_action ∙ (full j).3),
            (λ j. (fit j).3),
          ),
          (((λ j. refl), (λ j. (fit j).4)), tt),
        ),
      ),
    ),
  )

  fill_lem :
      (logger : StateLogger (Entry Real)) (old : Old) (token : List f32.Real)
      → length token ≡ 64
      → OldFits old
      → ((i : ℕ) → EntryIsFull (entry_at m logger i))
      → fill_obs m logger (input_of token old) ≡ layout token logger
  unfolding fill_obs
  fill_lem logger (a, b, c, d, e) token wide fit full =
      ap
        (λ t.
          write_frames 10 10 0 64 (history_regions m logger) (
            token ++ (blocks a 10 0 ++ (blocks b 10 0 ++ (blocks c 10 0 ++ (blocks d 10 0 ++ t))))))
        (sym (append-nil (blocks e 10 0)))
      ∙ write_frames_lem 10 10 0 64 (with_old logger (a, b, c, d, e)) token [] (sym wide) refl
          (with_old-Fits logger (a, b, c, d, e) fit full)
      ∙ ap
          (λ t.
            token
            ++ (blocks (λ i. map narrow (entry_at m logger i).base_ang_vel) 10 0
                ++ (blocks (λ i. map narrow (entry_at m logger i).body_q) 10 0
                    ++ (blocks (λ i. map narrow (entry_at m logger i).body_dq) 10 0
                        ++ (blocks (λ i. map narrow (entry_at m logger i).last_action) 10 0
                            ++ t)))))
          (append-nil (
            blocks (λ i. vector m (gravity_in_body_frame f64 (entry_at m logger i).base_quat)) 10
              0))

  answer_lem :
      (answer : Option (List f32.Real)) (obs : List f32.Real) (last_action : List Real)
      (cmd_out : MotorCommand f32.Real)
      → ◌≡◌ {A = List f32.Real × List Real × Option (MotorCommand f32.Real)}
          (elim answer [
            | none ↦ (obs, last_action, none)
            | some action ↦ (obs, map widen action, some (command m action cmd_out))
          ])
          (
            obs,
            elim answer [ none ↦ last_action | some action ↦ map widen action ],
            elim answer [ none ↦ none | some action ↦ some (command m action cmd_out) ],
          )
  answer_lem none obs last_action cmd_out = refl
  answer_lem (some action) obs last_action cmd_out = refl

  -- For an input of the network's size, whatever the last step left in it, a token of 64 values, and
  -- entries of the logger with the body's sizes: one step leaves the documented layout in the input, and the
  -- action and the command are what the network answers to that observation.
  pub decoder_step :
      (infer : List f32.Real → Option (List f32.Real)) (logger : StateLogger (Entry Real))
      (old : Old) (old_token token : List f32.Real) (last_action : List Real)
      (cmd_out : MotorCommand f32.Real)
      → length old_token ≡ 64
      → length token ≡ 64
      → OldFits old
      → ((i : ℕ) → EntryIsFull (entry_at m logger i))
      → step m infer (input_of old_token old) last_action token logger cmd_out ≡ (
        layout token logger,
        elim (infer (layout token logger)) [ none ↦ last_action | some action ↦ map widen action ],
        elim (infer (layout token logger)) [
          | none ↦ none
          | some action ↦ some (command m action cmd_out)
        ],
      )
  unfolding step
  decoder_step infer logger old old_token token last_action cmd_out old_wide wide fit full =
      ap
        (λ obs. elim (infer obs) [
          | none ↦ (obs, last_action, none)
          | some action ↦ (obs, map widen action, some (command m action cmd_out))
        ])
        (ap (λ b. fill_obs m logger b)
            (write_at-append [] old_token (after_token old) token 0 refl (wide ∙ sym old_wide))
          ∙ fill_lem logger old token wide fit full)
      ∙ answer_lem (infer (layout token logger)) (layout token logger) last_action cmd_out

-- ===== src/Planner/Inference/Acknowledge.antt =====
-- The acknowledgement of a reseed request by the planner.
use gearsonic_inference.Common.{
  ℕ, true, false, ◌≡◌, ◌≢◌, refl, sym, ap, ◌∙◌, Option, none, some, List, arith, Option-cases, inl,
  inr,
}
use gearsonic_inference.Common.Float.{Machine}
use gearsonic_inference.Control.Playback.{Motion}
use gearsonic_inference.Planner.Context.{initialize_context, initial_tensors}
use gearsonic_inference.Planner.Inference.{
  Readings, Planner, publish_motion, resample_output, run_and_publish, seed_tensors, finish_init,
  initialize_once, drop_plan, acknowledge, run_turn, plan_turn,
}

module _ (m : Machine) where
  open m use {f32, f64}
  open f64 use {Real}

  -- What the network makes of the standing context at the measured joints.
  abbrev pub Seeds : Planner Real → Readings f32.Real Real → List Real → Motion Real → Type 0
  Seeds p r joints motion =
      (r.joints ≡ some joints)
      × (resample_output m (r.infer (seed_tensors m p joints)) ≡ some motion)

  dropped :
      (p : Planner Real) (requested : ℕ)
      → requested ≢ p.reinit_done
      → ((drop_plan m p requested).initialized ≡ false)
        × ((drop_plan m p requested).default_height ≡ p.default_height)
        × ((drop_plan m p requested).reinit_done ≡ p.reinit_done)
  unfolding drop_plan
  dropped p requested differ = ground arith

  -- The turn's end, by what the network made.
  abbrev ended : Planner Real → ℕ → Option (Motion Real) → Planner Real
  ended p requested made =
      acknowledge m (finish_init m (publish_motion m (record p { gen_frame = 0 }) made)) requested

  dropped_turn :
      (p : Planner Real) (r : Readings f32.Real Real)
      → r.requested ≢ p.reinit_done
      → plan_turn m p r
        ≡ acknowledge m (initialize_once m r.joints (drop_plan m p r.requested) r) r.requested
  unfolding plan_turn run_turn
  dropped_turn p r differ =
      let q = drop_plan m p r.requested in
      ap (λ on. run_turn m on q r) (dropped p r.requested differ).0

  seeded_turn :
      (p : Planner Real) (r : Readings f32.Real Real) (joints : List Real)
      → r.requested ≢ p.reinit_done
      → r.joints ≡ some joints
      → plan_turn m p r
        ≡ ended
            (drop_plan m p r.requested)
            r.requested
            (resample_output m (r.infer (seed_tensors m p joints)))
  unfolding initialize_once run_and_publish
  seeded_turn p r joints differ given =
      let q = drop_plan m p r.requested in
      let height = (dropped p r.requested differ).1 in
      dropped_turn p r differ
      ∙ ap (λ o. acknowledge m (initialize_once m o q r) r.requested) given
      ∙ ap
          (λ h.
            ended q r.requested
              (resample_output m (r.infer (initial_tensors m (initialize_context m h joints)))))
          height

  -- A turn that sees an open request, with the robot's joints there and an answer of the network
  -- that is not refused, acknowledges the request, and what it publishes is that answer, for frame
  -- 0 of a new timeline.
  pub seed_acknowledges :
      (p : Planner Real) (r : Readings f32.Real Real) (joints : List Real) (motion : Motion Real)
      → r.requested ≢ p.reinit_done
      → Seeds p r joints motion
      → ((plan_turn m p r).reinit_done ≡ r.requested)
        × ((plan_turn m p r).initialized ≡ true)
        × ((plan_turn m p r).published ≡ some (record motion { gen_frame = 0 }))
  unfolding acknowledge finish_init publish_motion
  seed_acknowledges p r joints motion differ (given, made) =
      rw (seeded_turn p r joints differ given, made) (refl, refl, refl)

  unseeded :
      (joints : Option (List Real)) (p q : Planner Real) (r : Readings f32.Real Real)
      → joints ≡ none
      → (acknowledge m (initialize_once m joints q r) r.requested).reinit_done ≡ q.reinit_done
  unfolding acknowledge initialize_once
  unseeded none p q r e = refl
  unseeded (some xs) p q r e = absurd (cc)

  -- A turn that acknowledges an open request had the robot's joints, and what it publishes is the
  -- network's answer to the standing context at these joints, for frame 0 of a new timeline.
  pub acknowledged_by_seed :
      (p : Planner Real) (r : Readings f32.Real Real)
      → r.requested ≢ p.reinit_done
      → (plan_turn m p r).reinit_done ≡ r.requested
      → (joints : List Real) × (motion : Motion Real) × Seeds p r joints motion
        × ((plan_turn m p r).published ≡ some (record motion { gen_frame = 0 }))
  unfolding acknowledge finish_init publish_motion
  acknowledged_by_seed p r differ done =
      let same = (dropped p r.requested differ).2 in
      elim (Option-cases r.joints) [
        | inl missing ↦ absurd (
            differ (
              sym done
              ∙ ap (λ q. q.reinit_done) (dropped_turn p r differ)
              ∙ unseeded r.joints p _ r missing
              ∙ same))
        | inr (joints, given) ↦
            elim (Option-cases (resample_output m (r.infer (seed_tensors m p joints)))) [
              | inl refused ↦ absurd (
                  differ (
                    sym done
                    ∙ ap (λ q. q.reinit_done) (seeded_turn p r joints differ given)
                    ∙ rw refused same))
              | inr (motion, made) ↦ (
                joints,
                motion,
                (given, made),
                (seed_acknowledges p r joints motion differ (given, made)).2,
              )
            ]
      ]

-- ===== src/Planner/Inference/Publishing.antt =====
-- What the parts of the planner's turn publish.
use gearsonic_inference.Common.{
  ℕ, Bool, true, false, ◌≡◌, refl, sym, subst, ◌∙◌, Option, none, some, List, inl, inr, ◌⊎◌,
}
use gearsonic_inference.Common.Float.{Machine}
use gearsonic_inference.Control.Playback.{Motion}
use gearsonic_inference.Control.Playback.Timeline.{IsPlanned}
use gearsonic_inference.Motion.Handler.{MovementState}
use gearsonic_inference.Planner.Resample.Bounds.{resample-IsPlanned}
use gearsonic_inference.Planner.Context.{Tensors}
use gearsonic_inference.Planner.Inference.{
  Readings, Planner, publish_motion, resample_output, run_and_publish, seed_tensors, finish_init,
  initialize_once, plan, acknowledge,
}

module _ (m : Machine) where
  open m use {f32, f64}
  open f64 use {Real}

  -- Between two turns: what is published has frames, and nothing is published before the planner is
  -- initialized.
  pub record IsPlanning (p : Planner Real) : Type 0 where
    pub published_are : (motion : Motion Real) → p.published ≡ some motion → IsPlanned Real motion
    pub silent : p.initialized ≡ false → p.published ≡ none
    pub sequence_is : p.initialized ≡ true → IsPlanned Real p.motion_seq

  resample_output-IsPlanned :
      (out : Option (List (List f32.Real) × ℕ)) (motion : Motion Real)
      → resample_output m out ≡ some motion
      → IsPlanned Real motion
  unfolding resample_output
  resample_output-IsPlanned none motion e = absurd (cc)
  resample_output-IsPlanned (some (rows, n)) motion e = (resample-IsPlanned m rows n motion e).0

  -- With a new plan or without.
  abbrev Published : Planner Real → Planner Real × Bool → Type 0
  Published p (q, ok) =
      (q.initialized ≡ p.initialized)
      × (q.reinit_done ≡ p.reinit_done)
      × (ok ≡ false → (q.published ≡ p.published) × (q.motion_seq ≡ p.motion_seq))
      × (ok ≡ true → (q.published ≡ some q.motion_seq) × IsPlanned Real q.motion_seq)

  publish_motion-Published :
      (p : Planner Real) (made : Option (Motion Real))
      → ((motion : Motion Real) → made ≡ some motion → IsPlanned Real motion)
      → Published p (publish_motion m p made)
  unfolding publish_motion
  publish_motion-Published p none planned = (refl, refl, (λ _. (refl, refl)), λ e. absurd (cc))
  publish_motion-Published p (some motion) planned =
      let here = planned motion refl in
      (
        refl,
        refl,
        (λ e. absurd (cc)),
        λ e. (
          refl,
          record {
            frames_are = here.frames_are;
            some_frame = here.some_frame;
            capped = here.capped;
          },
        ),
      )

  run_and_publish-Published :
      (p : Planner Real) (r : Readings f32.Real Real) (tensors : Tensors f32.Real)
      → Published p (run_and_publish m p r tensors)
  unfolding run_and_publish
  run_and_publish-Published p r tensors =
      publish_motion-Published p (resample_output m (r.infer tensors))
        (resample_output-IsPlanned (r.infer tensors))

  -- A turn that began without a plan: still none, or a new one with the request acknowledged.
  abbrev pub Outcome : Planner Real → ℕ → Planner Real → Type 0
  Outcome p requested q =
      ((q.initialized ≡ false) × (q.published ≡ none) × (q.reinit_done ≡ p.reinit_done))
      ⊎ ((q.initialized ≡ true)
          × (q.published ≡ some q.motion_seq)
          × IsPlanned Real q.motion_seq
          × (q.reinit_done ≡ requested))

  finishing :
      (p q : Planner Real) (ok : Bool) (requested : ℕ)
      → p.initialized ≡ false
      → p.published ≡ none
      → Published p (q, ok)
      → Outcome p requested (acknowledge m (finish_init m (q, ok)) requested)
  unfolding finish_init acknowledge
  finishing p q false requested off silent (same, done, kept, new) =
      inl (same ∙ off, (kept refl).0 ∙ silent, done)
  finishing p q true requested off silent (same, done, kept, new) =
      inr (refl, (new refl).0, (new refl).1, refl)

  pub starting :
      (joints : Option (List Real)) (p : Planner Real) (r : Readings f32.Real Real)
      → p.initialized ≡ false
      → p.published ≡ none
      → Outcome p r.requested (acknowledge m (initialize_once m joints p r) r.requested)
  unfolding initialize_once acknowledge
  starting none p r off silent = inl (off, silent, refl)
  starting (some joints) p r off silent =
      let begun = record p { gen_frame = 0 } in
      let run = run_and_publish m begun r (seed_tensors m p joints) in
      finishing p run.0 run.1 r.requested off silent
        (run_and_publish-Published begun r (seed_tensors m p joints))

  pub Outcome-IsPlanning :
      (p q : Planner Real) (requested : ℕ) → Outcome p requested q → IsPlanning q
  Outcome-IsPlanning p q requested (inl (off, silent, done)) = record {
    published_are = λ motion e. absurd (cc);
    silent = λ _. silent;
    sequence_is = λ e. absurd (cc);
  }
  Outcome-IsPlanning p q requested (inr (on, out, planned, done)) = record {
    published_are = λ motion e.
        let same : some q.motion_seq ≡ some motion = sym out ∙ e in
        let here : q.motion_seq ≡ motion = cc in subst (IsPlanned Real) here planned;
    silent = λ e. absurd (cc);
    sequence_is = λ _. planned;
  }

  -- A turn with a plan: nothing changes in what the reseed looks at.
  abbrev pub Goes : Planner Real → Planner Real → Type 0
  Goes p q = IsPlanning q × (q.initialized ≡ p.initialized) × (q.reinit_done ≡ p.reinit_done)

  publishing :
      (p q : Planner Real) (ok : Bool)
      → p.initialized ≡ true
      → IsPlanning p
      → Published p (q, ok)
      → Goes p q
  publishing p q false on h (same, done, kept, new) =
      let (out, seq) = kept refl in
      (
        record {
          published_are = λ motion e. h.published_are motion (sym out ∙ e);
          silent = λ e. absurd (cc);
          sequence_is = λ _. subst (IsPlanned Real) (sym seq) (h.sequence_is on);
        },
        same,
        done,
      )
  publishing p q true on h (same, done, kept, new) =
      let (out, planned) = new refl in
      (Outcome-IsPlanning p q p.reinit_done (inr (same ∙ on, out, planned, done)), same, done)

  pub planning :
      (snapshot : Option (Motion Real × ℕ)) (ms : MovementState Real) (p : Planner Real)
      (r : Readings f32.Real Real)
      → p.initialized ≡ true
      → IsPlanning p
      → Goes p (plan m snapshot ms p r)
  unfolding plan
  planning (some (motion, cursor)) ms p r on h =
      publishing p _ _ on h (run_and_publish-Published _ r _)
  planning none ms p r on h = publishing p _ _ on h (run_and_publish-Published _ r _)

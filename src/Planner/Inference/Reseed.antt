-- ===== src/Planner/Inference/Reseed.antt =====
-- The planner's reseed: what is published while a request is open, and at its acknowledgement.
use gearsonic_inference.Common.{
  ℕ, leb, leb→le, ◌≤◌, ◌<◌, Bool, true, false, ◌&&◌, not, ◌==◌, ◌≡◌, ◌≢◌, refl, sym, ◌∙◌, Option,
  none, some, List, [], ◌∷◌, All, arith, Bool-cases, inl, inr, ◌⊎◌,
}
use gearsonic_inference.Common.Float.{Machine}
use gearsonic_inference.Control.Playback.{Motion}
use gearsonic_inference.Control.Playback.Timeline.{IsPlanned}
use gearsonic_inference.Motion.Handler.{MovementState}
use gearsonic_inference.Planner.Replan.{need_replan}
use gearsonic_inference.Planner.Inference.Publishing.{
  IsPlanning, Outcome, starting, Outcome-IsPlanning, Goes, planning,
}
use gearsonic_inference.Planner.Inference.{
  Readings, Planner, initial, replan, drop_plan, run_turn, plan_turn, plan_turns,
}

module _ (m : Machine) where
  open m use {f32, f64}
  open f64 use {Real, ratio, add}

  replanning :
      (movement : Option (MovementState Real)) (p : Planner Real) (r : Readings f32.Real Real)
      → p.initialized ≡ true
      → IsPlanning m p
      → Goes m p (replan m movement p r)
  unfolding replan
  replanning none p r on h = (h, refl, refl)
  replanning (some ms) p r on h =
      let (counter, go) = need_replan f64 ms p.last_movement p.replan_counter in
      let q = record p { replan_counter = counter } in
      let h' : IsPlanning m q = record {
        published_are = h.published_are;
        silent = h.silent;
        sequence_is = h.sequence_is;
      } in
      elim (Bool-cases go) [
        | inl goes ↦
            rw (goes, replan)
              (planning m r.snapshot ms (record q { last_movement = ms }) r on
                (record {
                  published_are = h.published_are;
                  silent = h.silent;
                  sequence_is = h.sequence_is;
                }))
        | inr waits ↦ rw (waits, replan) (h', refl, refl)
      ]

  -- The two ways of a turn.
  abbrev Turned : Planner Real → ℕ → Planner Real → Type 0
  Turned p requested q =
      (Goes m p q × (p.initialized ≡ true)) ⊎ (Outcome m p requested q × (p.initialized ≡ false))

  running :
      (on : Bool) (p : Planner Real) (r : Readings f32.Real Real)
      → p.initialized ≡ on
      → IsPlanning m p
      → Turned p r.requested (run_turn m on p r)
  unfolding run_turn
  running true p r e h = inl (
    replanning r.movement (record p { replan_counter = add p.replan_counter (ratio 1 10) }) r e
        (record {
          published_are = h.published_are;
          silent = h.silent;
          sequence_is = h.sequence_is;
        }),
    e,
  )
  running false p r e h = inr (starting m r.joints p r e (h.silent e), e)

  dropping :
      (p : Planner Real) (requested : ℕ)
      → IsPlanning m p
      → IsPlanning m (drop_plan m p requested)
        × ((drop_plan m p requested).reinit_done ≡ p.reinit_done)
        × (requested ≢ p.reinit_done → (drop_plan m p requested).initialized ≡ false)
  unfolding drop_plan
  dropping p requested h = elim (Bool-cases (not (requested == p.reinit_done) && p.initialized)) [
    | inl drops ↦
        rw (drops, drop_plan)
          (
            record {
              published_are = λ motion e. absurd (cc);
              silent = λ _. refl;
              sequence_is = λ e. absurd (cc);
            },
            refl,
            (λ _. refl),
          )
    | inr keeps ↦ rw (keeps, drop_plan) (h, refl, λ differ. ground arith)
  ]

  plan_turn-Turned :
      (p : Planner Real) (r : Readings f32.Real Real)
      → IsPlanning m p
      → Turned (drop_plan m p r.requested) r.requested (plan_turn m p r)
  unfolding plan_turn
  plan_turn-Turned p r h =
      running (drop_plan m p r.requested).initialized (drop_plan m p r.requested) r refl
        (dropping p r.requested h).0

  plan_turn-IsPlanning :
      (p : Planner Real) (r : Readings f32.Real Real)
      → IsPlanning m p
      → IsPlanning m (plan_turn m p r)
  plan_turn-IsPlanning p r h = elim (plan_turn-Turned p r h) [
    | inl ((h', same, done), on) ↦ h'
    | inr (outcome, off) ↦ Outcome-IsPlanning m (drop_plan m p r.requested) _ r.requested outcome
  ]

  all_turns :
      (p : Planner Real) (rs : List (Readings f32.Real Real))
      → IsPlanning m p
      → IsPlanning m (plan_turns m p rs)
  unfolding plan_turns
  all_turns p [] h = h
  all_turns p (r ∷ rs) h = all_turns (plan_turn m p r) rs (plan_turn-IsPlanning p r h)

  pub initial-IsPlanning : (height : Real) → IsPlanning m (initial m height)
  initial-IsPlanning height = record {
    published_are = λ motion e. absurd (cc);
    silent = λ _. refl;
    sequence_is = λ e. absurd (cc);
  }

  -- What the planner publishes over any run of turns, from its start on, has as many frames as it
  -- says, one at least and 1500 at most.
  pub publishes-IsPlanned :
      (height : Real) (rs : List (Readings f32.Real Real)) (motion : Motion Real)
      → (plan_turns m (initial m height) rs).published ≡ some motion
      → IsPlanned Real motion
  publishes-IsPlanned height rs motion e =
      (all_turns (initial m height) rs (initial-IsPlanning height)).published_are motion e

  -- With a request open, a turn that does not acknowledge it publishes nothing.
  open_request :
      (p : Planner Real) (r : Readings f32.Real Real) (ticket : ℕ)
      → IsPlanning m p
      → p.reinit_done < ticket
      → ticket ≤ r.requested
      → (plan_turn m p r).reinit_done < ticket
      → (plan_turn m p r).published ≡ none
  open_request p r ticket h before asked still =
      let (h', same, off) = dropping p r.requested h in
      let idle = off (λ e. absurd (omega (arith, before, asked, e))) in
      elim (plan_turn-Turned p r h) [
        | inl (goes, on) ↦ absurd (let clash : true ≡ false = sym on ∙ idle in cc)
        | inr (inl (off', silent, done), _) ↦ silent
        | inr (inr (on, out, planned, done), _) ↦ absurd (omega (arith, done, asked, still))
      ]

  acknowledged_stays :
      (p : Planner Real) (r : Readings f32.Real Real) (ticket : ℕ)
      → IsPlanning m p
      → ticket ≤ p.reinit_done
      → ticket ≤ r.requested
      → ticket ≤ (plan_turn m p r).reinit_done
  acknowledged_stays p r ticket h done_before asked =
      let (h', same, off) = dropping p r.requested h in
      elim (plan_turn-Turned p r h) [
        | inl ((_, _, done), on) ↦ omega (arith, done, same, done_before)
        | inr (inl (_, _, done), _) ↦ omega (arith, done, same, done_before)
        | inr (inr (_, _, _, done), _) ↦ omega (arith, done, asked)
      ]

  stays_acknowledged :
      (p : Planner Real) (rs : List (Readings f32.Real Real)) (ticket : ℕ)
      → IsPlanning m p
      → ticket ≤ p.reinit_done
      → All (λ r. ticket ≤ r.requested) rs
      → ticket ≤ (plan_turns m p rs).reinit_done
  unfolding plan_turns
  stays_acknowledged p [] ticket h before asked = before
  stays_acknowledged p (r ∷ rs) ticket h before asked =
      stays_acknowledged (plan_turn m p r) rs ticket (plan_turn-IsPlanning p r h)
        (acknowledged_stays p r ticket h before asked.0) asked.1

  -- From a state in which a reseed request is open, after one or more turns that all see it: as
  -- long as it is not acknowledged, nothing is published. A motion in the buffer thus comes from
  -- after the reseed.
  pub no_stale_plan :
      (p : Planner Real) (r : Readings f32.Real Real) (rs : List (Readings f32.Real Real))
      (ticket : ℕ)
      → IsPlanning m p
      → p.reinit_done < ticket
      → All (λ r. ticket ≤ r.requested) (r ∷ rs)
      → (plan_turns m p (r ∷ rs)).reinit_done < ticket
      → (plan_turns m p (r ∷ rs)).published ≡ none
  unfolding plan_turns
  no_stale_plan p r [] ticket h before asked still = open_request p r ticket h before asked.0 still
  no_stale_plan p r (next ∷ rs) ticket h before asked still =
      let q = plan_turn m p r in
      let h' = plan_turn-IsPlanning p r h in
      elim (Bool-cases (leb ticket q.reinit_done)) [
        | inl done ↦
            let late =
              stays_acknowledged q (next ∷ rs) ticket h' (leb→le ticket q.reinit_done done)
                asked.1 in
            absurd (omega (arith, late, still))
        | inr open_still ↦
            no_stale_plan q next rs ticket h' (ground (arith, open_still)) asked.1 still
      ]

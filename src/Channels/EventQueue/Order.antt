-- ===== src/Channels/EventQueue/Order.antt =====
-- Every item of an EventQueue leaves it once, in the order of arrival.
use gearsonic_inference.Common.{
  ℕ, ◌≤◌, ◌<◌, ◌≡◌, refl, ap, sym, ◌∙◌, Option, none, some, List, [], ◌∷◌, ◌++◌, length, leb,
  Bool-cases, inl, inr, arith, ◌>>=◌, length-append,
}
use gearsonic_inference.Channels.EventQueue.{EventQueue, new, push, drain}
use mathlib.Core.List.{append_assoc, append-nil}

-- What the threads do to the queue, in the order of its lock.
pub data Access (A : Type 0) : Type 0 where
  pushes : A → Access A
  drains : Access A

module _ {A : Type 0} where
  -- What a push gives back, what a drain takes out.
  abbrev returned : Option A → List A
  returned none = []
  returned (some x) = x ∷ []

  unfoldable pub access : EventQueue A → Access A → Option (EventQueue A × List A)
  unfolding push drain
  access q (pushes x) = do (q', evicted) ← push q x; some (q', returned evicted)
  access q drains = some (drain q)

  -- The queue after a sequence of accesses, and all that left it.
  unfoldable pub run : EventQueue A → List (Access A) → Option (EventQueue A × List A)
  unfolding access
  run q [] = some (q, [])
  run q (a ∷ rest) = do (q', out) ← access q a; (q'', outs) ← run q' rest; some (q'', out ++ outs)

  abbrev pub arrived : List (Access A) → List A
  arrived [] = []
  arrived (pushes x ∷ rest) = x ∷ arrived rest
  arrived (drains ∷ rest) = arrived rest

  record IsBounded (q : EventQueue A) : Type 0 where
    pub some_room : 0 < q.capacity
    pub within : length q.queue ≤ q.capacity

  -- The items of one access.
  abbrev item : Access A → List A
  item (pushes x) = x ∷ []
  item drains = []

  -- An access keeps the bound and the capacity, and what leaves is the front.
  abbrev Moves : EventQueue A → Access A → Type 0
  Moves q a =
      (q' : EventQueue A) × (out : List A) × (access q a ≡ some (q', out))
      × IsBounded q'
      × (out ++ q'.queue ≡ q.queue ++ item a)
      × (q'.capacity ≡ q.capacity)

  push-full :
      (xs : List A) (x : A) (capacity : ℕ)
      → 0 < capacity
      → length xs ≡ capacity
      → Moves (record { queue = xs; capacity = capacity }) (pushes x)
  unfolding access
  push-full [] x capacity h full = absurd (omega arith)
  push-full (y ∷ ys) x capacity h full = (
    record { queue = ys ++ x ∷ []; capacity = capacity },
    y ∷ [],
    ground arith,
    ground (arith, length-append ys (x ∷ [])),
    refl,
    refl,
  )

  access-Moves : (q : EventQueue A) (a : Access A) → IsBounded q → Moves q a
  unfolding access
  access-Moves q (pushes x) b = elim (Bool-cases (leb q.capacity (length q.queue))) [
    | inl full ↦ push-full q.queue x q.capacity b.some_room (ground (arith, b.within))
    | inr room ↦ (
      record { queue = q.queue ++ x ∷ []; capacity = q.capacity },
      [],
      ground arith,
      ground (arith, length-append q.queue (x ∷ [])),
      refl,
      refl,
    )
  ]
  access-Moves q drains b =
      (record { queue = []; capacity = q.capacity }, q.queue, refl, ground arith, refl, refl)

  -- An access and the rest of the sequence.
  access-run :
      (q q' q'' : EventQueue A) (a : Access A) (rest : List (Access A)) (out outs : List A)
      → access q a ≡ some (q', out)
      → run q' rest ≡ some (q'', outs)
      → run q (a ∷ rest) ≡ some (q'', out ++ outs)
  unfolding run
  access-run q q' q'' a rest out outs e f = ground (arith, e, f)

  arrived_split :
      (a : Access A) (rest : List (Access A)) → arrived (a ∷ rest) ≡ item a ++ arrived rest
  arrived_split (pushes x) rest = refl
  arrived_split drains rest = refl

  run_order :
      (q : EventQueue A) (accesses : List (Access A))
      → IsBounded q
      → (q' : EventQueue A) × (out : List A) × (run q accesses ≡ some (q', out))
        × (out ++ q'.queue ≡ q.queue ++ arrived accesses)
        × (length q'.queue ≤ q'.capacity)
        × (q'.capacity ≡ q.capacity)
  unfolding run
  run_order q [] b = (q, [], refl, sym (append-nil q.queue), b.within, refl)
  run_order q (a ∷ rest) b =
      let (q', out, e, b', moved, same) = access-Moves q a b in
      let (q'', outs, f, order, within, same') = run_order q' rest b' in
      (
        q'',
        out ++ outs,
        access-run q q' q'' a rest out outs e f,
        append_assoc out outs q''.queue
            ∙ ap (λ t. out ++ t) order
            ∙ sym (append_assoc out q'.queue (arrived rest))
            ∙ ap (λ t. t ++ arrived rest) moved
            ∙ append_assoc q.queue (item a) (arrived rest)
            ∙ ap (λ t. q.queue ++ t) (sym (arrived_split a rest)),
        within,
        same' ∙ same,
      )

  -- A new queue with room for an item or more, after any pushes and drains: no access fails; what
  -- was evicted or drained, followed by what is queued, is what was pushed, each item once and in the
  -- order of arrival; and no more is queued than the capacity.
  pub queue_order :
      (capacity : ℕ) (accesses : List (Access A))
      → 0 < capacity
      → (q : EventQueue A) × (out : List A) × (run (new capacity) accesses ≡ some (q, out))
        × (out ++ q.queue ≡ arrived accesses)
        × (length q.queue ≤ capacity)
  queue_order capacity accesses h =
      let (q, out, e, order, within, same) = run_order (new capacity) accesses (omega arith) in
      (q, out, e, order, omega arith)

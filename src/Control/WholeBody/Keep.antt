-- ===== src/Control/WholeBody/Keep.antt =====
-- What holds of WholeBodyController's loop, turn by turn.
use gearsonic_inference.Common.{
  ℕ, suc, ◌+◌, Option, some, List, [], ◌∷◌, ◌≡◌, refl, ap, subst, ◌∙◌, All, length, ◌>>=◌, arith,
}
use gearsonic_inference.Common.Float.{Machine}
use gearsonic_inference.Control.WholeBody.{Readings, Controller}
use gearsonic_inference.Control.WholeBody.Loop.{turn, turns}

-- The call returns a value with the property.
abbrev pub Gives {ℓ κ} : {A : Type ℓ} → (A → Type κ) → Option A → Type (ℓ ⊔ κ)
Gives {A = A} P o = (a : A) × (o ≡ some a) × P a

pub Gives->>= {ℓ κ} :
    {A B : Type ℓ} {Q : A → Type κ} {P : B → Type κ} (o : Option A) (k : A → Option B)
    → Gives Q o
    → ((a : A) → Q a → Gives P (k a))
    → Gives P (o >>= k)
Gives->>= o k (a, e, q) h = let (b, e', p) = h a q in (b, ap (λ o. o >>= k) e ∙ e', p)

module _ (m : Machine) where
  open m use {f32, f64}
  open f64 use {Real}

  -- A property that each turn takes from n to n + 1.
  pub turns-Gives {κ μ} :
      (P : ℕ → Controller f32.Real Real → Type κ) (Q : Readings f32.Real Real → Type μ)
      → ((n : ℕ) (w : Controller f32.Real Real) (r : Readings f32.Real Real)
          → P n w
          → Q r
          → Gives (λ t. P (suc n) t.0) (turn m w r))
      → (n : ℕ) (w : Controller f32.Real Real) (rs : List (Readings f32.Real Real)) → P n w
      → All Q rs
      → Gives (P (n + length rs)) (turns m w rs)
  unfolding turns
  turns-Gives P Q step n w [] p q =
      let e : n ≡ n + 0 = omega arith in (w, refl, subst (λ k. P k w) e p)
  turns-Gives P Q step n w (r ∷ rs) p q =
      let e : suc n + length rs ≡ n + suc (length rs) = omega arith in
      Gives->>= (turn m w r) _ (step n w r p q.0) (λ t p'.
        let (w', e', p'') = turns-Gives P Q step (suc n) t.0 rs p' q.1 in
        (w', e', subst (λ k. P k w') e p''))

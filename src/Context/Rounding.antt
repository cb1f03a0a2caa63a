-- ===== src/Context/Rounding.antt =====
-- What follows from the laws of a rounding.
use capital.Prelude.{◌≡◌, sym, ap, ◌∙◌, subst, Bool-cases, inl, inr}
use capital.Rational.{ℚ, of_ℕ, le?}
use capital.Rational.Order.{◌≤ℚ◌, ≤ℚ_of_lt}
use capital.Rational.Abs.{abs, abs-of_nonneg, abs-of_nonpos}
use capital.Context.{Context, IsRounding, absolute}

module _ {r : ℚ → ℚ} (law : IsRounding r) where
  pub round-nonneg : (a : ℚ) → of_ℕ 0 ≤ℚ a → of_ℕ 0 ≤ℚ r a
  round-nonneg a h = subst (λ t. t ≤ℚ r a) law.zero (law.mono (of_ℕ 0) a h)

  pub round-nonpos : (a : ℚ) → a ≤ℚ of_ℕ 0 → r a ≤ℚ of_ℕ 0
  round-nonpos a h = subst (λ t. r a ≤ℚ t) law.zero (law.mono a (of_ℕ 0) h)

  pub abs-round : (a : ℚ) → abs (r a) ≡ r (abs a)
  abs-round a = elim (Bool-cases (le? (of_ℕ 0) a)) [
    | inl h ↦ abs-of_nonneg (r a) (round-nonneg a h) ∙ ap r (sym (abs-of_nonneg a h))
    | inr h ↦
        let n : a ≤ℚ of_ℕ 0 = ≤ℚ_of_lt _ _ h in
        abs-of_nonpos (r a) (round-nonpos a n) ∙ (sym (law.odd a) ∙ ap r (sym (abs-of_nonpos a n)))
  ]

pub absolute-round :
    ⦃c : Context⦄ (law : IsRounding c.round) (a : ℚ) → absolute (c.round a) ≡ c.round (abs a)
absolute-round ⦃c⦄ law a = ap c.round (abs-round law a) ∙ law.idem (abs a)

-- ===== src/Backtest/Scores/Bounds.antt =====
-- engine/backtest/runner.py: the metrics that are percentages stay within 0 and 100.
use capital.Prelude.{
  subst, ◌≤◌, Bool, Bool-cases, inl, inr, List, [], ◌∷◌, select, length, arith, eqb, All,
}
use capital.Rational.{ℚ, of_ℕ, le?}
use capital.Rational.Order.{◌≤ℚ◌, lt?, ≤ℚ_trans, ≤ℚ_refl, ≤ℚ_of_lt, sub-nonneg}
use capital.Context.{Context, IsRounding, Fits, quotient, maximum, ◌⊖◌, ◌⊗◌}
use capital.Backtest.{BacktestTrade, Curve}
use capital.Backtest.Scores.{win_rate, closing, winning, deepest, decline, metrics}
use capital.Context.Rounding.{round-nonneg}
use capital.Models.{Time}
use capital.Context.Percent.{
  IsPercent, hundred-nonneg, share-IsPercent, of_ℕ_mono, of_ℕ-pos, sub-le,
}

length-select {ℓ} : {A : Type ℓ} (p : A → Bool) (xs : List A) → length (select p xs) ≤ length xs
length-select p [] = omega arith
length-select p (x ∷ xs) = elim (Bool-cases (p x)) [
  | inl e ↦ rw e (omega (arith, length-select p xs))
  | inr e ↦ rw e (omega (arith, length-select p xs))
]

maximum-le_left : (a b : ℚ) → a ≤ℚ maximum a b
maximum-le_left a b = elim (Bool-cases (le? b a)) [
  | inl e ↦ rw e (≤ℚ_refl a)
  | inr e ↦ rw e (≤ℚ_of_lt a b e)
]

maximum-le_right : (a b : ℚ) → b ≤ℚ maximum a b
maximum-le_right a b = elim (Bool-cases (le? b a)) [ inl e ↦ rw e e | inr e ↦ rw e (≤ℚ_refl b) ]

maximum-le : (a b d : ℚ) → a ≤ℚ d → b ≤ℚ d → maximum a b ≤ℚ d
maximum-le a b d f g = elim (Bool-cases (le? b a)) [ inl e ↦ rw e f | inr e ↦ rw e g ]

module _ ⦃c : Context⦄ (r : IsRounding c.round) (one : Fits (of_ℕ 1)) (top : Fits (of_ℕ 100)) where
  -- The win rate of a backtest is between 0 and 100 percent, for every rounding of the decimal
  -- context that holds 1 and 100 as they are.
  pub win_rate_bound : (trades : List BacktestTrade) → IsPercent (win_rate trades)
  unfolding win_rate
  win_rate_bound trades = elim (Bool-cases (eqb (length (closing trades)) 0)) [
    | inl e ↦ rw e (≤ℚ_refl (of_ℕ 0), hundred-nonneg)
    | inr e ↦ rw e (
        share-IsPercent r one top (of_ℕ (length (winning trades))) (of_ℕ (length (closing trades)))
          (of_ℕ_mono 0 (length (winning trades)) (omega arith))
          (of_ℕ_mono _ _ (length-select (λ t. lt? (of_ℕ 0) t.realized_pnl) (closing trades)))
          (of_ℕ-pos _ e))
  ]

  -- An equity that is not negative and that the context holds.
  abbrev pub IsSolvent : (Time × ℚ) → Type 0
  IsSolvent point = (of_ℕ 0 ≤ℚ point.1) × Fits point.1

  decline-IsPercent :
      (peak worst equity : ℚ)
      → Fits peak
      → IsSolvent (0, equity)
      → equity ≤ℚ peak
      → IsPercent worst
      → IsPercent (decline peak worst equity)
  decline-IsPercent peak worst equity fits solvent below percent =
      elim (Bool-cases (le? peak (of_ℕ 0))) [
        | inl e ↦ rw e percent
        | inr e ↦
            let share : IsPercent (quotient (peak ⊖ equity) peak ⊗ of_ℕ 100) =
              share-IsPercent r one top (peak ⊖ equity) peak
                (round-nonneg r _ (sub-nonneg equity peak below))
                (subst (λ t. peak ⊖ equity ≤ℚ t) fits (r.mono _ _ (sub-le peak equity solvent.0)))
                e in
            rw e (
              ≤ℚ_trans _ _ _ percent.0 (maximum-le_left worst _),
              maximum-le worst _ _ percent.1 share.1,
            )
      ]

  deepest-IsPercent :
      (peak worst : ℚ) (curve : Curve)
      → Fits peak
      → All IsSolvent curve
      → IsPercent worst
      → IsPercent (deepest peak worst curve)
  unfolding deepest
  deepest-IsPercent peak worst [] fits solvent percent = percent
  deepest-IsPercent peak worst ((t, equity) ∷ rest) fits solvent percent =
      let held : Fits (maximum peak equity) = maximum-Fits peak equity fits solvent.0.1 in
      deepest-IsPercent (maximum peak equity) (decline (maximum peak equity) worst equity) rest held
        solvent.1
        (decline-IsPercent (maximum peak equity) worst equity held solvent.0
          (maximum-le_right peak equity) percent)
    where
      maximum-Fits : (a b : ℚ) → Fits a → Fits b → Fits (maximum a b)
      maximum-Fits a b f g = elim (Bool-cases (le? b a)) [ inl e ↦ rw e f | inr e ↦ rw e g ]

  -- The drawdown of a backtest is between 0 and 100 percent while no equity of its curve is
  -- negative, for every rounding of the decimal context that holds 1, 100, the initial capital and
  -- those equities as they are.
  pub drawdown_bound :
      (root : ℚ → ℚ) (initial : ℚ) (curve : Curve) (trades : List BacktestTrade)
      → Fits initial
      → All IsSolvent curve
      → IsPercent (metrics root initial curve trades).max_drawdown_pct
  unfolding deepest
  drawdown_bound root initial curve trades fits solvent =
      deepest-IsPercent initial (of_ℕ 0) curve fits solvent (≤ℚ_refl (of_ℕ 0), hundred-nonneg)

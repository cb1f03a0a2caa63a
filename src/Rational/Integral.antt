-- ===== src/Rational/Integral.antt =====
-- Rounding to an integer, towards zero and half away from zero.
use mathlib.Core.Quot
use mathlib.Core.Quot.{Quot-set}
use capital.Prelude.{◌≤◌, ◌≡◌, leb, leb→le, le→leb, arith, if◌then◌else◌, true}
use capital.Rational.{ℚ, of_ℕ, of_fraction, neg, le?, ◌+ℚ◌}
use capital.Rational.Order.{lt?, ◌≤ℚ◌}
use capital.Rational.Fractions.{truncate, truncate-congr}

unfoldable pub trunc : ℚ → ℚ
trunc =
    Quot.lift Quot-set (λ x. of_fraction (truncate x)) (λ x y r. Quot.sound (truncate-congr x y r))

abbrev pub half : ℚ
half = of_fraction (1, 0, 1)

-- The nearest integer, a tie away from zero.
unfoldable pub half_up : ℚ → ℚ
unfolding trunc ◌+ℚ◌ neg le?
half_up a = if lt? a (of_ℕ 0) then neg (trunc (neg a +ℚ half)) else trunc (a +ℚ half)

-- Rounding a number that is not negative towards zero does not raise it.
pub trunc-le : (a : ℚ) → of_ℕ 0 ≤ℚ a → trunc a ≤ℚ a
unfolding trunc le?
trunc-le =
    Quot.ind (λ a. hlevel)
      λ (p, n, d) h.
        let k : n ≤ p = omega (arith, leb→le _ _ h) in
        let e : leb n p ≡ true = le→leb _ _ k in rw e (le→leb _ _ (omega arith))

pub trunc-nonneg : (a : ℚ) → of_ℕ 0 ≤ℚ a → of_ℕ 0 ≤ℚ trunc a
unfolding trunc le?
trunc-nonneg =
    Quot.ind (λ a. hlevel)
      λ (p, n, d) h.
        let k : n ≤ p = omega (arith, leb→le _ _ h) in
        let e : leb n p ≡ true = le→leb _ _ k in rw e (le→leb _ _ (omega arith))

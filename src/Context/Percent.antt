-- ===== src/Context/Percent.antt =====
-- Percentages, as the metrics and the indicators round them.
use capital.Prelude.{ℕ, ◌≡◌, ◌≤◌, refl, subst, ap, ◌∙◌, sym, false, arith, eqb}
use capital.Rational.{ℚ, of_ℕ, le?, ◌-ℚ◌, ◌/ℚ◌, ◌+ℚ◌, neg}
use capital.Rational.Order.{
  ◌≤ℚ◌, ◌<ℚ◌, ≤ℚ_refl, /ℚ_mono, *ℚ_mono, *ℚ-inv, /ℚ-nonneg, *ℚ-nonneg, +ℚ_mono_both,
}
use capital.Rational.Abs.{neg-nonpos}
use capital.Rational.Ring.{one-*ℚ, /ℚ_lem, -ℚ_lem, +ℚ-zero}
use capital.Context.{Context, IsRounding, Fits, quotient, ◌⊗◌}
use capital.Context.Rounding.{round-nonneg}

pub of_ℕ_mono : (a b : ℕ) → a ≤ b → of_ℕ a ≤ℚ of_ℕ b
unfolding le?
of_ℕ_mono a b h = ground arith

pub of_ℕ-pos : (a : ℕ) → eqb a 0 ≡ false → of_ℕ 0 <ℚ of_ℕ a
unfolding le?
of_ℕ-pos a h = ground arith

pub sub-le : (a b : ℚ) → of_ℕ 0 ≤ℚ b → a -ℚ b ≤ℚ a
sub-le a b h =
    subst (λ t. t ≤ℚ a) (sym (-ℚ_lem a b))
      (subst (λ t. a +ℚ neg b ≤ℚ t) (+ℚ-zero a)
        (+ℚ_mono_both a a (neg b) (of_ℕ 0) (≤ℚ_refl a) (neg-nonpos b h)))

-- Between 0 and 100.
abbrev pub IsPercent : ℚ → Type 0
IsPercent a = (of_ℕ 0 ≤ℚ a) × (a ≤ℚ of_ℕ 100)

pub hundred-nonneg : of_ℕ 0 ≤ℚ of_ℕ 100
unfolding le?
hundred-nonneg = refl

pub /ℚ-self : (b : ℚ) → of_ℕ 0 <ℚ b → b /ℚ b ≡ of_ℕ 1
/ℚ-self b h = /ℚ_lem b b ∙ *ℚ-inv b h

module _ ⦃c : Context⦄ (r : IsRounding c.round) (one : Fits (of_ℕ 1)) (top : Fits (of_ℕ 100)) where
  -- The rounded share of a part in a whole, in percent.
  pub share-IsPercent :
      (a b : ℚ) → of_ℕ 0 ≤ℚ a → a ≤ℚ b → of_ℕ 0 <ℚ b → IsPercent (quotient a b ⊗ of_ℕ 100)
  share-IsPercent a b nonneg le pos =
      let low : of_ℕ 0 ≤ℚ quotient a b = round-nonneg r (a /ℚ b) (/ℚ-nonneg a b nonneg pos) in
      let high : quotient a b ≤ℚ of_ℕ 1 =
        subst (λ t. quotient a b ≤ℚ t) (ap c.round (/ℚ-self b pos) ∙ one)
          (r.mono _ _ (/ℚ_mono a b b pos le)) in
      (
        round-nonneg r _ (*ℚ-nonneg _ _ low hundred-nonneg),
        subst (λ t. quotient a b ⊗ of_ℕ 100 ≤ℚ t) (ap c.round (one-*ℚ (of_ℕ 100)) ∙ top)
            (r.mono _ _ (*ℚ_mono _ _ _ hundred-nonneg high)),
      )

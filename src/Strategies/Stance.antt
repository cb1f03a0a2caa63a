-- ===== src/Strategies/Stance.antt =====
-- The orders of the built-in strategies of engine/strategies.
use capital.Prelude.{◌≡◌, refl, true, false, ◌⊎◌, inl, inr, Bool-cases, some, arith}
use capital.Rational.{ℚ, of_ℕ, le?, ◌*ℚ◌, ◌/ℚ◌}
use capital.Rational.Order.{◌≤ℚ◌, ◌<ℚ◌, /ℚ-*ℚ, ≤ℚ_refl}
use capital.Context.{Context, Fits, quotient, minimum, ◌⊗◌, ◌⊖◌}
use capital.Models.{Order, is_long, buy, sell}
use capital.Strategies.{StrategyContext, Address, order_of}
use capital.Strategies.Builtin.{dca}

-- An order at the strategy's own address that buys the whole allocation into no long position, or
-- sells the whole of a long one.
pub record LongOnly ⦃c : Context⦄ (a : Address) (ctx : StrategyContext) (o : Order) : Type 0 where
  pub strategy : o.strategy ≡ a.name
  pub market : o.market ≡ a.market
  pub symbol : o.symbol ≡ a.symbol
  pub move :
      ((o.side ≡ buy)
        × (is_long ctx.position.side ≡ false)
        × (o.quantity ≡ quotient ctx.allocation ctx.price)
        × (of_ℕ 0 <ℚ ctx.price)
        × (of_ℕ 0 <ℚ ctx.allocation))
      ⊎ ((o.side ≡ sell) × (is_long ctx.position.side ≡ true) × (o.quantity ≡ ctx.position.qty))

dca-some :
    ⦃c : Context⦄ (a : Address) (tranche : ℚ) (ctx : StrategyContext) (o : Order)
    → dca a tranche ctx ≡ some o
    → let left = ctx.allocation ⊖ ctx.position.qty ⊗ ctx.price in
      (o ≡ order_of a buy (quotient (minimum (tranche ⊗ ctx.allocation) left) ctx.price))
      × (of_ℕ 0 <ℚ ctx.price)
      × (of_ℕ 0 <ℚ ctx.allocation)
unfolding dca
dca-some a tranche ctx o h = ground arith

minimum-le_right : (a b : ℚ) → minimum a b ≤ℚ b
minimum-le_right a b = elim (Bool-cases (le? a b)) [ inl e ↦ rw e e | inr e ↦ rw e (≤ℚ_refl b) ]

-- A tranche of the cost-averaging strategy is a buy at its own address; and at a price at which the
-- context holds the quotient, the tranche is worth no more than what is left of the allocation.
pub dca_bound :
    ⦃c : Context⦄ (a : Address) (tranche : ℚ) (ctx : StrategyContext) (o : Order)
    → Fits (
        minimum (tranche ⊗ ctx.allocation) (ctx.allocation ⊖ ctx.position.qty ⊗ ctx.price)
        /ℚ ctx.price)
    → dca a tranche ctx ≡ some o
    → (o.side ≡ buy)
      × (o.strategy ≡ a.name)
      × (of_ℕ 0 <ℚ ctx.allocation)
      × (o.quantity *ℚ ctx.price ≤ℚ ctx.allocation ⊖ ctx.position.qty ⊗ ctx.price)
dca_bound a tranche ctx o fits h =
    let left : ℚ = ctx.allocation ⊖ ctx.position.qty ⊗ ctx.price in
    let spend : ℚ = minimum (tranche ⊗ ctx.allocation) left in
    let (e, price, budget) = dca-some a tranche ctx o h in
    rw e (
      refl,
      refl,
      budget,
      rw fits (rw (/ℚ-*ℚ spend ctx.price price) (minimum-le_right (tranche ⊗ ctx.allocation) left)),
    )

-- ===== src/Risk/Stops.antt =====
-- The stop-loss and take-profit order.
use capital.Prelude.{◌≡◌, refl, some, arith, ◌≢◌}
use capital.Rational.{ℚ, of_ℕ, ◌+ℚ◌, neg}
use capital.Rational.Ring.{+ℚ-neg, +ℚ-cancel_neg_end_0}
use capital.Rational.Order.{◌<ℚ◌}
use capital.Context.{Context}
use capital.Models.{Order, Position, PositionSide, long, short, flat}
use capital.Portfolio.Fills.Exact.{exact_delta}
use capital.Portfolio.Fills.Refinement.{exact_signed}
use capital.Risk.{RiskManager, stop_order, closing_order, closing_side}

-- Selling a long and buying back a short leave nothing.
pub closes :
    (p : Position)
    → p.side ≢ flat
    → exact_signed p +ℚ exact_delta (closing_side p.side) p.qty ≡ of_ℕ 0
closes p h = by_side p.side h
  where
    by_side :
        (s : PositionSide)
        → s ≢ flat
        → elim s [ long ↦ p.qty | short ↦ neg p.qty | flat ↦ of_ℕ 0 ]
            +ℚ exact_delta (closing_side s) p.qty
          ≡ of_ℕ 0
    by_side long h = +ℚ-neg p.qty
    by_side short h = +ℚ-cancel_neg_end_0 p.qty
    by_side flat h = absurd (h refl)

module _ ⦃c : Context⦄ where
  stop_order-some :
      (risk : RiskManager) (p : Position) (mark : ℚ) (o : Order)
      → stop_order risk p mark ≡ some o
      → (o ≡ closing_order p) × (p.side ≢ flat) × (of_ℕ 0 <ℚ p.qty)
  unfolding stop_order
  stop_order-some risk p mark o h = ground arith

  -- A stop order closes the position exactly: the size that it leaves is 0.
  pub stop_order_closes :
      (risk : RiskManager) (p : Position) (mark : ℚ) (o : Order)
      → stop_order risk p mark ≡ some o
      → (o.strategy ≡ p.strategy)
        × (o.market ≡ p.market)
        × (o.symbol ≡ p.symbol)
        × (of_ℕ 0 <ℚ o.quantity)
        × (exact_signed p +ℚ exact_delta o.side o.quantity ≡ of_ℕ 0)
  stop_order_closes risk p mark o h =
      let s = stop_order-some risk p mark o h in rw s.0 (refl, refl, refl, s.2, closes p s.1)

-- ===== src/Risk/Gate.antt =====
-- What the gate lets through.
use capital.Prelude.{
  ◌≡◌, refl, subst, true, false, Option, none, some, arith, Option-cases, inl, inr,
}
use capital.Rational.{ℚ, of_ℕ, ◌*ℚ◌, ◌/ℚ◌}
use capital.Rational.Order.{◌≤ℚ◌, ◌<ℚ◌, ≤ℚ_refl, ≤ℚ_of_lt, *ℚ_mono, /ℚ-*ℚ}
use capital.Context.{Context, Fits, quotient}
use capital.Models.{Order, Position, Database, Time}
use capital.Risk.{
  RiskManager, cap_order_size, review, gate, increases_exposure, is_halted, kill_switch_tripped,
}

-- The same order but for its quantity, which has not grown.
pub record Clips (o o' : Order) : Type 0 where
  pub strategy : o'.strategy ≡ o.strategy
  pub market : o'.market ≡ o.market
  pub symbol : o'.symbol ≡ o.symbol
  pub side : o'.side ≡ o.side
  pub quantity : o'.quantity ≤ℚ o.quantity

Clips-refl : (o : Order) → Clips o o
Clips-refl o = record {
  strategy = refl;
  market = refl;
  symbol = refl;
  side = refl;
  quantity = ≤ℚ_refl o.quantity;
}

module _ ⦃c : Context⦄ where
  pub cap_order_size-Clips :
      (risk : RiskManager) (o o' : Order) (price : ℚ)
      → cap_order_size risk o price ≡ some o'
      → Clips o o'
  unfolding cap_order_size
  cap_order_size-Clips risk o o' price h =
      let max_qty : ℚ = quotient risk.max_position_notional price in
      ground (arith, Clips-refl o, ≤ℚ_of_lt max_qty o.quantity)

  cap_order_size-bound :
      (risk : RiskManager) (o o' : Order) (price : ℚ)
      → of_ℕ 0 <ℚ risk.max_position_notional
      → cap_order_size risk o price ≡ some o'
      → (of_ℕ 0 <ℚ price) × (o'.quantity ≤ℚ quotient risk.max_position_notional price)
  unfolding cap_order_size
  cap_order_size-bound risk o o' price on h =
      ground (arith, ≤ℚ_refl (quotient risk.max_position_notional price))

  gate-some :
      (risk : RiskManager) (now : Time) (db : Database) (p : Position) (sized : Option Order)
      (o' : Order)
      → gate risk now db p sized ≡ some o'
      → (sized ≡ some o')
        × (is_halted (kill_switch_tripped risk now db) ≡ true → increases_exposure o' p ≡ false)
  gate-some risk now db p none o' h = cc
  gate-some risk now db p (some o) o' h = ground arith

  -- An order that the gate lets through is the order itself or a smaller one, and while the kill
  -- switch is on it adds no exposure.
  pub review_sound :
      (risk : RiskManager) (now : Time) (db : Database) (o o' : Order) (p : Position) (price : ℚ)
      → review risk now db o p price ≡ some o'
      → Clips o o'
        × (is_halted (kill_switch_tripped risk now db) ≡ true → increases_exposure o' p ≡ false)
  unfolding review
  review_sound risk now db o o' p price h =
      let g = gate-some risk now db p (cap_order_size risk o price) o' h in
      (cap_order_size-Clips risk o o' price g.0, g.1)

  pub review-reducing :
      (risk : RiskManager) (now : Time) (db : Database) (o : Order) (p : Position) (price : ℚ)
      → ((o' : Order) → cap_order_size risk o price ≡ some o' → increases_exposure o' p ≡ false)
      → review risk now db o p price ≡ cap_order_size risk o price
  unfolding review
  review-reducing risk now db o p price reduces =
      elim (Option-cases (cap_order_size risk o price)) [
        | inl e ↦ rw e
        | inr (o', e) ↦ rw e (rw (reduces o' e))
      ]

  -- With a cap set, no order passes whose notional at the reviewed price is above it, provided the
  -- context holds the quotient of the cap and the price.
  pub review_notional :
      (risk : RiskManager) (now : Time) (db : Database) (o o' : Order) (p : Position) (price : ℚ)
      → of_ℕ 0 <ℚ risk.max_position_notional
      → Fits (risk.max_position_notional /ℚ price)
      → review risk now db o p price ≡ some o'
      → (of_ℕ 0 <ℚ price) × (o'.quantity *ℚ price ≤ℚ risk.max_position_notional)
  unfolding review
  review_notional risk now db o o' p price on f h =
      let g = gate-some risk now db p (cap_order_size risk o price) o' h in
      let b = cap_order_size-bound risk o o' price on g.0 in
      let k : o'.quantity ≤ℚ risk.max_position_notional /ℚ price =
        subst (λ t. o'.quantity ≤ℚ t) f b.1 in
      (
        b.0,
        subst (λ t. o'.quantity *ℚ price ≤ℚ t) (/ℚ-*ℚ risk.max_position_notional price b.0)
            (*ℚ_mono _ _ price (≤ℚ_of_lt _ _ b.0) k),
      )

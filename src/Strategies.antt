-- ===== src/Strategies.antt =====
-- engine/strategies/base.py: what a strategy sees on a tick, and what it is to the code that runs it.
pub mod Indicators
pub mod Builtin
pub mod Stance
use capital.Prelude.{
  String, Bool, true, false, not, ◌&&◌, Option, none, some, List, map, if◌then◌else◌,
}
use capital.Rational.{ℚ, of_ℕ, le?}
use capital.Rational.Order.{lt?}
use capital.Context.{Context, quotient}
use capital.Models.{Candle, Position, is_long, FillSide, buy, sell, Order}
use capital.Effects.{Result}

pub record StrategyContext : Type 0 where
  -- oldest first
  pub candles : List Candle
  pub position : Position
  pub allocation : ℚ
  pub price : ℚ

-- `BaseStrategy`. `evaluate` may raise.
pub record Strategy : Type 0 where
  pub name : String
  pub symbol : String
  pub market : String
  pub timeframe : String
  pub evaluate : StrategyContext → Result (Option Order)

-- What an order of a strategy is addressed to.
pub record Address : Type 0 where
  pub name : String
  pub market : String
  pub symbol : String

abbrev pub closes : StrategyContext → List ℚ
closes ctx = map (λ k. k.close) ctx.candles

abbrev pub order_of : Address → FillSide → ℚ → Order
order_of a side quantity = record {
  strategy = a.name;
  market = a.market;
  symbol = a.symbol;
  side = side;
  quantity = quantity;
}

module _ ⦃c : Context⦄ where
  -- The common tail of the long-only strategies: deploy the whole allocation when a position is
  -- wanted and there is none, close the whole position when it is not.
  unfoldable pub converge : Address → Bool → Bool → StrategyContext → Option Order
  converge a enter leave ctx =
      let held = is_long ctx.position.side in
      if enter && (not held && (lt? (of_ℕ 0) ctx.allocation && lt? (of_ℕ 0) ctx.price))
      then some (order_of a buy (quotient ctx.allocation ctx.price))
      else (if leave && held then some (order_of a sell ctx.position.qty) else none)

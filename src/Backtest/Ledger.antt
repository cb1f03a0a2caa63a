-- ===== src/Backtest/Ledger.antt =====
-- engine/backtest/runner.py: the equity curve of a run against the cash that its trades moved.
use capital.Prelude.{◌≡◌, Option}
use capital.Rational.{ℚ, ◌+ℚ◌, ◌-ℚ◌}
use capital.Context.{Context}
use capital.Models.{Order}
use capital.Effects.{ok}
use capital.Portfolio.Fills.Exact.{value}
use capital.Strategies.{Strategy, StrategyContext}
use capital.Backtest.{Run, final_of}
use capital.Backtest.Cash.{Exact, earned, fees_in, holding_of}

-- The position is worth what the trades earned, and the fees are those of the trades.
pub record Books (run : Run) : Type 0 where
  pub worth : (m : ℚ) → value (holding_of run.pos) m ≡ earned run.trades m
  pub charged : run.total_fees ≡ fees_in run.trades

-- A strategy that never raises.
abbrev pub Answers : Strategy → Type 0
Answers strategy = (ctx : StrategyContext) → (o : Option Order) × (strategy.evaluate ctx ≡ ok o)

-- The capital, with what the trades earned at a mark, less the fees and the funding.
abbrev pub cash_equity : ℚ → ℚ → Run → ℚ
cash_equity initial price run =
    initial +ℚ earned run.trades price -ℚ fees_in run.trades -ℚ run.total_funding

-- Such a run, that ends at the cash equity.
pub record Balances (initial price : ℚ) (run : Run) : Type 0 where
  pub books : Books run
  pub ends : final_of initial run.equity_curve ≡ cash_equity initial price run

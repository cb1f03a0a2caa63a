-- ===== src/Tests/Replays.antt =====
-- Backtests and indicators at concrete inputs.
use capital.Prelude.{ℕ, ◌≡◌, refl, List, [], ◌∷◌, arith}
use capital.Rational.{ℚ, of_ℕ}
use capital.Context.{unlimited, unlimited-IsRounding}
use capital.Context.Percent.{IsPercent}
use capital.Models.{sell}
use capital.Effects.{ok}
use capital.Portfolio.Fills.{fold_fill}
use capital.Strategies.Indicators.{rsi}
use capital.Strategies.Indicators.Bounds.{rsi_bound}
use capital.Backtest.{BacktestTrade, apply}
use capital.Backtest.Mirror.{view, viewed, outcome, apply-fold_fill}
use capital.Tests.Data.{long_two}

abbrev no_root : ℚ → ℚ
no_root a = of_ℕ 0

apply-fold_fill_example :
    outcome ⦃c = unlimited⦄
      (apply ⦃c = unlimited⦄ (view ⦃c = unlimited⦄ long_two) sell (of_ℕ 3) (of_ℕ 120))
    ≡ viewed ⦃c = unlimited⦄
        (fold_fill ⦃c = unlimited⦄ long_two sell (of_ℕ 3) (of_ℕ 120) (of_ℕ 1) 7)
apply-fold_fill_example =
    apply-fold_fill ⦃c = unlimited⦄ unlimited-IsRounding long_two sell (of_ℕ 3) (of_ℕ 120) (of_ℕ 1)
      7

abbrev trade_of_pnl : ℕ → BacktestTrade
trade_of_pnl n = record {
  time = 0;
  side = sell;
  quantity = of_ℕ 1;
  price = of_ℕ 100;
  fee = of_ℕ 1;
  realized_pnl = of_ℕ n;
}

abbrev prices : List ℚ
prices = of_ℕ 100 ∷ of_ℕ 120 ∷ of_ℕ 90 ∷ of_ℕ 110 ∷ []

rsi_bound_example : (value : ℚ) × ((rsi ⦃c = unlimited⦄ prices 2 ≡ ok value) × IsPercent value)
rsi_bound_example =
    rsi_bound ⦃c = unlimited⦄ unlimited-IsRounding refl refl prices 2 (omega arith) (omega arith)

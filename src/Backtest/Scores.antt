-- ===== src/Backtest/Scores.antt =====
-- engine/backtest/runner.py: `_stdev`, `_metrics` and `run_backtest`.
pub mod Bounds
use capital.Prelude.{
  ℕ, ◌-◌, not, Option, none, some, List, [], ◌∷◌, map, select, length, ltb, eqb, if◌then◌else◌,
}
use capital.Rational.{ℚ, of_ℕ}
use capital.Rational.Order.{lt?, eq?}
use capital.Context.{Context, quotient, maximum, sum, ◌⊖◌, ◌⊗◌}
use capital.Models.{Candle}
use capital.Effects.{Result, ok}
use capital.Effects.Fallible.{◌>>=◌}
use capital.Strategies.{Strategy}
use capital.Backtest.{
  BacktestTrade, BacktestMetrics, BacktestResult, Curve, FeeModel, start, final_of, replay,
  result_of, default_fees,
}

-- The fills that closed part of a position, and those of them that won.
abbrev pub closing : List BacktestTrade → List BacktestTrade
closing trades = select (λ t. not (eq? t.realized_pnl (of_ℕ 0))) trades

abbrev pub winning : List BacktestTrade → List BacktestTrade
winning trades = select (λ t. lt? (of_ℕ 0) t.realized_pnl) (closing trades)

module _ ⦃c : Context⦄ where
  abbrev pub mean : List ℚ → ℚ
  mean xs = quotient (sum xs) (of_ℕ (length xs))

  unfoldable pub stdev : (ℚ → ℚ) → List ℚ → ℚ
  stdev root values =
      let m = mean values in
      if ltb (length values) 2 then of_ℕ 0 else root (mean (map (λ v. (v ⊖ m) ⊗ (v ⊖ m)) values))

  abbrev pub total_return : ℚ → Curve → ℚ
  total_return initial curve =
      if lt? (of_ℕ 0) initial
      then quotient (final_of initial curve ⊖ initial) initial ⊗ of_ℕ 100
      else of_ℕ 0

  unfoldable pub win_rate : List BacktestTrade → ℚ
  win_rate trades =
      if eqb (length (closing trades)) 0
      then of_ℕ 0
      else quotient (of_ℕ (length (winning trades))) (of_ℕ (length (closing trades))) ⊗ of_ℕ 100

  -- The decline of a bar from the peak, where it is deeper than the deepest so far.
  abbrev pub decline : ℚ → ℚ → ℚ → ℚ
  decline top worst equity =
      if lt? (of_ℕ 0) top then maximum worst (quotient (top ⊖ equity) top ⊗ of_ℕ 100) else worst

  -- The deepest decline from a peak, given the peak and the decline so far.
  unfoldable pub deepest : ℚ → ℚ → Curve → ℚ
  deepest peak worst [] = worst
  deepest peak worst ((t, equity) ∷ rest) =
      let top = maximum peak equity in deepest top (decline top worst equity) rest

  -- The returns from bar to bar.
  unfoldable pub returns : ℚ → Curve → List ℚ
  returns prev [] = []
  returns prev ((t, equity) ∷ rest) =
      let later = returns equity rest in
      if lt? (of_ℕ 0) prev then quotient (equity ⊖ prev) prev ∷ later else later

  abbrev pub sharpe_of : (ℚ → ℚ) → List ℚ → ℚ
  sharpe_of root [] = of_ℕ 0
  sharpe_of root (r ∷ rs) =
      let sd = stdev root (r ∷ rs) in
      if lt? (of_ℕ 0) sd then quotient (mean (r ∷ rs)) sd else of_ℕ 0

  -- `_metrics`
  abbrev pub metrics : (ℚ → ℚ) → ℚ → Curve → List BacktestTrade → BacktestMetrics
  metrics root initial curve trades = record {
    total_return_pct = total_return initial curve;
    win_rate_pct = win_rate trades;
    max_drawdown_pct = deepest initial (of_ℕ 0) curve;
    sharpe = sharpe_of root (returns initial curve);
    trades = length trades;
    wins = length (winning trades);
    losses = length (closing trades) - length (winning trades);
  }

  abbrev pub or_default_fees : Option FeeModel → FeeModel
  or_default_fees (some fees) = fees
  or_default_fees none = default_fees

  unfoldable pub run_backtest :
      (ℚ → ℚ) → Strategy → List Candle → ℚ → Option FeeModel → Result BacktestResult
  unfolding replay win_rate deepest returns stdev
  run_backtest root strategy candles initial fees = do
    run ← replay strategy (or_default_fees fees) initial [] candles start
    ok (result_of (metrics root) initial run)

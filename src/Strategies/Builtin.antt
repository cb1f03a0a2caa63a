-- ===== src/Strategies/Builtin.antt =====
-- engine/strategies/ma_cross.py, rsi.py, macd.py, bollinger.py and dca.py: the built-in strategies.
use capital.Prelude.{
  ℕ, ◌+◌, String, not, ◌||◌, ◌&&◌, Option, none, some, List, length, take_last, ltb, leb,
  if◌then◌else◌,
}
use capital.Rational.{ℚ, of_ℕ, le?}
use capital.Rational.Order.{lt?}
use capital.Context.{Context, minimum, quotient, sum, ◌⊖◌, ◌⊗◌}
use capital.Models.{buy, Order}
use capital.Effects.{Result, ok, err, value_error}
use capital.Effects.Fallible.{◌>>=◌}
use capital.Strategies.{StrategyContext, Address, Strategy, closes, converge, order_of}
use capital.Strategies.Indicators.{rsi, macd, bollinger, last}

-- A strategy at an address on a timeframe.
abbrev pub strategy_at : Address → String → (StrategyContext → Result (Option Order)) → Strategy
strategy_at a timeframe evaluate = record {
  name = a.name;
  symbol = a.symbol;
  market = a.market;
  timeframe = timeframe;
  evaluate = evaluate;
}

module _ ⦃c : Context⦄ where
  -- `_sma` of ma_cross.py, on a list that is not empty.
  abbrev pub window_mean : List ℚ → ℕ → ℚ
  window_mean values period =
      let window = take_last period values in quotient (sum window) (of_ℕ (length window))

  -- `MACrossStrategy`, at periods `0 < fast < slow`.
  unfoldable pub ma_cross : Address → ℕ → ℕ → StrategyContext → Result (Option Order)
  unfolding converge
  ma_cross a fast slow ctx =
      let up = lt? (window_mean (closes ctx) slow) (window_mean (closes ctx) fast) in
      if ltb (length (closes ctx)) slow then ok none else ok (converge a up (not up) ctx)

  -- `MACrossStrategy(...)`, which refuses periods in the wrong order.
  abbrev pub new_ma_cross : Address → String → ℕ → ℕ → Result Strategy
  new_ma_cross a timeframe fast slow =
      if leb slow fast then err value_error else ok (strategy_at a timeframe (ma_cross a fast slow))

  -- `RSIStrategy`
  unfoldable pub rsi_reversion : Address → ℕ → ℚ → ℚ → StrategyContext → Result (Option Order)
  unfolding converge rsi
  rsi_reversion a period oversold overbought ctx =
      if ltb (length (closes ctx)) (period + 1) then ok none else (do
        value ← rsi (closes ctx) period
        ok (converge a (le? value oversold) (le? overbought value) ctx))

  abbrev pub new_rsi_reversion : Address → String → ℕ → ℚ → ℚ → Result Strategy
  new_rsi_reversion a timeframe period oversold overbought =
      if lt? (of_ℕ 0) oversold && (lt? oversold overbought && lt? overbought (of_ℕ 100))
      then ok (strategy_at a timeframe (rsi_reversion a period oversold overbought))
      else err value_error

  -- `MACDStrategy`
  unfoldable pub macd_trend : Address → ℕ → ℕ → ℕ → StrategyContext → Result (Option Order)
  unfolding converge macd
  macd_trend a fast slow signal ctx =
      if ltb (length (closes ctx)) (slow + signal) then ok none else (do
        (line, signal_line, histogram) ← macd (closes ctx) fast slow signal
        ok (converge a (lt? signal_line line) (not (lt? signal_line line)) ctx))

  abbrev pub new_macd_trend : Address → String → ℕ → ℕ → ℕ → Result Strategy
  new_macd_trend a timeframe fast slow signal =
      if leb slow fast
      then err value_error
      else ok (strategy_at a timeframe (macd_trend a fast slow signal))

  -- `BollingerStrategy`
  unfoldable pub bollinger_breakout :
      (ℚ → ℚ) → Address → ℕ → ℚ → StrategyContext → Result (Option Order)
  unfolding converge bollinger
  bollinger_breakout root a period num_std ctx =
      if ltb (length (closes ctx)) period then ok none else (do
        (lower, mid, upper) ← bollinger root (closes ctx) period num_std
        latest ← last (closes ctx)
        ok (converge a (lt? upper latest) (lt? latest mid) ctx))

  abbrev pub new_bollinger_breakout : (ℚ → ℚ) → Address → String → ℕ → ℚ → Result Strategy
  new_bollinger_breakout root a timeframe period num_std =
      if leb period 1 || le? num_std (of_ℕ 0)
      then err value_error
      else ok (strategy_at a timeframe (bollinger_breakout root a period num_std))

  -- `DCAStrategy`: one tranche at a time until all but dust of the allocation is deployed.
  unfoldable pub dca : Address → ℚ → StrategyContext → Option Order
  dca a tranche ctx =
      let remaining = ctx.allocation ⊖ ctx.position.qty ⊗ ctx.price in
      if le? ctx.allocation (of_ℕ 0) || le? ctx.price (of_ℕ 0)
      then none
      else (if le? remaining (quotient ctx.allocation (of_ℕ 1000))
          then none
          else some
              (order_of a buy (quotient (minimum (tranche ⊗ ctx.allocation) remaining) ctx.price)))

  abbrev pub new_dca : Address → String → ℚ → Result Strategy
  new_dca a timeframe tranche =
      if lt? (of_ℕ 0) tranche && le? tranche (of_ℕ 1)
      then ok (strategy_at a timeframe (λ ctx. ok (dca a tranche ctx)))
      else err value_error

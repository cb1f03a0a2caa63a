-- ===== src/Executors.antt =====
-- engine/trading/executors: the trading filters, and the executors as one interface.
pub mod Sim
pub mod Venue
use capital.Prelude.{String, Option, if◌then◌else◌}
use capital.Rational.{ℚ, of_ℕ, of_fraction}
use capital.Rational.Integral.{trunc, half_up}
use capital.Context.{Context, divide, quantize, ◌⊗◌}
use capital.Models.{Order, Fill, Database, Time}
use capital.Effects.{Result, ok, err}
use capital.Effects.Stateful.{Action}
use capital.Effects.Fallible.{◌>>=◌}

pub record SymbolFilters : Type 0 where
  pub tick_size : ℚ
  pub step_size : ℚ
  pub min_notional : ℚ

-- 0.01, 0.00001 and 5
abbrev pub default_filters : SymbolFilters
default_filters = record {
  tick_size = of_fraction (1, 0, 99);
  step_size = of_fraction (1, 0, 99_999);
  min_notional = of_ℕ 5;
}

module _ ⦃c : Context⦄ where
  -- `(value / step).quantize(Decimal(1), rounding=mode) * step`
  abbrev pub round_to : (ℚ → ℚ) → ℚ → ℚ → Result ℚ
  round_to mode step value = do
    steps ← divide value step
    whole ← quantize mode steps
    ok (whole ⊗ step)

  unfoldable pub round_price : SymbolFilters → ℚ → Result ℚ
  round_price filt price = round_to half_up filt.tick_size price

  unfoldable pub round_quantity : SymbolFilters → ℚ → Result ℚ
  round_quantity filt qty = round_to trunc filt.step_size qty

-- `BaseExecutor`: an executor turns an order, a reference price and the time into a fill.
pub record Executor : Type 0 where
  pub mode : String
  pub execute : Order → ℚ → Time → Action Database Fill

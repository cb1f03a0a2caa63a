-- ===== src/Executors/Sim.antt =====
-- engine/trading/executors/sim.py: paper fills on the reference price, moved by slippage.
pub mod Log
use capital.Prelude.{String, ◌==◌, Option, none, some, List, [], ◌∷◌, if◌then◌else◌}
use capital.Rational.{ℚ, of_ℕ, of_fraction, le?}
use capital.Rational.Order.{lt?}
use capital.Rational.Integral.{trunc, half_up}
use capital.Context.{Context, quotient, ◌⊕◌, ◌⊖◌, ◌⊗◌}
use capital.Models.{Order, Fill, FillSide, buy, sell, Database, Time}
use capital.Effects.{execution_error}
use capital.Effects.Stateful.{Action, ◌>>=◌, ◌>>◌, raise_if, lift}
use capital.Portfolio.Fills.{record_fill}
use capital.Executors.{SymbolFilters, default_filters, round_price, round_quantity, Executor}

pub record SimExecutor : Type 0 where
  pub fee_rate : ℚ
  pub slippage_bps : ℚ
  pub filters : List (String × SymbolFilters)
  pub fallback : SymbolFilters

-- A commission of 0.0004, slippage of 2 basis points, and no filters of its own.
abbrev pub default_sim : SimExecutor
default_sim = record {
  fee_rate = of_fraction (4, 0, 9_999);
  slippage_bps = of_ℕ 2;
  filters = [];
  fallback = default_filters;
}

abbrev pub lookup_filters : String → List (String × SymbolFilters) → Option SymbolFilters
lookup_filters symbol [] = none
lookup_filters symbol ((s, f) ∷ rest) = if s == symbol then some f else lookup_filters symbol rest

abbrev pub or_default : SymbolFilters → Option SymbolFilters → SymbolFilters
or_default d (some f) = f
or_default d none = d

abbrev pub filters_for : SimExecutor → String → SymbolFilters
filters_for sim symbol = or_default sim.fallback (lookup_filters symbol sim.filters)

module _ ⦃c : Context⦄ where
  -- Adverse slippage: buys fill above, sells below the reference price.
  abbrev pub slip : SimExecutor → ℚ → ℚ
  slip sim ref = quotient (ref ⊗ sim.slippage_bps) (of_ℕ 10_000)

  abbrev pub raw_price : SimExecutor → FillSide → ℚ → ℚ
  raw_price sim buy ref = ref ⊕ slip sim ref
  raw_price sim sell ref = ref ⊖ slip sim ref

  unfoldable pub execute : SimExecutor → Order → ℚ → Time → Action Database Fill
  unfolding record_fill round_price round_quantity trunc half_up
  execute sim order ref now = do
    qty ← lift (round_quantity (filters_for sim order.symbol) order.quantity)
    raise_if (le? qty (of_ℕ 0)) execution_error
    price ← lift (round_price (filters_for sim order.symbol) (raw_price sim order.side ref))
    let notional = qty ⊗ price
    raise_if (lt? notional (filters_for sim order.symbol).min_notional) execution_error
    record_fill "sim" order qty price (notional ⊗ sim.fee_rate) none now

  abbrev pub sim_executor : SimExecutor → Executor
  sim_executor sim = record { mode = "sim"; execute = execute sim }
